-- ===== src/Vfs/Mount.antt =====
-- The mount table of kernel/kern/fs/vfs.c: `vfs_getmnt`, and the part of `vfs_umount_fs` on the table.
use micro.Prelude.{
  ℕ, suc, ◌≤◌, ◌<◌, ◌≡◌, refl, sym, ap, ◌∙◌, Bool, true, false, ◌&&◌, Option, none, some, List, [],
  ◌∷◌, ◌++◌, arith, ◌==◌, ltb, ltb→lt, if◌then◌else◌, length, take, drop, take-append-drop,
  length-take, length-append, Bool-cases, inl, inr, ◌⊎◌,
}
use mathlib.Core.Path.{subst}
use micro.Path.{Text, strcmp}
use micro.Path.Text.{strcmp_iff}
use micro.Path.Canon.{All}
use micro.Vfs.Inode.{Inode}

-- `struct mount`
pub record Mount : Type 0 where
  pub path : Text
  pub file : Inode

-- `for (i = 0; i < strlen(mount->path) && path[i] == mount->path[i]; i++);`
match_len : Text → Text → ℕ
match_len path [] = 0
match_len [] (m ∷ ms) = 0
match_len (c ∷ path) (m ∷ ms) = if c == m then suc (match_len path ms) else 0

-- the tests of a round: the mount point is not longer than the path, and a better match
better : Text → Text → ℕ → Bool
unfolding match_len
better path mnt match =
    let i = match_len path mnt in
    if ltb (length path) (length mnt) then false else ltb match i && strcmp (take i path) mnt

-- the loop over the mounts, with its variables `candidate` and `match`
getmnt_loop : Text → List Mount → Option Mount → ℕ → Option Mount × ℕ
getmnt_loop path [] candidate match = (candidate, match)
getmnt_loop path (m ∷ ms) candidate match =
    let hit = better path m.path match in
    getmnt_loop path ms (if hit then some m else candidate)
      (if hit then match_len path m.path else match)

-- what follows the loop
pick : Text → Option Mount × ℕ → Option (Inode × Text)
pick path (none, match) = none
pick path (some m, match) = some (m.file, drop match path)

-- `vfs_getmnt`: the root of the mounted file system and the path inside it, or `-ENOENT`.
unfoldable pub vfs_getmnt : List Mount → Text → Option (Inode × Text)
unfolding getmnt_loop pick better
vfs_getmnt mounts path = pick path (getmnt_loop path mounts none 0)

-- `vfs_umount_fs`: the first mount on the path leaves the table.
pub vfs_umount_fs : List Mount → Text → Option (List Mount)
vfs_umount_fs [] mnt = none
vfs_umount_fs (m ∷ ms) mnt =
    let rest = vfs_umount_fs ms mnt in
    if strcmp m.path mnt then some ms else elim rest [ none ↦ none | some l ↦ some (m ∷ l) ]

abbrev pub IsPrefix : Text → Text → Type 0
IsPrefix p s = (r : Text) × (s ≡ p ++ r)

-- A mount counts if its path is a prefix of the path, and longer than the match so far.
match_len-prefix : (p r : Text) → match_len (p ++ r) p ≡ length p
unfolding match_len
match_len-prefix [] r = refl
match_len-prefix (c ∷ p) r = ground (arith, match_len-prefix p r)

take-length-append : (p r : Text) → take (length p) (p ++ r) ≡ p
take-length-append [] r = refl
take-length-append (c ∷ p) r = ap (λ t. c ∷ t) (take-length-append p r)

drop-length-append : (p r : Text) → drop (length p) (p ++ r) ≡ r
drop-length-append [] r = refl
drop-length-append (c ∷ p) r = drop-length-append p r

match_len-le :
    (path mnt : Text) → (match_len path mnt ≤ length path) × (match_len path mnt ≤ length mnt)
unfolding match_len
match_len-le path [] = omega arith
match_len-le [] (m ∷ ms) = omega arith
match_len-le (c ∷ path) (m ∷ ms) = ground (arith, match_len-le path ms)

better-prefix :
    (path mnt : Text) (match : ℕ)
    → better path mnt match ≡ true
    → IsPrefix mnt path × (match < length mnt) × (match_len path mnt ≡ length mnt)
unfolding better
better-prefix path mnt match h =
    let i = match_len path mnt in
    let same : take i path ≡ mnt = (strcmp_iff (take i path) mnt).0 (ground arith) in
    let e : i ≡ length mnt =
      omega (arith, ap length same, length-take i path, match_len-le path mnt) in
    (
      (drop i path, sym (take-append-drop i path) ∙ ap (λ t. t ++ drop i path) same),
      ground arith,
      e,
    )

better_of_prefix :
    (mnt rest : Text) (match : ℕ) → match < length mnt → better (mnt ++ rest) mnt match ≡ true
unfolding better
better_of_prefix mnt rest match h = ground (
  arith,
  match_len-prefix mnt rest,
  length-append mnt rest,
  (strcmp_iff (take (match_len (mnt ++ rest) mnt) (mnt ++ rest)) mnt).1
      (rw (match_len-prefix mnt rest) (take-length-append mnt rest)),
)

not_better :
    (path mnt : Text) (match : ℕ)
    → better path mnt match ≡ false
    → IsPrefix mnt path
    → length mnt ≤ match
not_better path mnt match miss (rest, e) = elim (Bool-cases (ltb match (length mnt))) [
  | inl lt ↦ cc (ap (λ t. better t mnt match) e, better_of_prefix mnt rest match (ltb→lt _ _ lt))
  | inr ge ↦ ground arith
]

abbrev pub In : Mount → List Mount → Type 0
In m [] = ⊥
In m (x ∷ xs) = (m ≡ x) ⊎ In m xs

-- What the loop returns on `mounts`, started with `candidate` and `match`.
record IsBest (path : Text) (mounts : List Mount) (candidate : Option Mount) (match : ℕ)
    (out : Option Mount × ℕ) : Type 0 where
  grows : match ≤ out.1
  longest : All (λ m. IsPrefix m.path path → length m.path ≤ out.1) mounts
  source :
      (out ≡ (candidate, match))
      ⊎ ((m : Mount) × In m mounts
          × (out ≡ (some m, length m.path))
          × IsPrefix m.path path
          × (match < length m.path))

getmnt_loop-IsBest :
    (path : Text) (mounts : List Mount) (candidate : Option Mount) (match : ℕ)
    → IsBest path mounts candidate match (getmnt_loop path mounts candidate match)
unfolding getmnt_loop
getmnt_loop-IsBest path [] candidate match = record {
  grows = omega arith;
  longest = tt;
  source = inl refl;
}
getmnt_loop-IsBest path (m ∷ ms) candidate match = elim (Bool-cases (better path m.path match)) [
  | inl hit ↦ rw hit (
      taken (better-prefix path m.path match hit)
        (getmnt_loop-IsBest path ms (some m) (match_len path m.path)))
  | inr miss ↦ rw miss (passed miss (getmnt_loop-IsBest path ms candidate match))
]
  where
    taken :
        IsPrefix m.path path × (match < length m.path) × (match_len path m.path ≡ length m.path)
        → IsBest path ms
            (some m)
            (match_len path m.path)
            (getmnt_loop path ms (some m) (match_len path m.path))
        → IsBest path
            (m ∷ ms)
            candidate
            match
            (getmnt_loop path ms (some m) (match_len path m.path))
    taken (p, l, e) b = record {
      grows = omega (arith, b.grows);
      longest = ((λ _. omega (arith, b.grows)), b.longest);
      source = elim b.source [
        | inl same ↦ inr (m, inl refl, same ∙ ap (λ k. (some m, k)) e, p, l)
        | inr (n, i, o, q, k) ↦ inr (n, inr i, o, q, omega arith)
      ];
    }

    passed :
        better path m.path match ≡ false
        → IsBest path ms candidate match (getmnt_loop path ms candidate match)
        → IsBest path (m ∷ ms) candidate match (getmnt_loop path ms candidate match)
    passed miss b = record {
      grows = b.grows;
      longest = ((λ p. omega (arith, not_better path m.path match miss p, b.grows)), b.longest);
      source = elim b.source [
        | inl same ↦ inl same
        | inr (n, i, o, q, k) ↦ inr (n, inr i, o, q, k)
      ];
    }

getmnt_of_loop :
    (mounts : List Mount) (path : Text) (m : Mount) (n : ℕ)
    → getmnt_loop path mounts none 0 ≡ (some m, n)
    → vfs_getmnt mounts path ≡ some (m.file, drop n path)
unfolding vfs_getmnt
getmnt_of_loop mounts path m n o = ap (pick path) o

none_of_loop :
    (mounts : List Mount) (path : Text)
    → getmnt_loop path mounts none 0 ≡ (none, 0)
    → vfs_getmnt mounts path ≡ none
unfolding vfs_getmnt
none_of_loop mounts path o = ap (pick path) o

some_pair_injective : (a b : Inode × Text) → some a ≡ some b → (a.0 ≡ b.0) × (a.1 ≡ b.1)
some_pair_injective a b e = (ap (λ p. p.0) same, ap (λ p. p.1) same)
  where
    same : a ≡ b
    same = ap (λ (o : Option (Inode × Text)). elim o [ none ↦ a | some p ↦ p ]) e

-- The mount that `vfs_getmnt` picks is in the table, its path followed by the returned relative
-- path is the given path, and no mount point that is a prefix of the path is longer.
pub getmnt_longest :
    (mounts : List Mount) (path : Text) (root : Inode) (relat : Text)
    → vfs_getmnt mounts path ≡ some (root, relat)
    → (m : Mount) × In m mounts
      × (root ≡ m.file)
      × (path ≡ m.path ++ relat)
      × (0 < length m.path)
      × All (λ m'. IsPrefix m'.path path → length m'.path ≤ length m.path) mounts
getmnt_longest mounts path root relat e =
    let b = getmnt_loop-IsBest path mounts none 0 in
    elim b.source [
      | inl same ↦ cc (none_of_loop mounts path same)
      | inr (m, i, o, (rest, p), k) ↦
          let (same_root, same_rest) =
            some_pair_injective _ _ (sym e ∙ getmnt_of_loop mounts path m (length m.path) o) in
          let tail : drop (length m.path) path ≡ rest =
            ap (drop (length m.path)) p ∙ drop-length-append m.path rest in
          (
            m,
            i,
            same_root,
            p ∙ ap (m.path ++◌) (sym (same_rest ∙ tail)),
            k,
            subst
                (λ (out : Option Mount × ℕ).
                  All (λ m'. IsPrefix m'.path path → length m'.path ≤ out.1) mounts)
                o b.longest,
          )
    ]

-- If `vfs_getmnt` fails, no mount point but the empty one is a prefix of the path.
pub getmnt_none :
    (mounts : List Mount) (path : Text)
    → vfs_getmnt mounts path ≡ none
    → All (λ m'. IsPrefix m'.path path → length m'.path ≤ 0) mounts
getmnt_none mounts path e =
    let b = getmnt_loop-IsBest path mounts none 0 in
    elim b.source [
      | inl same ↦
          subst
            (λ (out : Option Mount × ℕ).
              All (λ m'. IsPrefix m'.path path → length m'.path ≤ out.1) mounts)
            same b.longest
      | inr (m, i, o, p, k) ↦ cc (getmnt_of_loop mounts path m (length m.path) o)
    ]

only_mount :
    (mnt rest : Text) (root : Inode)
    → 0 < length mnt
    → getmnt_loop (mnt ++ rest) (record { path = mnt; file = root } ∷ []) none 0
      ≡ (some (record { path = mnt; file = root }), length mnt)
unfolding getmnt_loop
only_mount mnt rest root h = rw (better_of_prefix mnt rest 0 h, match_len-prefix mnt rest)

-- The match stops at a byte, not at a component: a mount point also takes every path that only
-- begins with the same bytes, as "/dev" takes "/device".
pub getmnt_splits_component :
    (mnt rest : Text) (root : Inode)
    → 0 < length mnt
    → vfs_getmnt (record { path = mnt; file = root } ∷ []) (mnt ++ rest) ≡ some (root, rest)
getmnt_splits_component mnt rest root h =
    getmnt_of_loop (record { path = mnt; file = root } ∷ []) (mnt ++ rest)
      (record { path = mnt; file = root }) (length mnt) (only_mount mnt rest root h)
    ∙ ap (λ t. some (root, t)) (drop-length-append mnt rest)

-- A mount on a path that the table does not hold yet, and its removal, leave the table as it was.
pub umount-mount :
    (mounts : List Mount) (m : Mount)
    → All (λ m'. strcmp m'.path m.path ≡ false) mounts
    → vfs_umount_fs (mounts ++ m ∷ []) m.path ≡ some mounts
unfolding vfs_umount_fs
umount-mount [] m h = rw ((strcmp_iff m.path m.path).1 refl)
umount-mount (x ∷ xs) m h = rw (h.0, umount-mount xs m h.1)
