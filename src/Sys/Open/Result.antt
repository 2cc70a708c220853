-- ===== src/Sys/Open/Result.antt =====
-- `do_sys_open` of kernel/kern/fs/open.c: the descriptor table, and what is demanded.
use mathlib.Core.Path.{ap₂}
use micro.Prelude.{
  ℕ, ◌==◌, not, false, Bool-cases, ◌⊎◌, ◌≡◌, refl, sym, ap, ◌∙◌, true, some, List, [], ◌∷◌, ◌++◌,
  leb, arith, length, set, Option-cases, inl, inr,
}
use micro.Errno.{Errno, code, enoent}
use micro.Path.{Text}
use Prim.Native.Nat.{bit_or}
use micro.Vfs.Inode.{Inode, test_bits, s_ifreg}
use micro.Vfs.Perm.{vfs_checkperm}
use micro.Vfs.Driver.{Outcome, done, error, fault, bind, pure, Drivers}
use micro.Vfs.File.{File}
use micro.Vfs.Names.{Opened, o_nofollow, vfs_open, vfs_mknod, check}
use micro.Vfs.Names.Access.{check-done}
use micro.Vfs.Resolve.Trail.{bind-done}
use micro.Vfs.Resolve.{vfs_resolve}
use micro.Sys.{System, Task, env_of, cred_of}
use micro.Sys.Names.Workd.{lift-done}
use micro.Sys.Slots.{IsFirst, scan-IsFirst, free_slot_from_three}
use micro.Sys.Desc.{set_slot}
use micro.Sys.Open.{
  o_excl, o_creat, unmask, open_or_create, check_opened, alloc_file, do_sys_open, for_reading,
  for_writing,
}

-- Nothing but the drivers' state differs.
abbrev pub SameKernel : {W : Type 0} → System W → System W → Type 0
SameKernel s s' =
    (s.task ≡ s'.task) × (s.files ≡ s'.files) × (s.inodes ≡ s'.inodes) × (s.mounts ≡ s'.mounts)

module _ {W : Type 0} (drivers : Drivers W) where
  open_or_create-SameKernel :
      (path : Text) (flags mode : ℕ) (s s' : System W) (o : Opened)
      → open_or_create drivers path flags mode s ≡ done o s'
      → SameKernel s s'
  unfolding open_or_create
  open_or_create-SameKernel path flags mode s s' o h = ground arith

  -- A file that was not there is made, by the call of the driver with the mode less the umask, and opens then.
  pub record IsMade (path : Text) (flags mode : ℕ) (s : System W) (o : Opened) : Type 0 where
    pub before : Errno
    pub tried : W
    pub made : W
    pub after : W
    pub failed : vfs_open (env_of drivers s) path flags s.fs ≡ error before tried
    pub absent : code before ≡ code enoent
    pub asked : test_bits flags o_creat ≡ true
    pub makes :
        vfs_mknod
          (env_of drivers s)
          path
          (bit_or (unmask mode s.task.umask) s_ifreg)
          0
          s.task.euid
          s.task.egid
          tried
        ≡ done tt made
    pub opens : vfs_open (env_of drivers s) path flags made ≡ done o after

  -- How the file of an `open` came to be: it was there and need not be new, or it was made.
  abbrev pub IsFound : (path : Text) (flags mode : ℕ) → System W → Opened → Type 0
  IsFound path flags mode s o =
      ((w : W) × (test_bits flags o_excl ≡ false)
        × (vfs_open (env_of drivers s) path flags s.fs ≡ done o w))
      ⊎ IsMade path flags mode s o

  done-value : {A S : Type 0} (a b : A) (x y : S) → done a x ≡ done b y → a ≡ b
  done-value a b x y h = ground arith

  record IsStart (path : Text) (flags : ℕ) (s : System W) (n : Errno) (w : W) : Type 0 where
    failed : vfs_open (env_of drivers s) path flags s.fs ≡ error n w
    absent : code n ≡ code enoent
    asked : test_bits flags o_creat ≡ true

  -- what `do_sys_open` does once the file is made, and before
  reopening :
      (path : Text) (flags : ℕ) (s : System W) → Outcome W Opened → Outcome (System W) Opened
  reopening path flags s (done o w) = done o (record s { fs = w })
  reopening path flags s (error e w) = fault
  reopening path flags s fault = fault

  making :
      (path : Text) (flags : ℕ) (s : System W) → Outcome W (Unit {0}) → Outcome (System W) Opened
  unfolding reopening
  making path flags s (error e w) = error e (record s { fs = w })
  making path flags s fault = fault
  making path flags s (done u w) = reopening path flags s (vfs_open (env_of drivers s) path flags w)

  found_opened :
      (path : Text) (flags mode : ℕ) (s s' : System W) (o : Opened) (n : Errno) (w w' : W)
      (u : Unit {0})
      → IsStart path flags s n w
      → vfs_mknod
          (env_of drivers s)
          path
          (bit_or (unmask mode s.task.umask) s_ifreg)
          0
          s.task.euid
          s.task.egid
          w
        ≡ done u w'
      → (r : Outcome W Opened) → vfs_open (env_of drivers s) path flags w' ≡ r
      → reopening path flags s r ≡ done o s'
      → IsFound path flags mode s o
  unfolding reopening
  found_opened path flags mode s s' o n w w' u start m (done o' w'') e h =
      let same : o' ≡ o = done-value o' o (record s { fs = w'' }) s' h in
      inr (record {
        before = n;
        tried = w;
        made = w';
        after = w'';
        failed = start.failed;
        absent = start.absent;
        asked = start.asked;
        makes = m;
        opens = e ∙ ap (λ o. done o w'') same;
      })
  found_opened path flags mode s s' o n w w' u start m (error x w'') e h = cc
  found_opened path flags mode s s' o n w w' u start m fault e h = cc

  found_made :
      (path : Text) (flags mode : ℕ) (s s' : System W) (o : Opened) (n : Errno) (w : W)
      → IsStart path flags s n w
      → (r : Outcome W (Unit {0}))
      → vfs_mknod
          (env_of drivers s)
          path
          (bit_or (unmask mode s.task.umask) s_ifreg)
          0
          s.task.euid
          s.task.egid
          w
        ≡ r
      → making path flags s r ≡ done o s'
      → IsFound path flags mode s o
  unfolding making
  found_made path flags mode s s' o n w start (done u w') m h =
      found_opened path flags mode s s' o n w w' u start m
        (vfs_open (env_of drivers s) path flags w') refl h
  found_made path flags mode s s' o n w start (error x w') m h = cc
  found_made path flags mode s s' o n w start fault m h = cc

  -- The file has the flags of the call.
  vfs_open-flags :
      (path : Text) (flags : ℕ) (s : System W) (w w' : W) (o : Opened)
      → vfs_open (env_of drivers s) path flags w ≡ done o w'
      → o.flags ≡ flags
  unfolding vfs_open
  vfs_open-flags path flags s w w' o h =
      let (n, w₁, e₁, h₁) =
        bind-done (vfs_resolve (env_of drivers s) path (not (test_bits flags o_nofollow)) w) _ h in
      let (ops, w₂, e₂, h₂) =
        bind-done _ (λ k. pure (record { inode = n; flags = flags; ops = k })) h₁ in
      sym (ap Opened.flags (done-value (record { inode = n; flags = flags; ops = ops }) o w₂ w' h₂))

  found-flags :
      (path : Text) (flags mode : ℕ) (s : System W) (o : Opened)
      → IsFound path flags mode s o
      → o.flags ≡ flags
  found-flags path flags mode s o (inl (w, x, e)) = vfs_open-flags path flags s s.fs w o e
  found-flags path flags mode s o (inr m) = vfs_open-flags path flags s m.made m.after o m.opens

  found_first :
      (path : Text) (flags mode : ℕ) (s s' : System W) (o : Opened) (r : Outcome W Opened)
      → vfs_open (env_of drivers s) path flags s.fs ≡ r
      → open_or_create drivers path flags mode s ≡ done o s'
      → IsFound path flags mode s o
  unfolding open_or_create making reopening
  found_first path flags mode s s' o (done o' w) e h = elim (Bool-cases (test_bits flags o_excl)) [
    | inl x ↦ let h' = rw (e, open_or_create, x) at h in cc
    | inr x ↦
        let h' = rw (e, open_or_create, x) at h in
        let same : o' ≡ o = done-value o' o (record s { fs = w }) s' h' in
        inl (w, x, e ∙ ap (λ o. done o w) same)
  ]
  found_first path flags mode s s' o fault e h = let h' = rw (e, open_or_create) at h in cc
  found_first path flags mode s s' o (error n w) e h = elim (Bool-cases (code n == code enoent)) [
    | inr a ↦ elim (Bool-cases (test_bits flags o_excl)) [
      | inl x ↦ let h' = rw (e, open_or_create, a, x) at h in cc
      | inr x ↦ let h' = rw (e, open_or_create, a, x) at h in cc
    ]
    | inl a ↦ elim (Bool-cases (test_bits flags o_creat)) [
      | inr c ↦ let h' = rw (e, open_or_create, a, c) at h in cc
      | inl c ↦
          let path_mode = bit_or (unmask mode s.task.umask) s_ifreg in
          let start : IsStart path flags s n w = record {
            failed = e;
            absent = ground arith;
            asked = c;
          } in
          found_made path flags mode s s' o n w start
            (vfs_mknod (env_of drivers s) path path_mode 0 s.task.euid s.task.egid w) refl
            (rw (e, open_or_create, a, c) at h)
    ]
  ]

  check_opened-done :
      (flags : ℕ) (o : Opened) (s s' : System W) (u : Unit {0})
      → check_opened drivers flags o s ≡ done u s'
      → (s' ≡ s)
        × (for_reading flags ≡ true → vfs_checkperm (some (cred_of s.task)) o.inode 4 ≡ true)
        × (for_writing flags ≡ true → vfs_checkperm (some (cred_of s.task)) o.inode 2 ≡ true)
  unfolding check_opened
  check_opened-done flags o s s' u h =
      let env = env_of drivers s in
      let m : W → Outcome W (Unit {0}) = λ w.
        bind (check env (for_reading flags) o.inode 4 w)
          (λ _. check env (for_writing flags) o.inode 2) in
      let (w, e, same) = lift-done (m s.fs) m s s' u refl h in
      let (v, w₁, e₁, e₂) = bind-done (check env (for_reading flags) o.inode 4 s.fs) _ e in
      let (r, p) = check-done env (for_reading flags) o.inode 4 s.fs v w₁ e₁ in
      let (x, q) = check-done env (for_writing flags) o.inode 2 w₁ u w e₂ in
      (same ∙ ap (λ f. record s { fs = f }) (sym (p ∙ q)), r, x)

  -- The state after an `open` that returned `fd`.
  pub record IsOpened (path : Text) (flags mode : ℕ) (s : System W) (fd : ℕ) (o : Opened)
      (s' : System W) : Type 0 where
    pub first : IsFirst (λ i. leb 3 i) 0 s.task.fds fd
    pub slot : s'.task ≡ record (s.task) { fds = set s.task.fds fd (some (length s.files)) }
    pub file :
        s'.files
        ≡ s.files ++ record { inode = length s.inodes; off = 0; flags = o.flags; ops = o.ops } ∷ []
    pub inode : s'.inodes ≡ s.inodes ++ o.inode ∷ []
    pub kept : o.flags ≡ flags
    pub found : IsFound path flags mode s o
    pub reads : for_reading flags ≡ true → vfs_checkperm (some (cred_of s.task)) o.inode 4 ≡ true
    pub writes : for_writing flags ≡ true → vfs_checkperm (some (cred_of s.task)) o.inode 2 ≡ true

  -- what `do_sys_open` does once it has the slot `i`
  abbrev opening : (path : Text) (flags mode i : ℕ) → System W → Outcome (System W) ℕ
  opening path flags mode i s = bind (open_or_create drivers path flags mode s) λ o s₁.
      bind (check_opened drivers flags o s₁)
        λ _ s₂. bind (alloc_file o s₂) λ p s₃. bind (set_slot i (some p) s₃) λ _ s₄. done i s₄

  done-both : (a b : ℕ) (x y : System W) → done a x ≡ done b y → (b ≡ a) × (y ≡ x)
  done-both a b x y h = ground arith

  opening-IsOpened :
      (path : Text) (flags mode i fd : ℕ) (s s' : System W)
      → IsFirst (λ i. leb 3 i) 0 s.task.fds i
      → opening path flags mode i s ≡ done fd s'
      → (o : Opened) × IsOpened path flags mode s fd o s'
  unfolding alloc_file
  opening-IsOpened path flags mode i fd s s' f h =
      let (o, s₁, e₁, h₁) = bind-done (open_or_create drivers path flags mode s) _ h in
      let (v, s₂, e₂, h₂) = bind-done (check_opened drivers flags o s₁) _ h₁ in
      let (t, fs, is, ms) = open_or_create-SameKernel path flags mode s s₁ o e₁ in
      let there =
        found_first path flags mode s s₁ o (vfs_open (env_of drivers s) path flags s.fs) refl e₁ in
      let (same, r, w) = check_opened-done flags o s₁ s₂ v e₂ in
      let p : ℕ = length s₁.files in
      let last : System W = record s₁ {
        inodes = s₁.inodes ++ o.inode ∷ [];
        files =
            s₁.files
            ++ record { inode = length s₁.inodes; off = 0; flags = o.flags; ops = o.ops } ∷ [];
        task = record (s₁.task) { fds = set s₁.task.fds i (some p) };
      } in
      let (n, q) = done-both i fd last s' (rw (same) at h₂) in
      let cred : vfs_checkperm (some (cred_of s₁.task)) o.inode
          ≡ vfs_checkperm (some (cred_of s.task)) o.inode =
        ap (λ k. vfs_checkperm (some (cred_of k)) o.inode) (sym t) in
      (
        o,
        record {
          first = rw (n) f;
          slot =
              ap System.task q
              ∙ ap₂ (λ (k : Task) (l : List File). record k { fds = set k.fds i (some (length l)) })
                  (sym t) (sym fs)
              ∙ ap (λ k. record (s.task) { fds = set s.task.fds k (some (length s.files)) })
                  (sym n);
          file =
              ap System.files q
              ∙ ap₂
                  (λ (k : List File) (l : List Inode).
                    k ++ record { inode = length l; off = 0; flags = o.flags; ops = o.ops } ∷ [])
                  (sym fs) (sym is);
          inode = ap System.inodes q ∙ ap (λ l. l ++ o.inode ∷ []) (sym is);
          kept = found-flags path flags mode s o there;
          found = there;
          reads = λ a. sym (ap (λ g. g 4) cred) ∙ r a;
          writes = λ a. sym (ap (λ g. g 2) cred) ∙ w a;
        },
      )

  pub open_result :
      (path : Text) (flags mode fd : ℕ) (s s' : System W)
      → do_sys_open drivers path flags mode s ≡ done fd s'
      → (o : Opened) × IsOpened path flags mode s fd o s'
  unfolding do_sys_open free_slot_from_three
  open_result path flags mode fd s s' h = elim (Option-cases (free_slot_from_three s.task.fds)) [
    | inl e ↦ let h' = rw (e, do_sys_open) at h in cc
    | inr (i, e) ↦
        opening-IsOpened path flags mode i fd s s' (scan-IsFirst (λ i. leb 3 i) 0 s.task.fds i e)
          (rw (e, do_sys_open) at h)
  ]
