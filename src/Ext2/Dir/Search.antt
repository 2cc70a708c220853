-- ===== src/Ext2/Dir/Search.antt =====
-- The search for a name in a directory, the loop of `ext2_lookup` and `ext2_unlink` of
-- kernel/dev/ext2/ext2.c.
use micro.Prelude.{
  ℕ, zero, suc, ◌+◌, ◌*◌, ◌≤◌, ◌<◌, ◌≡◌, refl, sym, ap, subst, ◌∙◌, Bool, true, false, ◌&&◌,
  Bool-cases, inl, inr, Option, none, some, List, [], ◌∷◌, ◌++◌, if◌then◌else◌, ltb, leb, ◌==◌,
  length, length-append, append_assoc, arith,
}
use micro.Bitmap.{Bytes}
use micro.Path.{Text, strcmp}
use micro.Path.Text.{strcmp_iff}
use micro.Ext2.{Inode, Volume}
use micro.Ext2.Map.{inode_blk}
use micro.Ext2.Dir.{dirent, is_named, dir_bytes, Found, found, missing, find_entry}
use micro.Ext2.Dir.Entries.{
  Entry, entry_size, entry_bytes, IsEntry, members, entries_bytes, AreEntries, length-entry_bytes,
  dirent-entry, is_named-entry,
}

-- The first entry that passes a test.
unfoldable pub first_entry : (Entry → Bool) → List Entry → Option Entry
first_entry p [] = none
first_entry p (e ∷ es) = if p e then some e else first_entry p es

-- The first entry with a name.
unfoldable pub first_named : Text → List Entry → Option Entry
first_named name = first_entry (λ e. strcmp name e.name)

-- An entry stands at a place of a buffer.
pub record Stands (buf : Bytes) (offset : ℕ) (e : Entry) : Type 0 where
  pub before : Bytes
  pub after : Bytes
  pub bytes : buf ≡ before ++ (entry_bytes e ++ after)
  pub place : length before ≡ offset
  pub entry : IsEntry e

-- The loop ends at the entry, or behind the last of `n` blocks where there is none.
unfoldable pub Finds : (ℕ → Bytes) → (n : ℕ) → Found → Option Entry → Type 0
Finds block n (found blk offset) (some e) = Stands (block blk) offset e
Finds block n (missing blk) none = blk ≡ n
Finds _ _ _ _ = ⊥

length-test : (name t : Text) → ((length name == length t) && strcmp name t) ≡ strcmp name t
length-test name t = elim (Bool-cases (strcmp name t)) [
  | inl a ↦
      let same : name ≡ t = (strcmp_iff name t).0 a in
      rw (a) (subst (λ u. ((length name == length u) && true) ≡ true) same (ground arith))
  | inr a ↦ rw (a) (ground arith)
]

length-entry_size : (e : Entry) → 8 ≤ entry_size e
unfolding entry_size
length-entry_size e = omega arith

-- A test of the loop on bytes, as one on entries.
unfoldable pub Tests : (Bytes → ℕ → Bool) → (Entry → Bool) → Type 0
Tests test p =
    (before after : Bytes) (e : Entry)
    → IsEntry e
    → test (before ++ (entry_bytes e ++ after)) (length before) ≡ p e

pub is_named-Tests : (name : Text) → Tests (is_named name) (λ e. strcmp name e.name)
unfolding Tests
is_named-Tests name before after e ok =
    is_named-entry before e after ok name ∙ length-test name e.name

module _ (vol : Volume) (ino : Inode) (n : ℕ) (test : Bytes → ℕ → Bool) (p : Entry → Bool)
    (tests : Tests test p) where
  -- A round at an entry.
  round :
      (fuel blk : ℕ) (before after : Bytes) (e : Entry)
      → vol.disk (inode_blk vol ino blk) ≡ before ++ (entry_bytes e ++ after)
      → IsEntry e
      → length before + blk * vol.blksize < dir_bytes ino
      → find_entry (suc fuel) vol ino test (length before) blk ≡ (
          if p e
          then found blk (length before)
          else if leb vol.blksize (length before + entry_size e)
          then find_entry fuel vol ino test 0 (blk + 1)
          else find_entry fuel vol ino test (length before + entry_size e) blk)
  unfolding find_entry entry_size members Tests
  round fuel blk before after e eq ok inside =
      let b = vol.disk (inode_blk vol ino blk) in
      let o = length before in
      let over = find_entry fuel vol ino test 0 (blk + 1) in
      let within : ltb (o + blk * vol.blksize) (dir_bytes ino) ≡ true = ground arith in
      let passed : test b o ≡ p e = ap (λ b. test b o) eq ∙ tests before after e ok in
      let step : dirent b o 1 ≡ entry_size e =
        ap (λ b. dirent b o 1) eq ∙ dirent-entry before e after ok 1 in
      ap
        (λ t.
          if t
          then (if test b o
              then found blk o
              else if leb vol.blksize (o + dirent b o 1)
              then over
              else find_entry fuel vol ino test (o + dirent b o 1) blk)
          else missing blk)
        within
      ∙ ap
          (λ t.
            if t
            then found blk o
            else if leb vol.blksize (o + dirent b o 1)
            then over
            else find_entry fuel vol ino test (o + dirent b o 1) blk)
          passed
      ∙ ap
          (λ k.
            if p e
            then found blk o
            else if leb vol.blksize (o + k)
            then over
            else find_entry fuel vol ino test (o + k) blk)
          step

  -- The rest of a block, from an entry on.
  scan_block :
      (fuel blk : ℕ) (before : Bytes) (e : Entry) (es rest : List Entry)
      → vol.disk (inode_blk vol ino blk) ≡ before ++ (entry_bytes e ++ entries_bytes es)
      → IsEntry e
      → AreEntries es
      → length before + (entry_size e + length (entries_bytes es)) ≡ vol.blksize
      → vol.blksize + blk * vol.blksize ≤ dir_bytes ino
      → dir_bytes ino < fuel + (length before + blk * vol.blksize)
      → ((f : ℕ)
          → dir_bytes ino < f + (blk + 1) * vol.blksize
          → Finds
              (λ i. vol.disk (inode_blk vol ino i))
              n
              (find_entry f vol ino test 0 (blk + 1))
              (first_entry p rest))
      → Finds
          (λ i. vol.disk (inode_blk vol ino i))
          n
          (find_entry fuel vol ino test (length before) blk)
          (first_entry p (e ∷ (es ++ rest)))
  unfolding first_entry Finds AreEntries entries_bytes
  scan_block zero blk before e es rest eq ok oks full inside enough next =
      let bad : ⊥ = omega (arith, length-entry_size e) in elim bad [ ]
  scan_block (suc fuel) blk before e [] rest eq ok oks full inside enough next =
      let r = round fuel blk before [] e eq ok (omega (arith, length-entry_size e)) in
      elim (Bool-cases (p e)) [
        | inl a ↦
            rw (r, a) (record { before = before; after = []; bytes = eq; place = refl; entry = ok })
        | inr a ↦
            let last : leb vol.blksize (length before + entry_size e) ≡ true = ground arith in
            rw (r, a, last) (next fuel (omega (arith, length-entry_size e)))
      ]
  scan_block (suc fuel) blk before e (e' ∷ es) rest eq ok (ok', oks) full inside enough next =
      let r =
        round fuel blk before (entries_bytes (e' ∷ es)) e eq ok
          (omega (arith, length-entry_size e)) in
      let l : length (before ++ entry_bytes e) ≡ length before + entry_size e =
        length-append before (entry_bytes e) ∙ ap (length before +◌) (length-entry_bytes e ok) in
      let joined : length (entry_bytes e' ++ entries_bytes es)
          ≡ entry_size e' + length (entries_bytes es) =
        length-append (entry_bytes e') (entries_bytes es)
        ∙ ap (◌+ length (entries_bytes es)) (length-entry_bytes e' ok') in
      elim (Bool-cases (p e)) [
        | inl a ↦
            rw (r, a)
              (record {
                before = before;
                after = entries_bytes (e' ∷ es);
                bytes = eq;
                place = refl;
                entry = ok;
              })
        | inr a ↦
            let last : leb vol.blksize (length before + entry_size e) ≡ false =
              ground (arith, length-entry_size e') in
            let go =
              scan_block fuel blk (before ++ entry_bytes e) e' es rest
                (eq
                  ∙ sym (append_assoc before (entry_bytes e) (entry_bytes e' ++ entries_bytes es)))
                ok' oks (omega arith) inside (omega (arith, length-entry_size e)) next in
            rw (r, a, last)
              (subst
                (λ o.
                  Finds (λ i. vol.disk (inode_blk vol ino i)) n (find_entry fuel vol ino test o blk)
                    (first_entry p (e' ∷ (es ++ rest))))
                l go)
      ]

-- The entries of the blocks from `blk` on.
unfoldable pub all_entries : (ℕ → List Entry) → (blk left : ℕ) → List Entry
all_entries dir blk zero = []
all_entries dir blk (suc left) = dir blk ++ all_entries dir (blk + 1) left

-- The `n` blocks of a directory are full of entries.
pub record IsDirectory (vol : Volume) (ino : Inode) (n : ℕ) (dir : ℕ → List Entry) : Type 0 where
  pub sized : 0 < vol.blksize
  pub stored : (i : ℕ) → i < n → vol.disk (inode_blk vol ino i) ≡ entries_bytes (dir i)
  pub entries : (i : ℕ) → i < n → AreEntries (dir i)
  pub full : (i : ℕ) → i < n → length (entries_bytes (dir i)) ≡ vol.blksize
  pub counted : dir_bytes ino ≡ n * vol.blksize

module _ (vol : Volume) (ino : Inode) (n : ℕ) (dir : ℕ → List Entry) (test : Bytes → ℕ → Bool)
    (p : Entry → Bool) (tests : Tests test p) (ok : IsDirectory vol ino n dir) where
  from_block :
      (es rest : List Entry) (blk fuel : ℕ)
      → vol.disk (inode_blk vol ino blk) ≡ entries_bytes es
      → AreEntries es
      → length (entries_bytes es) ≡ vol.blksize
      → vol.blksize + blk * vol.blksize ≤ dir_bytes ino
      → dir_bytes ino < fuel + blk * vol.blksize
      → ((f : ℕ)
          → dir_bytes ino < f + (blk + 1) * vol.blksize
          → Finds
              (λ i. vol.disk (inode_blk vol ino i))
              n
              (find_entry f vol ino test 0 (blk + 1))
              (first_entry p rest))
      → Finds
          (λ i. vol.disk (inode_blk vol ino i))
          n
          (find_entry fuel vol ino test 0 blk)
          (first_entry p (es ++ rest))
  unfolding AreEntries entries_bytes
  from_block [] rest blk fuel eq oks full inside enough next =
      let bad : ⊥ = omega (arith, ok.sized, full) in elim bad [ ]
  from_block (e ∷ es) rest blk fuel eq (o, oks) full inside enough next =
      scan_block vol ino n test p tests fuel blk [] e es rest eq o oks
        (omega
          (arith, length-entry_bytes e o, length-append (entry_bytes e) (entries_bytes es), full))
        inside (omega arith) next

  search_from :
      (left blk fuel : ℕ)
      → blk + left ≡ n
      → dir_bytes ino < fuel + blk * vol.blksize
      → Finds
          (λ i. vol.disk (inode_blk vol ino i))
          n
          (find_entry fuel vol ino test 0 blk)
          (first_entry p (all_entries dir blk left))
  unfolding all_entries Finds find_entry first_entry
  search_from zero blk zero e enough =
      let bad : ⊥ = omega (arith, ok.counted, ap (◌* vol.blksize) e) in elim bad [ ]
  search_from zero blk (suc fuel) e enough =
      let out : ltb (0 + blk * vol.blksize) (dir_bytes ino) ≡ false =
        ground (arith, ok.counted, ap (◌* vol.blksize) e) in
      rw (out) (omega (arith, e))
  search_from (suc left) blk fuel e enough =
      from_block (dir blk) (all_entries dir (blk + 1) left) blk fuel (ok.stored blk (omega arith))
        (ok.entries blk (omega arith)) (ok.full blk (omega arith))
        (omega (arith, ok.counted, ap (◌* vol.blksize) e)) enough
        (λ f h. search_from left (blk + 1) f (omega arith) h)

  pub find_entry-Finds :
      (fuel : ℕ)
      → dir_bytes ino < fuel
      → Finds
          (λ i. vol.disk (inode_blk vol ino i))
          n
          (find_entry fuel vol ino test 0 0)
          (first_entry p (all_entries dir 0 n))
  find_entry-Finds fuel enough = search_from n 0 fuel (omega arith) (omega arith)
