-- ===== src/Ext2/Alloc/Lowest.antt =====
-- Which bit `ext2_alloc_blk` and `ext2_alloc_inode` of kernel/dev/ext2/ext2.c take.
use micro.Prelude.{
  ℕ, suc, ◌+◌, ◌-◌, ◌*◌, ◌%◌, ◌^◌, ◌≤◌, ◌<◌, ◌≡◌, ◌≢◌, refl, sym, ap, subst, ◌∙◌, ◌||◌, ◌⊎◌, inl,
  inr, Option, none, some, List, [], ◌∷◌, get_or, set, ◌==◌, length, put_self, put_ne, arith,
  Bool-cases, Option-cases,
}
use micro.Bitmap.{get_bit}
use micro.Bitmap.Bytes.{AreBytes, get_bit-set_bit}
use micro.Bitmap.First.{first_false, IsFirst, first_false-IsFirst}
use micro.Ext2.{Group, Volume, no_group, write_block, rewrite_bgds, groups_bytes, bgds_blk}
use micro.Ext2.Codec.{splice}
use micro.Ext2.Alloc.{search, take_bit, use_block, alloc_blk}

-- Every block of the disk is of the volume's size, and made of bytes.
unfoldable pub IsDisk : Volume → Type 0
IsDisk vol = (b : ℕ) → AreBytes (vol.disk b) × (length (vol.disk b) ≡ vol.blksize)

module _ (free bmp : Group → ℕ) (vol : Volume) where
  -- A group has nothing to give: its count is 0, or every bit of its bitmap is set.
  unfoldable pub IsFull : Group → Type 0
  IsFull g = (free g ≡ 0) ⊎ IsFirst (get_bit (vol.disk (bmp g))) 0 (0 + vol.blksize * 8) none

  unfoldable pub AreFull : List Group → Type 0
  AreFull [] = Unit
  AreFull (g ∷ gs) = IsFull g × AreFull gs

  -- The first group that is not full, numbered from `i` on, and its lowest clear bit.
  pub data Lowest : (i : ℕ) → List Group → (n : ℕ) → Group → (j : ℕ) → Type 0 where
    here :
        (i : ℕ) (g : Group) (gs : List Group) (j : ℕ)
        → free g ≢ 0
        → IsFirst (get_bit (vol.disk (bmp g))) 0 (0 + vol.blksize * 8) (some j)
        → Lowest i (g ∷ gs) i g j
    later :
        (i : ℕ) (g : Group) (gs : List Group) (n : ℕ) (h : Group) (j : ℕ)
        → IsFull g
        → Lowest (suc i) gs n h j
        → Lowest i (g ∷ gs) n h j

  unfoldable pub IsSearched : (i : ℕ) → List Group → Option (ℕ × ℕ) → Type 0
  IsSearched i gs none = AreFull gs
  IsSearched i gs (some (n, j)) = (g : Group) × Lowest i gs n g j

  skip-IsSearched :
      (i : ℕ) (g : Group) (gs : List Group) (r : Option (ℕ × ℕ))
      → IsFull g
      → IsSearched (suc i) gs r
      → IsSearched i (g ∷ gs) r
  unfolding IsSearched AreFull
  skip-IsSearched i g gs none f h = (f, h)
  skip-IsSearched i g gs (some (n, j)) f (h, l) = (h, Lowest.later i g gs n h j f l)

  search-IsSearched : (i : ℕ) (gs : List Group) → IsSearched i gs (search free bmp vol i gs)
  unfolding search IsSearched AreFull IsFull
  search-IsSearched i [] = tt
  search-IsSearched i (g ∷ gs) =
      let ih = search-IsSearched (suc i) gs in
      let p = get_bit (vol.disk (bmp g)) in
      let look = first_false-IsFirst p 0 (vol.blksize * 8) in
      elim (Bool-cases (free g == 0)) [
        | inl e ↦ rw (e) (skip-IsSearched i g gs _ (inl (ground arith)) ih)
        | inr e ↦ elim (Option-cases (first_false p 0 (vol.blksize * 8))) [
          | inl q ↦
              rw (e, q)
                (skip-IsSearched i g gs _ (inr (subst (IsFirst p 0 (0 + vol.blksize * 8)) q look))
                  ih)
          | inr (j, q) ↦
              rw (e, q)
                (
                  g,
                  Lowest.here i g gs j (λ z. ground arith)
                      (subst (IsFirst p 0 (0 + vol.blksize * 8)) q look),
                )
        ]
      ]

  -- The bitmaps are not in the block of the group descriptors.
  unfoldable pub AreElsewhere : List Group → Type 0
  AreElsewhere [] = Unit
  AreElsewhere (g ∷ gs) = (bmp g ≢ bgds_blk) × AreElsewhere gs

  Lowest-group :
      (i : ℕ) (gs : List Group) (n : ℕ) (g : Group) (j : ℕ)
      → Lowest i gs n g j
      → (i ≤ n) × (get_or gs (n - i) no_group ≡ g)
  Lowest-group _ _ _ _ _ (Lowest.here i g gs j f h) =
      let z : i - i ≡ 0 = omega arith in (omega arith, ap (λ k. get_or (g ∷ gs) k no_group) z)
  Lowest-group _ _ _ _ _ (Lowest.later i g gs n h j f l) =
      let (a, b) = Lowest-group (suc i) gs n h j l in
      let z : n - i ≡ suc (n - suc i) = omega arith in
      (omega arith, ap (λ k. get_or (g ∷ gs) k no_group) z ∙ b)

  Lowest-inside :
      (i : ℕ) (gs : List Group) (n : ℕ) (g : Group) (j : ℕ)
      → Lowest i gs n g j
      → AreElsewhere gs
      → (bmp g ≢ bgds_blk) × (j < vol.blksize * 8)
  unfolding AreElsewhere IsFirst
  Lowest-inside _ _ _ _ _ (Lowest.here i g gs j f (a, b, c, h)) (e, es) = (e, omega arith)
  Lowest-inside _ _ _ _ _ (Lowest.later i g gs n h j f l) (e, es) =
      Lowest-inside (suc i) gs n h j l es

  -- What an allocation does, with the number that it returns and the volume that it leaves. `use_one`
  -- lowers the count of a group.
  pub data Allocates (use_one : Group → Group) (per_grp : ℕ) : ℕ → Volume → Type 0 where
    takes :
        (n : ℕ) (g : Group) (j : ℕ) (vol' : Volume)
        → Lowest 0 vol.groups n g j
        → ((k : ℕ) → get_bit (vol'.disk (bmp g)) k ≡ ((j == k) || get_bit (vol.disk (bmp g)) k))
        → ((b : ℕ) → bmp g ≢ b → bgds_blk ≢ b → vol'.disk b ≡ vol.disk b)
        → vol'.groups ≡ set vol.groups n (use_one g)
        → vol'.disk bgds_blk ≡ splice (vol.disk bgds_blk) 0 (groups_bytes vol'.groups)
        → Allocates use_one per_grp ((n * per_grp + j + 1) % 2 ^ 32) vol'
    out : AreFull vol.groups → Allocates use_one per_grp 0 vol

  taken :
      (use_one : Group → Group) (per_grp n j : ℕ) (g : Group)
      → IsDisk vol
      → AreElsewhere vol.groups
      → Lowest 0 vol.groups n g j
      → Allocates use_one per_grp
          ((n * per_grp + j + 1) % 2 ^ 32)
          (take_bit free bmp use_one per_grp vol (some (n, j))).1
  unfolding take_bit rewrite_bgds write_block IsDisk
  taken use_one per_grp n j g bytes apart l =
      let z : n - 0 ≡ n = omega arith in
      let q : get_or vol.groups n no_group ≡ g =
        ap (λ k. get_or vol.groups k no_group) (sym z) ∙ (Lowest-group 0 vol.groups n g j l).1 in
      let (ne, inside) = Lowest-inside 0 vol.groups n g j l apart in
      let (by, len) = bytes (bmp g) in
      rw (q) (
        Allocates.takes n g j _ l
          (λ k.
            ap (λ b. get_bit b k)
              (put_ne _ bgds_blk (bmp g) _ (λ e. ne (sym e)) ∙ put_self vol.disk (bmp g) _)
            ∙ get_bit-set_bit (vol.disk (bmp g)) j by (omega arith) k)
          (λ b a c. put_ne _ bgds_blk b _ c ∙ put_ne vol.disk (bmp g) b _ a) refl
          (put_self _ bgds_blk _
            ∙ ap (λ old. splice old 0 (groups_bytes (set vol.groups n (use_one g))))
                (put_ne vol.disk (bmp g) bgds_blk _ ne)))

  take_bit-Allocates :
      (use_one : Group → Group) (per_grp : ℕ) (r : Option (ℕ × ℕ))
      → IsDisk vol
      → AreElsewhere vol.groups
      → IsSearched 0 vol.groups r
      → Allocates use_one per_grp
          (take_bit free bmp use_one per_grp vol r).0
          (take_bit free bmp use_one per_grp vol r).1
  unfolding IsSearched take_bit
  take_bit-Allocates use_one per_grp none bytes apart s = Allocates.out s
  take_bit-Allocates use_one per_grp (some (n, j)) bytes apart (g, l) =
      taken use_one per_grp n j g bytes apart l

-- `ext2_alloc_blk` does the same with the bitmaps of blocks; the number that it returns is that of the bit
-- plus 1.
pub alloc_blk-Allocates :
    (vol : Volume)
    → IsDisk vol
    → AreElsewhere (λ g. g.free_blocks) (λ g. g.block_bmp) vol vol.groups
    → Allocates
        (λ g. g.free_blocks)
        (λ g. g.block_bmp)
        vol
        (λ g. record g { free_blocks = g.free_blocks - 1 })
        vol.blks_per_grp
        (alloc_blk vol).0
        (alloc_blk vol).1
unfolding alloc_blk use_block
alloc_blk-Allocates vol bytes apart =
    take_bit-Allocates (λ g. g.free_blocks) (λ g. g.block_bmp) vol use_block vol.blks_per_grp _
      bytes apart (search-IsSearched (λ g. g.free_blocks) (λ g. g.block_bmp) vol 0 vol.groups)
