-- ===== src/Ext2/Map/Words.antt =====
-- The blocks of a file that `ext2_set_inode_blk` of kernel/dev/ext2/ext2.c sets.
use micro.Prelude.{
  ℕ, ◌+◌, ◌-◌, ◌*◌, ◌/◌, ◌^◌, ◌≤◌, ◌<◌, ◌≡◌, ◌≢◌, refl, sym, ap, ◌∙◌, ◌⊎◌, inl, inr, true, false,
  Bool-cases, List, get_or, set, get_or-set_self, get_or-set_ne, length, put_self, if◌then◌else◌,
  ltb, ◌==◌, arith,
}
use micro.Bitmap.{Bytes}
use micro.Ext2.Codec.{
  splice, slice, slice-splice, slice-splice_ne, le_number, le_bytes, Fits, le_number-le_bytes,
  length-le_bytes,
}
use micro.Ext2.{Inode, Volume, write_block}
use micro.Ext2.Map.{get_word, set_word, bpp, dind, inode_blk, set_inode_blk}

-- An array of words.
get_word-set_word :
    (buf : Bytes) (k j v : ℕ)
    → 4 * k + 4 ≤ length buf
    → v < 2 ^ 32
    → get_word (set_word buf k v) j ≡ (if k == j then v else get_word buf j)
unfolding get_word set_word Fits
get_word-set_word buf k j v room small =
    let l = length-le_bytes 4 v in
    elim (Bool-cases (k == j)) [
      | inl e ↦
          let q : 4 * j ≡ 4 * k = ground arith in
          let same = slice-splice buf (le_bytes 4 v) (4 * k) (omega arith) in
          rw (e) (
            ap (λ n. le_number (slice (splice buf (4 * k) (le_bytes 4 v)) n 4)) q
            ∙ ap (λ n. le_number (slice (splice buf (4 * k) (le_bytes 4 v)) (4 * k) n)) (sym l)
            ∙ ap le_number same
            ∙ le_number-le_bytes 4 v (omega arith))
      | inr e ↦ rw (e) (
          ap le_number (
            slice-splice_ne buf (le_bytes 4 v) (4 * k) (4 * j) 4 (omega arith)
              (apart (λ q. ground arith))))
    ]
  where
    apart : k ≢ j → (4 * j + 4 ≤ 4 * k) ⊎ (4 * k + length (le_bytes 4 v) ≤ 4 * j)
    apart ne =
        let l = length-le_bytes 4 v in
        elim (Bool-cases (ltb j k)) [ inl e ↦ inl (ground arith) | inr e ↦ inr (ground arith) ]

get_or-set :
    (xs : List ℕ) (i k v : ℕ)
    → i < length xs
    → get_or (set xs i v) k 0 ≡ (if i == k then v else get_or xs k 0)
get_or-set xs i k v h = elim (Bool-cases (i == k)) [
  | inl e ↦
      let q : k ≡ i = ground arith in
      rw (e) (ap (λ n. get_or (set xs i v) n 0) q ∙ get_or-set_self xs i v 0 h)
  | inr e ↦ rw (e) (get_or-set_ne xs i k v 0 (λ q. ground arith))
]

module _ (vol : Volume) (ino : Inode) (i k blk : ℕ) (mapped : i < dind vol) (asked : k < dind vol)
    (arrays : length ino.blocks ≡ 15) where
  direct :
      i < 12
      → inode_blk (set_inode_blk vol ino i blk).0 (set_inode_blk vol ino i blk).1 k
        ≡ (if i == k then blk else inode_blk vol ino k)
  unfolding inode_blk set_inode_blk dind
  direct h =
      let f : ltb i 12 ≡ true = ground arith in
      let a : ltb k (12 + bpp vol) ≡ true = ground arith in
      elim (Bool-cases (ltb k 12)) [
        | inl e ↦ rw (f, e) (get_or-set ino.blocks i k blk (omega arith))
        | inr e ↦
            let ne : (i == k) ≡ false = ground arith in
            rw (f, e, a, ne)
              (ap (λ b. get_word (vol.disk b) (k - 12))
                (get_or-set_ne ino.blocks i 12 blk 0 (λ q. ground arith)))
      ]

  indirect :
      12 ≤ i
      → length (vol.disk (get_or ino.blocks 12 0)) ≡ vol.blksize
      → blk < 2 ^ 32
      → inode_blk (set_inode_blk vol ino i blk).0 (set_inode_blk vol ino i blk).1 k
        ≡ (if i == k then blk else inode_blk vol ino k)
  unfolding inode_blk set_inode_blk dind bpp write_block
  indirect h len small =
      let f : ltb i 12 ≡ false = ground arith in
      let g : ltb i (12 + vol.blksize / 4) ≡ true = ground arith in
      let a : ltb k (12 + vol.blksize / 4) ≡ true = ground arith in
      let ind = get_or ino.blocks 12 0 in
      elim (Bool-cases (ltb k 12)) [
        | inl e ↦ let ne : (i == k) ≡ false = ground arith in rw (f, g, e, ne) refl
        | inr e ↦
            let room : 4 * (i - 12) + 4 ≤ length (vol.disk ind) = omega arith in
            let q : (i - 12 == k - 12) ≡ (i == k) = same_test e in
            rw (f, g, e, a)
              (ap (λ b. get_word b (k - 12))
                  (put_self vol.disk ind (set_word (vol.disk ind) (i - 12) blk))
                ∙ get_word-set_word (vol.disk ind) (i - 12) (k - 12) blk room small
                ∙ ap (λ b. if b then blk else get_word (vol.disk ind) (k - 12)) q)
      ]
    where
      same_test : ltb k 12 ≡ false → (i - 12 == k - 12) ≡ (i == k)
      same_test e = elim (Bool-cases (i == k)) [ inl q ↦ ground arith | inr q ↦ ground arith ]

-- For the direct and the singly indirect blocks of a file, `ext2_inode_blk` finds the block that
-- `ext2_set_inode_blk` set, and for every other of them the block that it found before; the array of the
-- inode has 15 words, the pointer block has the volume's size, and the number of the block is of 32 bits.
pub inode_blk-set_inode_blk :
    (vol : Volume) (ino : Inode) (i k blk : ℕ)
    → i < dind vol
    → k < dind vol
    → length ino.blocks ≡ 15
    → length (vol.disk (get_or ino.blocks 12 0)) ≡ vol.blksize
    → blk < 2 ^ 32
    → inode_blk (set_inode_blk vol ino i blk).0 (set_inode_blk vol ino i blk).1 k
      ≡ (if i == k then blk else inode_blk vol ino k)
inode_blk-set_inode_blk vol ino i k blk a b n len small = elim (Bool-cases (ltb i 12)) [
  | inl e ↦ direct vol ino i k blk a b n (ground arith)
  | inr e ↦ indirect vol ino i k blk a b n (ground arith) len small
]
