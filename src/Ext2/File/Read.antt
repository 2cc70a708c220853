-- ===== src/Ext2/File/Read.antt =====
-- `ext2_read` of kernel/dev/ext2/ext2.c against the bytes of the file.
use native.Mathlib.Nat.{div-add-mod, mod-lt}
use micro.Prelude.{
  ℕ, zero, suc, ◌+◌, ◌-◌, ◌*◌, ◌/◌, ◌%◌, ◌^◌, ◌≤◌, ◌<◌, ◌≡◌, ◌≢◌, refl, sym, ap, subst, ◌∙◌, ◌++◌,
  if◌then◌else◌, ltb, ◌==◌, add_size, length, take, drop, drop-append, arith, append-nil, min,
  length-drop, true, false, Bool-cases, inl, inr,
}
use micro.Bitmap.{Bytes}
use micro.Ext2.Codec.{slice, take-append_more, take_all}
use micro.Ext2.{Volume, read_inode}
use micro.Ext2.Map.{inode_blk}
use micro.Ext2.File.{read_chunk, read_loop, read_bytes, ext2_read}
use micro.Ext2.File.Contents.{contents, run}

-- The bytes up to the end of the read, of the blocks from the current one on.
upto : (blksize modend left : ℕ) → ℕ
upto blksize modend zero = modend
upto blksize modend (suc left) = blksize + upto blksize modend left

module _ (block : ℕ → Bytes) (blksize s m e d size : ℕ)
    (sizes : (i : ℕ) → length (block i) ≡ blksize) (inside : d ≤ size) (ends : d ≤ blksize) where
  -- A block after the first.
  rest_chunk :
      (i : ℕ)
      → s < i
      → i ≤ e
      → (i ≢ e → read_chunk block blksize s m e d size i ≡ block i)
        × (i ≡ e → read_chunk block blksize s m e d size i ≡ take d (block i))
  unfolding read_chunk slice
  rest_chunk i a b =
      let f : (i == s) ≡ false = ground arith in
      (
        λ ne.
            (let g : (i == e) ≡ false = ground arith in
              rw (f, g) (take_all (block i) blksize (sizes i))),
        λ eq.
            (let g : (i == e) ≡ true = ground arith in
              let l : (if ltb d size then d else size) ≡ d = ground arith in rw (f, g, l) refl),
      )

  rest_loop :
      (i left : ℕ)
      → s < i
      → i + left ≡ e
      → read_loop block blksize s m e d size i left
        ≡ take (upto blksize d left) (contents block i (suc left))
  unfolding read_loop contents upto
  rest_loop i zero a b =
      (rest_chunk i a (omega arith)).1 (omega arith) ∙ sym (ap (take d) (append-nil (block i)))
  rest_loop i (suc left) a b =
      let u = upto blksize d left in
      let more = contents block (suc i) (suc left) in
      ap (λ c. c ++ read_loop block blksize s m e d size (suc i) left)
        ((rest_chunk i a (omega arith)).0 (λ q. omega arith))
      ∙ ap (block i ++◌) (rest_loop (suc i) left (omega arith) (omega arith))
      ∙ sym (take-append_more (block i) more u)
      ∙ ap (λ k. take (k + u) (block i ++ more)) (sizes i)

module _ (block : ℕ → Bytes) (blksize s m e d size : ℕ)
    (sizes : (i : ℕ) → length (block i) ≡ blksize) (starts : m < blksize) (ends : d ≤ blksize) where
  only_chunk :
      s ≡ e → m + size ≡ d → read_chunk block blksize s m e d size s ≡ take size (drop m (block s))
  unfolding read_chunk slice
  only_chunk a b =
      let f : (s == s) ≡ true = ground arith in
      let g : (s == e) ≡ true = ground arith in
      let l : (if ltb d size then d else size) ≡ size = ground arith in rw (f, g, l) refl

  first_chunk : s < e → read_chunk block blksize s m e d size s ≡ drop m (block s)
  unfolding read_chunk slice
  first_chunk a =
      let f : (s == s) ≡ true = ground arith in
      let g : (s == e) ≡ false = ground arith in
      rw (f, g)
        (take_all (drop m (block s)) (blksize - m)
          (omega (arith, length-drop m (block s), sizes s)))

  -- The whole loop, for a read of `size` bytes that ends with the last block's first `d` bytes.
  loop-take :
      (left : ℕ)
      → s + left ≡ e
      → m + size ≡ upto blksize d left
      → read_loop block blksize s m e d size s left
        ≡ take size (drop m (contents block s (suc left)))
  unfolding read_loop contents upto
  loop-take zero a b =
      only_chunk (omega arith) b ∙ ap (λ c. take size (drop m c)) (sym (append-nil (block s)))
  loop-take (suc left) a b =
      let u = upto blksize d left in
      let more = contents block (suc s) (suc left) in
      let over : d ≤ upto blksize d left = upto_most left in
      let n : length (drop m (block s)) + u ≡ size =
        omega (arith, length-drop m (block s), sizes s) in
      ap (λ c. c ++ read_loop block blksize s m e d size (suc s) left) (first_chunk (omega arith))
      ∙ ap (drop m (block s) ++◌) (
          rest_loop block blksize s m e d size sizes (omega arith) ends (suc s) left (omega arith)
            (omega arith))
      ∙ sym (take-append_more (drop m (block s)) more u)
      ∙ ap (λ k. take k (drop m (block s) ++ more)) n
      ∙ ap (take size) (sym (drop-append m (block s) more (omega (arith, sizes s))))
    where
      upto_most : (left : ℕ) → d ≤ upto blksize d left
      upto_most zero = omega arith
      upto_most (suc left) = omega (arith, upto_most left)

upto_sum : (blksize d left : ℕ) → upto blksize d left ≡ blksize * left + d
unfolding upto
upto_sum b d zero = omega arith
upto_sum b d (suc left) = omega (arith, upto_sum b d left)

pub quotient_le : (b s m e d : ℕ) → b * s + m ≤ b * e + d → d < b → s ≤ e
quotient_le b s m e d h l = elim (Bool-cases (ltb e s)) [
  | inl q ↦
      let z : s ≡ suc e + (s - suc e) = ground arith in
      let z' : b * s ≡ b * (suc e + (s - suc e)) = ap (λ n. b * n) z in omega arith
  | inr q ↦ ground arith
]

loop-run :
    (block : ℕ → Bytes) (b s m e d off size k : ℕ)
    → ((i : ℕ) → length (block i) ≡ b)
    → b * s + m ≡ off
    → b * e + d ≡ size + off
    → m < b
    → d < b
    → e < k
    → (s ≤ e)
      × (read_loop block b s m e d size s (e - s) ≡ take size (drop off (contents block 0 k)))
loop-run block b s m e d off size k sizes o o' lm ld h =
    let le = quotient_le b s m e d (omega arith) ld in
    let z : s + (e - s) ≡ e = omega arith in
    let z' : b * (s + (e - s)) ≡ b * e = ap (λ n. b * n) z in
    let sum : m + size ≡ upto b d (e - s) = omega (arith, upto_sum b d (e - s)) in
    let y : s + suc (e - s) + (k - suc e) ≡ k = omega arith in
    (
      le,
      loop-take block b s m e d size sizes lm (omega arith) (e - s) z sum
          ∙ run block b sizes s (suc (e - s)) m size (k - suc e) (omega arith)
          ∙ ap (λ n. take size (drop (b * s + m) (contents block 0 n))) y
          ∙ ap (λ n. take size (drop n (contents block 0 k))) o,
    )

-- the bytes of the file's first `k` blocks
unfoldable pub file_bytes : Volume → (num k : ℕ) → Bytes
file_bytes vol num k = contents (λ i. vol.disk (inode_blk vol (read_inode vol num) i)) 0 k

-- The blocks of the disk are of the volume's size, which is not 0.
unfoldable pub IsSized : Volume → Type 0
IsSized vol = (0 < vol.blksize) × ((b : ℕ) → length (vol.disk b) ≡ vol.blksize)

module _ (vol : Volume) (num off : ℕ) (sized : IsSized vol) where
  read_bytes-take :
      (size k : ℕ)
      → (size + off) / vol.blksize < k
      → k < 2 ^ 32
      → read_bytes vol num off size ≡ take size (drop off (file_bytes vol num k))
  unfolding read_bytes file_bytes IsSized
  read_bytes-take size k h top =
      let b = vol.blksize in
      let block : ℕ → Bytes = λ i. vol.disk (inode_blk vol (read_inode vol num) i) in
      let (s, m, e, d) : ℕ × ℕ × ℕ × ℕ = (off / b, off % b, (size + off) / b, (size + off) % b) in
      let o : b * s + m ≡ off = div-add-mod off b in
      let o' : b * e + d ≡ size + off = div-add-mod (size + off) b in
      let lm : m < b = mod-lt off sized.0 in
      let ld : d < b = mod-lt (size + off) sized.0 in
      let (le, loop) =
        loop-run block b s m e d off size k (λ i. sized.1 (inode_blk vol (read_inode vol num) i)) o
          o' lm ld h in
      let ws : s % 2 ^ 32 ≡ s = omega arith in
      let we : e % 2 ^ 32 ≡ e = omega arith in
      let f : ltb e s ≡ false = ground arith in rw (ws, we, f) loop

  -- `ext2_read` returns how many of the `size` bytes from `off` on the file has, and the buffer has just those
  -- bytes of the file, whose first `k` blocks reach to the end of the read; at the file's end and beyond it
  -- returns 0 and no bytes. The sizes do not wrap, and the blocks of the disk are of the volume's size.
  pub ext2_read-take :
      (file_size size k : ℕ)
      → off + size < 2 ^ 64
      → (min size (file_size - off) + off) / vol.blksize < k
      → k < 2 ^ 32
      → ext2_read vol num file_size off size ≡ (
        min size (file_size - off),
        take (min size (file_size - off)) (drop off (file_bytes vol num k)),
      )
  unfolding ext2_read
  ext2_read-take file_size size k w h top =
      let aw : add_size off size ≡ off + size = omega arith in
      elim (Bool-cases (ltb file_size off)) [
        | inl e ↦ let z : min size (file_size - off) ≡ 0 = ground arith in rw (e, z) refl
        | inr e ↦ elim (Bool-cases (ltb file_size (off + size))) [
          | inl f ↦
              let z : min size (file_size - off) ≡ file_size - off = ground arith in
              elim (Bool-cases (file_size - off == 0)) [
                | inl g ↦
                    let y : min size (file_size - off) ≡ 0 = ground arith in
                    rw (e, aw, f, g, y) refl
                | inr g ↦
                    rw (e, aw, f, g, z)
                      (ap (λ b. (file_size - off, b))
                        (read_bytes-take (file_size - off) k
                          (subst (λ n. (n + off) / vol.blksize < k) z h) top))
              ]
          | inr f ↦
              let z : min size (file_size - off) ≡ size = ground arith in
              rw (e, aw, f, z)
                (ap (λ b. (size, b))
                  (read_bytes-take size k (subst (λ n. (n + off) / vol.blksize < k) z h) top))
        ]
      ]
