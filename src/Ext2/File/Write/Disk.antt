-- ===== src/Ext2/File/Write/Disk.antt =====
-- `ext2_write` of kernel/dev/ext2/ext2.c on the disk.
use native.Mathlib.Nat.{div-add-mod, mod-lt}
use micro.Prelude.{
  ℕ, zero, suc, ◌+◌, ◌-◌, ◌*◌, ◌/◌, ◌%◌, ◌^◌, ◌≤◌, ◌<◌, ◌≡◌, ◌≢◌, refl, sym, ap, subst, ◌∙◌, ◌++◌,
  ◌==◌, ltb, min, length, take, drop, arith, length-take, put, put_self, put_ne, false, Bool-cases,
  inl, inr, add_size,
}
use micro.Bitmap.{Bytes}
use micro.Ext2.{Volume, Disk, read_inode, write_block}
use micro.Ext2.Map.{inode_blk}
use micro.Ext2.Codec.{slice, splice, slice-splice}
use micro.Ext2.File.{
  write_start, write_size, write_chunk, write_loop, write_bytes, ext2_write, ext2_read,
}
use micro.Ext2.File.Contents.{contents, length-contents, contents_same, contents-append}
use micro.Ext2.File.Blocks.{write_blocks, write_round, write_blocks_below, write_blocks_above}
use micro.Ext2.File.Read.{quotient_le, file_bytes, IsSized, ext2_read-take}
use micro.Ext2.File.Write.{write_contents}
use micro.Ext2.Codec.Splice.{splice_inside, length-splice}

module _ (bs s m e d : ℕ) (buf : Bytes) (starts : m ≤ bs) where
  chunk_within : (i : ℕ) → write_start bs s m e d buf i + write_size bs s m e d buf i ≤ bs
  unfolding write_start write_size
  chunk_within i = elim (Bool-cases (i == s)) [
    | inl a ↦ elim (Bool-cases (i == e)) [
      | inl b ↦ rw (a, b) (omega arith)
      | inr b ↦ rw (a, b) (omega arith)
    ]
    | inr a ↦ elim (Bool-cases (i == e)) [
      | inl b ↦ rw (a, b) (omega arith)
      | inr b ↦ rw (a, b) (omega arith)
    ]
  ]

  slice_within :
      (i p : ℕ) → length (slice buf p (write_size bs s m e d buf i)) ≤ write_size bs s m e d buf i
  unfolding slice
  slice_within i p =
      let w = write_size bs s m e d buf i in omega (arith, length-take w (drop p buf))

  -- A round keeps the size of its block.
  length-write_chunk :
      (i p : ℕ) (b : Bytes) → length b ≡ bs → length (write_chunk bs s m e d buf i p b) ≡ length b
  unfolding write_chunk
  length-write_chunk i p b h =
      length-splice b (slice buf p (write_size bs s m e d buf i)) (write_start bs s m e d buf i)
        (omega (arith, chunk_within i, slice_within i p))

-- The volume with other blocks on its disk.
unfoldable pub on : Volume → Disk → Volume
on vol d = record vol { disk = d }

-- The disk has what it had outside of the blocks that `f` numbers.
unfoldable pub IsOutside : (f : ℕ → ℕ) (k : ℕ) → Disk → Disk → Type 0
IsOutside f k d d' = (b : ℕ) → ((j : ℕ) → j < k → f j ≢ b) → d' b ≡ d b

-- The first `k` blocks of a file are those that `f` numbers, they differ pairwise, and neither the inode nor the
-- map of the blocks lies in them.
pub record IsMapped (vol : Volume) (num k : ℕ) (f : ℕ → ℕ) : Type 0 where
  pub apart : (i j : ℕ) → i < k → j < k → f i ≡ f j → i ≡ j
  pub inode_kept :
      (d : Disk) → IsOutside f k vol.disk d → read_inode (on vol d) num ≡ read_inode vol num
  pub map_kept :
      (d : Disk) (i : ℕ)
      → IsOutside f k vol.disk d
      → i < k
      → inode_blk (on vol d) (read_inode vol num) i ≡ f i

module _ (vol : Volume) (num k : ℕ) (f : ℕ → ℕ) (mapped : IsMapped vol num k f) (s m e de : ℕ)
    (buf : Bytes) (starts : m ≤ vol.blksize) where
  -- The disk `d` holds the blocks of the file.
  record IsState (block : ℕ → Bytes) (d : Disk) : Type 0 where
    holds : (j : ℕ) → j < k → d (f j) ≡ block j
    outside : IsOutside f k vol.disk d
    sizes : (b : ℕ) → length (d b) ≡ vol.blksize

  round_disk : Disk → (i p : ℕ) → Disk
  round_disk d i p = put d (f i) (write_chunk vol.blksize s m e de buf i p (d (f i)))

  round-IsState :
      (block : ℕ → Bytes) (d : Disk) (i p : ℕ)
      → i < k
      → IsState block d
      → IsState (write_round vol.blksize s m e de buf block i p) (round_disk d i p)
  unfolding write_round round_disk IsOutside
  round-IsState block d i p h st = record {
    holds = λ j l. elim (Bool-cases (i == j)) [
      | inl q ↦
          let same : i ≡ j = ground arith in
          subst
            (λ n.
              put d (f i) chunk (f n)
              ≡ put block i (write_chunk vol.blksize s m e de buf i p (block i)) n)
            same
            (put_self d (f i) chunk
              ∙ ap (write_chunk vol.blksize s m e de buf i p) (st.holds i h)
              ∙ sym (put_self block i (write_chunk vol.blksize s m e de buf i p (block i))))
      | inr q ↦
          let ne : i ≢ j = λ n. ground arith in
          put_ne d (f i) (f j) chunk (λ n. ne (mapped.apart i j h l n))
          ∙ st.holds j l
          ∙ sym (put_ne block i j (write_chunk vol.blksize s m e de buf i p (block i)) ne)
    ];
    outside = λ b o. put_ne d (f i) b chunk (o i h) ∙ st.outside b o;
    sizes = λ b. elim (Bool-cases (f i == b)) [
      | inl q ↦
          let same : f i ≡ b = ground arith in
          subst (λ n. length (put d (f i) chunk n) ≡ vol.blksize) same
            (ap length (put_self d (f i) chunk)
              ∙ length-write_chunk vol.blksize s m e de buf starts i p (d (f i)) (st.sizes (f i))
              ∙ st.sizes (f i))
      | inr q ↦ ap length (put_ne d (f i) b chunk (λ n. ground arith)) ∙ st.sizes b
    ];
  }
    where
      chunk : Bytes
      chunk = write_chunk vol.blksize s m e de buf i p (d (f i))

  written :
      (d : Disk) (i p n : ℕ)
      → write_block (on vol d) n (write_chunk vol.blksize s m e de buf i p (d n))
        ≡ on vol (put d n (write_chunk vol.blksize s m e de buf i p (d n)))
  unfolding write_block on
  written d i p n = refl

  round_written :
      (d : Disk) (i p : ℕ)
      → inode_blk (on vol d) (read_inode vol num) i ≡ f i
      → write_block (on vol d) (inode_blk (on vol d) (read_inode vol num) i) (
          write_chunk vol.blksize s m e de buf i p
            (d (inode_blk (on vol d) (read_inode vol num) i)))
        ≡ on vol (round_disk d i p)
  unfolding round_disk
  round_written d i p q =
      written d i p (inode_blk (on vol d) (read_inode vol num) i)
      ∙ ap (λ n. on vol (put d n (write_chunk vol.blksize s m e de buf i p (d n)))) q

  -- What the loop leaves: the volume with another disk, which holds the blocks that the loop on places leaves.
  Leaves : (ℕ → Bytes) → Volume → Type 0
  Leaves block vol' = (d : Disk) × (vol' ≡ on vol d) × IsState block d

  write_loop-Leaves :
      (cnt : ℕ) (block : ℕ → Bytes) (d : Disk) (i p : ℕ)
      → i + cnt ≤ k
      → IsState block d
      → Leaves
          (write_blocks vol.blksize s m e de buf block i cnt p)
          (write_loop vol.blksize s m e de buf (on vol d) (read_inode vol num) i cnt p)
  unfolding Leaves write_blocks write_loop on
  write_loop-Leaves zero block d i p h st = (d, refl, st)
  write_loop-Leaves (suc cnt) block d i p h st =
      let step =
        write_loop-Leaves cnt (write_round vol.blksize s m e de buf block i p) (round_disk d i p)
          (suc i) (p + write_size vol.blksize s m e de buf i) (omega arith)
          (round-IsState block d i p (omega arith) st) in
      subst
        (λ v.
          Leaves
            (write_blocks vol.blksize s m e de buf (write_round vol.blksize s m e de buf block i p)
              (suc i) cnt (p + write_size vol.blksize s m e de buf i))
            (write_loop vol.blksize s m e de buf v (read_inode vol num) (suc i) cnt
              (p + write_size vol.blksize s m e de buf i)))
        (sym (round_written d i p (mapped.map_kept d i st.outside (omega arith)))) step

-- All the blocks of a file, for a write that ends in the first `k`.
whole_contents :
    (bs s m e d k : ℕ) (buf : Bytes) (left : ℕ) (block : ℕ → Bytes)
    → d ≤ bs
    → m < bs
    → ((j : ℕ) → length (block j) ≡ bs)
    → s + left ≡ e
    → e < k
    → m + length buf ≡ bs * left + d
    → contents (write_blocks bs s m e d buf block s (suc left) 0) 0 k
      ≡ splice (contents block 0 k) (bs * s + m) buf
whole_contents bs s m e d k buf left block inside l sizes b h n =
    let w = write_blocks bs s m e d buf block s (suc left) 0 in
    let rest = k - suc e in
    let z : k ≡ s + (suc left + rest) = omega arith in
    let z' : 0 + s ≡ s = omega arith in
    let (a, mid, back) : Bytes × Bytes × Bytes =
      (contents block 0 s, contents block s (suc left), contents block (s + suc left) rest) in
    let split : (g : ℕ → Bytes)
        → contents g 0 k
          ≡ contents g 0 s ++ (contents g s (suc left) ++ contents g (s + suc left) rest) =
      λ g.
        ap (contents g 0) z
        ∙ contents-append g 0 s (suc left + rest)
        ∙ ap (λ j. contents g 0 s ++ contents g j (suc left + rest)) z'
        ∙ ap (contents g 0 s ++◌) (contents-append g s (suc left) rest) in
    let len : length a ≡ bs * s = length-contents block bs sizes 0 s in
    let fits : m + length buf ≤ length mid =
      omega (arith, length-contents block bs sizes s (suc left)) in
    split w
    ∙ ap (λ c. c ++ (contents w s (suc left) ++ contents w (s + suc left) rest))
        (contents_same w block 0 s
          (λ j x y. write_blocks_below bs s m e d buf block s (suc left) 0 j (omega arith)))
    ∙ ap (λ c. a ++ (contents w s (suc left) ++ c))
        (contents_same w block (s + suc left) rest
          (λ j x y. write_blocks_above bs s m e d buf block s (suc left) 0 j x))
    ∙ ap (λ c. a ++ (c ++ back)) (write_contents bs s m e d buf left block inside l sizes b n)
    ∙ sym (splice_inside a mid back buf m fits)
    ∙ ap (λ j. splice (a ++ (mid ++ back)) (j + m) buf) len
    ∙ ap (λ c. splice c (bs * s + m) buf) (sym (split block))

module _ (vol : Volume) (num off k : ℕ) (f : ℕ → ℕ) (buf : Bytes) (sized : IsSized vol)
    (mapped : IsMapped vol num k f) (reach : (length buf + off) / vol.blksize < k)
    (words : k < 2 ^ 32) where
  -- What `ext2_write` leaves of a file that it does not resize.
  unfoldable pub Written : Volume → Type 0
  Written vol' =
      IsSized vol'
      × (vol'.blksize ≡ vol.blksize)
      × IsOutside f k vol.disk vol'.disk
      × (file_bytes vol' num k ≡ splice (file_bytes vol num k) off buf)

  file_blocks :
      (d : Disk)
      → IsOutside f k vol.disk d
      → file_bytes (on vol d) num k ≡ contents (λ i. d (f i)) 0 k
  unfolding file_bytes on
  file_blocks d o =
      ap (λ ino. contents (λ i. d (inode_blk (on vol d) ino i)) 0 k) (mapped.inode_kept d o)
      ∙ contents_same _ (λ i. d (f i)) 0 k (λ i x y. ap d (mapped.map_kept d i o (omega arith)))

  -- The loop with the numbers that the code computes, as variables.
  loop-Written :
      (s m e d : ℕ)
      → vol.blksize * s + m ≡ off
      → vol.blksize * e + d ≡ length buf + off
      → m < vol.blksize
      → d < vol.blksize
      → e < k
      → Written (write_loop vol.blksize s m e d buf vol (read_inode vol num) s (e + 1 - s) 0)
  unfolding Written IsSized IsOutside on Leaves
  loop-Written s m e d o o' lm ld h =
      let bs = vol.blksize in
      let block : ℕ → Bytes = λ i. vol.disk (f i) in
      let le = quotient_le bs s m e d (omega arith) ld in
      let z : e + 1 - s ≡ suc (e - s) = omega arith in
      let z' : s + (e - s) ≡ e = omega arith in
      let z2 : bs * (s + (e - s)) ≡ bs * e = ap (λ n. bs * n) z' in
      let (d', v, st) =
        write_loop-Leaves vol num k f mapped s m e d buf (omega arith) (suc (e - s)) block vol.disk
          s 0 (omega arith)
          (record { holds = λ j l. refl; outside = λ b q. refl; sizes = sized.1 }) in
      subst (λ c. Written (write_loop bs s m e d buf vol (read_inode vol num) s c 0)) (sym z)
        (subst Written (sym v) (
          (sized.0, st.sizes),
          refl,
          st.outside,
          file_blocks d' st.outside
              ∙ contents_same (λ i. d' (f i)) (write_blocks bs s m e d buf block s (suc (e - s)) 0)
                  0 k (λ j x y. st.holds j (omega arith))
              ∙ whole_contents bs s m e d k buf (e - s) block (omega arith) lm (λ j. sized.1 (f j))
                  z' h (omega arith)
              ∙ ap (λ n. splice (contents block 0 k) n buf) o
              ∙ ap (λ c. splice c off buf) (sym (file_blocks vol.disk (λ b q. refl))),
        ))

  pub write_bytes-Written : Written (write_bytes vol num off buf)
  unfolding write_bytes IsSized
  write_bytes-Written =
      let b = vol.blksize in
      let (s, e) : ℕ × ℕ = (off / b, (length buf + off) / b) in
      let o = div-add-mod off b in
      let o' = div-add-mod (length buf + off) b in
      let le =
        quotient_le b s (off % b) e ((length buf + off) % b) (omega (arith, o, o'))
          (mod-lt (length buf + off) sized.0) in
      let ws : s % 2 ^ 32 ≡ s = omega arith in
      let we : e % 2 ^ 32 ≡ e = omega arith in
      rw (ws, we)
        (loop-Written s (off % b) e ((length buf + off) % b) o o' (mod-lt off sized.0)
          (mod-lt (length buf + off) sized.0) reach)

  -- A write that stays within the size of the file returns the number of its bytes, keeps the size, and puts the
  -- bytes at their offset into the first `k` blocks of the file and nowhere else on the disk; these blocks reach to
  -- the end of the write, differ pairwise and hold neither the inode nor the map of the blocks.
  pub ext2_write-Written :
      (file_size : ℕ)
      → off + length buf ≤ file_size
      → file_size < 2 ^ 64
      → ((ext2_write vol num file_size off buf).0 ≡ length buf)
        × ((ext2_write vol num file_size off buf).2 ≡ file_size)
        × Written (ext2_write vol num file_size off buf).1
  unfolding ext2_write
  ext2_write-Written file_size h small =
      let w : add_size off (length buf) ≡ off + length buf = omega arith in
      let e : ltb file_size (off + length buf) ≡ false = ground arith in
      rw (w, e) (refl, refl, write_bytes-Written)

  room : off ≤ length (file_bytes vol num k)
  unfolding file_bytes IsSized
  room =
      let b = vol.blksize in
      let e = (length buf + off) / b in
      let z : k ≡ suc e + (k - suc e) = omega (arith, reach) in
      let z' : b * k ≡ b * (suc e + (k - suc e)) = ap (λ n. b * n) z in
      omega (
        arith,
        z',
        div-add-mod (length buf + off) b,
        mod-lt (length buf + off) sized.0,
        length-contents (λ i. vol.disk (inode_blk vol (read_inode vol num) i)) b
            (λ i. sized.1 (inode_blk vol (read_inode vol num) i)) 0 k,
      )

  -- Under the same conditions, `ext2_read` at that offset returns the bytes that `ext2_write` wrote.
  pub ext2_write-ext2_read :
      (file_size : ℕ)
      → off + length buf ≤ file_size
      → file_size < 2 ^ 64
      → let vol' = (ext2_write vol num file_size off buf).1 in
        ext2_read vol' num file_size off (length buf) ≡ (length buf, buf)
  unfolding slice Written
  ext2_write-ext2_read file_size h small =
      let vol' = (ext2_write vol num file_size off buf).1 in
      let (n, size, (sized', same, out, bytes)) = ext2_write-Written file_size h small in
      let z : min (length buf) (file_size - off) ≡ length buf = omega arith in
      let reach' : (min (length buf) (file_size - off) + off) / vol'.blksize < k =
        subst (λ n. (n + off) / vol'.blksize < k) (sym z)
          (subst (λ b. (length buf + off) / b < k) (sym same) reach) in
      ext2_read-take vol' num off sized' file_size (length buf) k (omega arith) reach' words
      ∙ ap (λ n. (n, take n (drop off (file_bytes vol' num k)))) z
      ∙ ap (λ c. (length buf, take (length buf) (drop off c))) bytes
      ∙ ap (λ c. (length buf, c)) (slice-splice (file_bytes vol num k) buf off room)
