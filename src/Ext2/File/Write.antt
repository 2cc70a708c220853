-- ===== src/Ext2/File/Write.antt =====
-- `ext2_write` of kernel/dev/ext2/ext2.c against the bytes of the file.
pub mod Disk
use native.Mathlib.Nat.{div-add-mod, mod-lt}
use micro.Prelude.{
  ℕ, zero, suc, ◌∷◌, ◌+◌, ◌-◌, ◌*◌, ◌≤◌, ◌<◌, ◌≡◌, ◌≢◌, refl, sym, ap, subst, ◌∙◌, [], ◌++◌,
  if◌then◌else◌, ◌==◌, length, take, drop, drop-append, drop-drop, arith, append-nil, append_assoc,
  length-append, length-drop, length-take, take-append-drop, put, put_ne,
}
use micro.Bitmap.{Bytes}
use micro.Ext2.Codec.Splice.{drop_over}
use micro.Ext2.Codec.{
  slice, splice, take-append_more, take-append_less, take_all, take-length, drop-length,
}
use micro.Ext2.File.{write_start, write_size, write_chunk}
use micro.Ext2.File.Contents.{contents, length-contents, contents_same, contents-append}
use micro.Ext2.File.Blocks.{
  write_blocks, write_round, write_blocks_below, write_blocks_above, write_blocks_first, chunk_last,
  chunk_whole, chunk_only, chunk_first,
}

module _ (bs s m e d : ℕ) (buf : Bytes) (block : ℕ → Bytes) where
  -- A block and those after it, one round of the loop on.
  first_and_rest :
      (i cnt p : ℕ) (front rest : Bytes) (w : ℕ)
      → write_chunk bs s m e d buf i p (block i) ≡ front
      → write_size bs s m e d buf i ≡ w
      → contents
          (write_blocks bs s m e d buf (write_round bs s m e d buf block i p) (suc i) cnt (p + w))
          (suc i)
          cnt
        ≡ rest
      → contents (write_blocks bs s m e d buf block i (suc cnt) p) i (suc cnt) ≡ front ++ rest
  unfolding contents write_blocks
  first_and_rest i cnt p front rest w f g h =
      ap (λ b. b ++ contents (write_blocks bs s m e d buf block i (suc cnt) p) (suc i) cnt)
        (write_blocks_first bs s m e d buf block i cnt p ∙ f)
      ∙ ap (front ++◌) (
          ap
            (λ k.
              contents
                (write_blocks bs s m e d buf (write_round bs s m e d buf block i p) (suc i) cnt
                  (p + k))
                (suc i) cnt)
            g
          ∙ h)

no_contents :
    (bs s m e d : ℕ) (buf : Bytes) (block : ℕ → Bytes) (i p : ℕ)
    → contents (write_blocks bs s m e d buf block i 0 p) i 0 ≡ []
unfolding contents
no_contents bs s m e d buf block i p = refl

contents-suc :
    (block : ℕ → Bytes) (i n : ℕ) → contents block i (suc n) ≡ block i ++ contents block (suc i) n
unfolding contents
contents-suc block i n = refl

contents_one : (block : ℕ → Bytes) (i : ℕ) → contents block i 1 ≡ block i ++ []
unfolding contents
contents_one block i = refl

round_ne :
    (bs s m e d : ℕ) (buf : Bytes) (block : ℕ → Bytes) (i p j : ℕ)
    → i < j
    → write_round bs s m e d buf block i p j ≡ block j
unfolding write_round
round_ne bs s m e d buf block i p j h = put_ne block i j _ (λ q. omega arith)

-- The blocks after the first one of a write.
rest_contents :
    (bs s m e d : ℕ) (buf : Bytes) (left : ℕ) (block : ℕ → Bytes) (i p : ℕ)
    → d ≤ bs
    → ((j : ℕ) → i ≤ j → length (block j) ≡ bs)
    → s < i
    → i + left ≡ e
    → length buf ≡ p + (bs * left + d)
    → contents (write_blocks bs s m e d buf block i (suc left) p) i (suc left)
      ≡ drop p buf ++ drop (bs * left + d) (contents block i (suc left))
rest_contents bs s m e d buf zero block i p inside sizes a b n =
    let z : d ≡ bs * 0 + d = omega arith in
    first_and_rest bs s m e d buf block i 0 p (drop p buf ++ drop d (block i)) []
      (write_size bs s m e d buf i)
      (chunk_last bs s m e d buf inside i p (block i) a (omega arith) (omega arith)) refl
      (no_contents bs s m e d buf _ (suc i) _)
    ∙ append_assoc (drop p buf) (drop d (block i)) []
    ∙ ap (λ b. drop p buf ++ b)
        (sym (drop-append d (block i) [] (omega (arith, sizes i (omega arith)))))
    ∙ ap (λ c. drop p buf ++ drop d c) (sym (contents_one block i))
    ∙ ap (λ k. drop p buf ++ drop k (contents block i 1)) z
rest_contents bs s m e d buf (suc left) block i p inside sizes a b n =
    let more = contents block (suc i) (suc left) in
    let r = bs * left + d in
    let (whole, w) =
      chunk_whole bs s m e d buf inside i p (block i) a (omega arith) (omega arith)
        (sizes i (omega arith)) in
    let block' = write_round bs s m e d buf block i p in
    let same : (j : ℕ) → suc i ≤ j → block' j ≡ block j =
      λ j h. round_ne bs s m e d buf block i p j (omega arith) in
    let ih =
      rest_contents bs s m e d buf left block' (suc i) (p + bs) inside
        (λ j h. ap length (same j h) ∙ sizes j (omega arith)) (omega arith) (omega arith)
        (omega arith) in
    let ih' : contents (write_blocks bs s m e d buf block' (suc i) (suc left) (p + bs)) (suc i)
          (suc left)
        ≡ drop (p + bs) buf ++ drop r more =
      ih
      ∙ ap (λ c. drop (p + bs) buf ++ drop r c)
          (contents_same block' block (suc i) (suc left) (λ j h k. same j h)) in
    let z : length (block i) + r ≡ bs * suc left + d = omega (arith, sizes i (omega arith)) in
    first_and_rest bs s m e d buf block i (suc left) p (take bs (drop p buf))
      (drop (p + bs) buf ++ drop r more) bs whole w ih'
    ∙ sym (append_assoc (take bs (drop p buf)) (drop (p + bs) buf) (drop r more))
    ∙ ap (λ b. (take bs (drop p buf) ++ b) ++ drop r more) (sym (drop-drop bs p buf))
    ∙ ap (λ b. b ++ drop r more) (take-append-drop bs (drop p buf))
    ∙ ap (drop p buf ++◌) (sym (drop_over (block i) more r))
    ∙ ap (λ k. drop p buf ++ drop k (block i ++ more)) z
    ∙ ap (λ c. drop p buf ++ drop (bs * suc left + d) c) (sym (contents-suc block i (suc left)))

-- The blocks that a write touches, for a write of `buf` from the byte `m` of the first.
pub write_contents :
    (bs s m e d : ℕ) (buf : Bytes) (left : ℕ) (block : ℕ → Bytes)
    → d ≤ bs
    → m < bs
    → ((j : ℕ) → length (block j) ≡ bs)
    → s + left ≡ e
    → m + length buf ≡ bs * left + d
    → contents (write_blocks bs s m e d buf block s (suc left) 0) s (suc left)
      ≡ splice (contents block s (suc left)) m buf
unfolding splice
write_contents bs s m e d buf zero block inside l sizes b n =
    first_and_rest bs s m e d buf block s 0 0 (splice (block s) m buf) []
      (write_size bs s m e d buf s)
      (chunk_only bs s m e d buf (block s) (omega arith) (omega arith) inside) refl
      (no_contents bs s m e d buf _ (suc s) _)
    ∙ append-nil (splice (block s) m buf)
    ∙ ap (λ b. splice b m buf) (sym (append-nil (block s)) ∙ sym (contents_one block s))
write_contents bs s m e d buf (suc left) block inside l sizes b n =
    let more = contents block (suc s) (suc left) in
    let r = bs * left + d in
    let q = bs - m in
    let (first, w) =
      chunk_first bs s m e d buf (block s) (omega arith) (omega arith) (omega arith) (sizes s) in
    let block' = write_round bs s m e d buf block s 0 in
    let same : (j : ℕ) → suc s ≤ j → block' j ≡ block j =
      λ j h. round_ne bs s m e d buf block s 0 j (omega arith) in
    let z0 : 0 + q ≡ q = omega arith in
    let rest =
      rest_contents bs s m e d buf left block' (suc s) q inside
        (λ j h. ap length (same j h) ∙ sizes j) (omega arith) (omega arith) (omega arith)
      ∙ ap (λ c. drop q buf ++ drop r c)
          (contents_same block' block (suc s) (suc left) (λ j h k. same j h)) in
    let rest' : contents (write_blocks bs s m e d buf block' (suc s) (suc left) (0 + q)) (suc s)
          (suc left)
        ≡ drop q buf ++ drop r more =
      ap
        (λ k. contents (write_blocks bs s m e d buf block' (suc s) (suc left) k) (suc s) (suc left))
        z0
      ∙ rest in
    let z : length (block s) + r ≡ m + length buf = omega (arith, sizes s) in
    first_and_rest bs s m e d buf block s (suc left) 0 (take m (block s) ++ take q buf)
      (drop q buf ++ drop r more) q first w rest'
    ∙ append_assoc (take m (block s)) (take q buf) (drop q buf ++ drop r more)
    ∙ ap (take m (block s) ++◌) (
        sym (append_assoc (take q buf) (drop q buf) (drop r more))
        ∙ ap (λ b. b ++ drop r more) (take-append-drop q buf))
    ∙ ap (λ b. take m (block s) ++ (buf ++ b))
        (sym (drop_over (block s) more r) ∙ ap (λ k. drop k (block s ++ more)) z)
    ∙ ap (λ b. b ++ (buf ++ drop (m + length buf) (block s ++ more)))
        (sym (take-append_less (block s) more m (omega (arith, sizes s))))
    ∙ ap (λ c. splice c m buf) (sym (contents-suc block s (suc left)))
