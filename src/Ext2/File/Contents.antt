-- ===== src/Ext2/File/Contents.antt =====
-- The bytes of a file's blocks, kernel/dev/ext2/ext2.c.
use micro.Prelude.{
  ℕ, zero, suc, ◌+◌, ◌*◌, ◌≤◌, ◌<◌, ◌≡◌, refl, sym, ap, ◌∙◌, [], ◌++◌, length, take, drop,
  drop-append, drop-drop, arith, length-append, length-drop, append_assoc,
}
use micro.Bitmap.{Bytes}
use micro.Ext2.Codec.{drop-length, take-append_less}

-- `n` blocks from block `i` on.
unfoldable pub contents : (block : ℕ → Bytes) (i n : ℕ) → Bytes
contents block i zero = []
contents block i (suc n) = block i ++ contents block (suc i) n

-- The contents are those of the blocks in the range.
pub contents_same :
    (f g : ℕ → Bytes) (i n : ℕ)
    → ((j : ℕ) → i ≤ j → j < i + n → f j ≡ g j)
    → contents f i n ≡ contents g i n
unfolding contents
contents_same f g i zero h = refl
contents_same f g i (suc n) h =
    ap (λ b. b ++ contents f (suc i) n) (h i (omega arith) (omega arith))
    ∙ ap (g i ++◌) (contents_same f g (suc i) n (λ j a b. h j (omega arith) (omega arith)))

pub contents-append :
    (block : ℕ → Bytes) (i a n : ℕ)
    → contents block i (a + n) ≡ contents block i a ++ contents block (i + a) n
unfolding contents
contents-append block i zero n =
    let e : i + 0 ≡ i = omega arith in
    let f : 0 + n ≡ n = omega arith in
    ap (contents block i) f ∙ ap (λ k. contents block k n) (sym e)
contents-append block i (suc a) n =
    let e : suc i + a ≡ i + suc a = omega arith in
    let f : suc a + n ≡ suc (a + n) = omega arith in
    ap (contents block i) f
    ∙ ap (block i ++◌) (contents-append block (suc i) a n)
    ∙ sym (append_assoc (block i) (contents block (suc i) a) (contents block (suc i + a) n))
    ∙ ap (λ k. (block i ++ contents block (suc i) a) ++ contents block k n) e

module _ (block : ℕ → Bytes) (blksize : ℕ) (sizes : (i : ℕ) → length (block i) ≡ blksize) where
  pub length-contents : (i n : ℕ) → length (contents block i n) ≡ blksize * n
  unfolding contents
  length-contents i zero = omega arith
  length-contents i (suc n) =
      length-append (block i) (contents block (suc i) n)
      ∙ omega (arith, sizes i, length-contents (suc i) n)

  -- The run of bytes does not depend on the blocks before and after those that have it.
  pub run :
      (s n m size more : ℕ)
      → m + size ≤ blksize * n
      → take size (drop m (contents block s n))
        ≡ take size (drop (blksize * s + m) (contents block 0 (s + n + more)))
  run s n m size more h =
      let front = contents block 0 s in
      let mid = contents block s n in
      let back = contents block (s + n) more in
      let z : s + n + more ≡ s + (n + more) = omega arith in
      let z' : 0 + s ≡ s = omega arith in
      let len : length front ≡ blksize * s = length-contents 0 s in
      let all : contents block 0 (s + n + more) ≡ front ++ (mid ++ back) =
        ap (contents block 0) z
        ∙ contents-append block 0 s (n + more)
        ∙ ap (λ k. front ++ contents block k (n + more)) z'
        ∙ ap (front ++◌) (contents-append block s n more) in
      let rest : drop (blksize * s) (front ++ (mid ++ back)) ≡ mid ++ back =
        ap (λ k. drop k (front ++ (mid ++ back))) (sym len) ∙ drop-length front (mid ++ back) in
      sym (
        take-append_less (drop m mid) back size
          (omega (arith, length-drop m mid, length-contents s n)))
      ∙ ap (take size) (sym (drop-append m mid back (omega (arith, length-contents s n))))
      ∙ ap (λ b. take size (drop m b)) (sym rest)
      ∙ ap (take size) (drop-drop m (blksize * s) (front ++ (mid ++ back)))
      ∙ ap (λ b. take size (drop (blksize * s + m) b)) (sym all)
