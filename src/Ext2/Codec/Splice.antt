-- ===== src/Ext2/Codec/Splice.antt =====
-- Copies into the middle of a buffer, as the ext2 driver makes them with `memcpy`.
use micro.Prelude.{
  ℕ, ◌+◌, ◌≤◌, ◌≡◌, sym, ap, ◌∙◌, ◌++◌, length, take, drop, drop-append, drop-drop, arith,
  append_assoc, length-append, length-drop, length-take,
}
use micro.Bitmap.{Bytes}
use micro.Ext2.Codec.{splice, take-append_more, take-append_less, drop-length}

pub drop_over : (xs ys : Bytes) (n : ℕ) → drop (length xs + n) (xs ++ ys) ≡ drop n ys
drop_over xs ys n = sym (drop-drop n (length xs) (xs ++ ys)) ∙ ap (drop n) (drop-length xs ys)

-- A copy into the middle of three parts.
pub splice_inside :
    (a m z b : Bytes) (o : ℕ)
    → o + length b ≤ length m
    → splice (a ++ (m ++ z)) (length a + o) b ≡ a ++ (splice m o b ++ z)
unfolding splice
splice_inside a m z b o h =
    let n = o + length b in
    let x : length a + o + length b ≡ length a + n = omega arith in
    let front : take (length a + o) (a ++ (m ++ z)) ≡ a ++ take o m =
      take-append_more a (m ++ z) o ∙ ap (a ++◌) (take-append_less m z o (omega arith)) in
    let back : drop (length a + o + length b) (a ++ (m ++ z)) ≡ drop n m ++ z =
      ap (λ k. drop k (a ++ (m ++ z))) x ∙ drop_over a (m ++ z) n ∙ drop-append n m z h in
    ap (λ f. f ++ (b ++ drop (length a + o + length b) (a ++ (m ++ z)))) front
    ∙ ap (λ k. (a ++ take o m) ++ (b ++ k)) back
    ∙ append_assoc a (take o m) (b ++ (drop n m ++ z))
    ∙ ap (a ++◌) (
        ap (take o m ++◌) (sym (append_assoc b (drop n m) z))
        ∙ sym (append_assoc (take o m) (b ++ drop n m) z))

pub length-splice :
    (buf b : Bytes) (o : ℕ) → o + length b ≤ length buf → length (splice buf o b) ≡ length buf
unfolding splice
length-splice buf b o h =
    let n = o + length b in
    length-append (take o buf) (b ++ drop n buf)
    ∙ omega (arith, length-append b (drop n buf), length-take o buf, length-drop n buf)
