-- ===== src/Ext2/Codec.antt =====
-- The bytes of the packed structures of kernel/dev/ext2/ext2.h.
pub mod Splice
pub mod Rows
use micro.Prelude.{
  ℕ, zero, suc, ◌+◌, ◌*◌, ◌/◌, ◌%◌, ◌≤◌, ◌≡◌, refl, sym, ap, ◌∙◌, List, [], ◌∷◌, ◌++◌, take, drop,
  length, arith, append_assoc, length-take, ◌-◌, ◌⊎◌, inl, inr, append-nil, drop-append, drop-drop,
  length-drop, take-append-drop, length-append,
}
use micro.Bitmap.{Bytes}

-- `n` bytes of a number, the lowest first
unfoldable pub le_bytes : (n v : ℕ) → Bytes
le_bytes zero v = []
le_bytes (suc n) v = v % 256 ∷ le_bytes n (v / 256)

unfoldable pub le_number : Bytes → ℕ
le_number [] = 0
le_number (b ∷ bs) = b + 256 * le_number bs

-- The number has no more than `n` bytes.
unfoldable pub Fits : (n v : ℕ) → Type 0
Fits zero v = v ≡ 0
Fits (suc n) v = Fits n (v / 256)

pub le_number-le_bytes : (n v : ℕ) → Fits n v → le_number (le_bytes n v) ≡ v
unfolding le_bytes le_number Fits
le_number-le_bytes zero v h = omega arith
le_number-le_bytes (suc n) v h = omega (arith, le_number-le_bytes n (v / 256) h)

pub length-le_bytes : (n v : ℕ) → length (le_bytes n v) ≡ n
unfolding le_bytes
length-le_bytes zero v = refl
length-le_bytes (suc n) v = ap suc (length-le_bytes n (v / 256))

-- The members of a structure by their widths in bytes.
unfoldable pub encode : (widths values : List ℕ) → Bytes
encode [] vs = []
encode (w ∷ ws) [] = []
encode (w ∷ ws) (v ∷ vs) = le_bytes w v ++ encode ws vs

unfoldable pub decode : (widths : List ℕ) → Bytes → List ℕ
decode [] bs = []
decode (w ∷ ws) bs = le_number (take w bs) ∷ decode ws (drop w bs)

-- One value for each width, and it fits.
unfoldable pub IsRow : (widths values : List ℕ) → Type 0
IsRow [] [] = Unit
IsRow [] (v ∷ vs) = ⊥
IsRow (w ∷ ws) [] = ⊥
IsRow (w ∷ ws) (v ∷ vs) = Fits w v × IsRow ws vs

unfoldable pub total : List ℕ → ℕ
total [] = 0
total (w ∷ ws) = w + total ws

module _ {ℓ} {A : Type ℓ} where
  pub take-length : (xs ys : List A) → take (length xs) (xs ++ ys) ≡ xs
  take-length [] ys = refl
  take-length (x ∷ xs) ys = ap (x ∷◌) (take-length xs ys)

  pub drop-length : (xs ys : List A) → drop (length xs) (xs ++ ys) ≡ ys
  drop-length [] ys = refl
  drop-length (x ∷ xs) ys = drop-length xs ys

  pub take-append_more :
      (xs ys : List A) (n : ℕ) → take (length xs + n) (xs ++ ys) ≡ xs ++ take n ys
  take-append_more [] ys n = let e : 0 + n ≡ n = omega arith in ap (λ k. take k ys) e
  take-append_more (x ∷ xs) ys n =
      let e : suc (length xs) + n ≡ suc (length xs + n) = omega arith in
      ap (λ k. take k (x ∷ (xs ++ ys))) e ∙ ap (x ∷◌) (take-append_more xs ys n)

  pub take-append_less : (xs ys : List A) (n : ℕ) → n ≤ length xs → take n (xs ++ ys) ≡ take n xs
  take-append_less xs ys zero h = refl
  take-append_less [] ys (suc n) h = absurd (omega arith)
  take-append_less (x ∷ xs) ys (suc n) h = ap (x ∷◌) (take-append_less xs ys n (omega arith))

  pub take_all : (xs : List A) (n : ℕ) → length xs ≡ n → take n xs ≡ xs
  take_all xs n h =
      ap (take n) (sym (append-nil xs)) ∙ ap (λ k. take k (xs ++ [])) (sym h) ∙ take-length xs []

  -- `memcpy` of `xs` to the place `off` of a buffer, with room for it
  unfoldable pub splice : List A → (off : ℕ) → List A → List A
  splice buf off xs = take off buf ++ (xs ++ drop (off + length xs) buf)

  -- `memcpy` of `n` elements from the place `off`
  unfoldable pub slice : List A → (off n : ℕ) → List A
  slice buf off n = take n (drop off buf)

  pub slice-splice :
      (buf xs : List A) (off : ℕ)
      → off ≤ length buf
      → slice (splice buf off xs) off (length xs) ≡ xs
  unfolding slice splice
  slice-splice buf xs off h =
      let e : length (take off buf) ≡ off = omega (arith, length-take off buf) in
      ap (λ n. take (length xs) (drop n (take off buf ++ (xs ++ drop (off + length xs) buf))))
        (sym e)
      ∙ ap (take (length xs)) (drop-length (take off buf) (xs ++ drop (off + length xs) buf))
      ∙ take-length xs (drop (off + length xs) buf)

  slice-front : (xs ys : List A) (o n : ℕ) → o + n ≤ length xs → slice (xs ++ ys) o n ≡ slice xs o n
  unfolding slice
  slice-front xs ys o n h =
      ap (take n) (drop-append o xs ys (omega arith))
      ∙ take-append_less (drop o xs) ys n (omega (arith, length-drop o xs))

  slice-back :
      (xs ys : List A) (o n : ℕ) → length xs ≤ o → slice (xs ++ ys) o n ≡ slice ys (o - length xs) n
  unfolding slice
  slice-back xs ys o n h =
      let e : o ≡ length xs + (o - length xs) = omega arith in
      ap (λ k. take n (drop k (xs ++ ys))) e
      ∙ ap (take n) (sym (drop-drop (o - length xs) (length xs) (xs ++ ys)))
      ∙ ap (λ zs. take n (drop (o - length xs) zs)) (drop-length xs ys)

  -- A copy is not seen before or behind its place.
  pub slice-splice_ne :
      (buf xs : List A) (off o n : ℕ)
      → off + length xs ≤ length buf
      → (o + n ≤ off) ⊎ (off + length xs ≤ o)
      → slice (splice buf off xs) o n ≡ slice buf o n
  unfolding splice
  slice-splice_ne buf xs off o n h (inl k) =
      let l = length-take off buf in
      slice-front (take off buf) (xs ++ drop (off + length xs) buf) o n (omega arith)
      ∙ sym (slice-front (take off buf) (drop off buf) o n (omega arith))
      ∙ ap (λ b. slice b o n) (take-append-drop off buf)
  slice-splice_ne buf xs off o n h (inr k) =
      let m = off + length xs in
      let l = length-take off buf in
      let l' = length-take m buf in
      let e : o - length (take off buf) - length xs ≡ o - length (take m buf) = omega arith in
      slice-back (take off buf) (xs ++ drop m buf) o n (omega arith)
      ∙ slice-back xs (drop m buf) (o - length (take off buf)) n (omega arith)
      ∙ ap (λ q. slice (drop m buf) q n) e
      ∙ sym (slice-back (take m buf) (drop m buf) o n (omega arith))
      ∙ ap (λ b. slice b o n) (take-append-drop m buf)

pub decode-encode :
    (ws vs : List ℕ) (rest : Bytes) → IsRow ws vs → decode ws (encode ws vs ++ rest) ≡ vs
unfolding encode decode IsRow
decode-encode [] [] rest h = refl
decode-encode [] (v ∷ vs) rest h = elim h [ ]
decode-encode (w ∷ ws) [] rest h = elim h [ ]
decode-encode (w ∷ ws) (v ∷ vs) rest (f, h) =
    let l = length-le_bytes w v in
    let e : (le_bytes w v ++ encode ws vs) ++ rest ≡ le_bytes w v ++ (encode ws vs ++ rest) =
      append_assoc (le_bytes w v) (encode ws vs) rest in
    let all = encode ws vs ++ rest in
    let t : take w (le_bytes w v ++ all) ≡ le_bytes w v =
      ap (λ n. take n (le_bytes w v ++ all)) (sym l) ∙ take-length (le_bytes w v) all in
    let d : drop w (le_bytes w v ++ all) ≡ all =
      ap (λ n. drop n (le_bytes w v ++ all)) (sym l) ∙ drop-length (le_bytes w v) all in
    ap (λ bs. le_number (take w bs) ∷ decode ws (drop w bs)) e
    ∙ ap (λ bs. le_number bs ∷ decode ws (drop w (le_bytes w v ++ all))) t
    ∙ ap (λ n. n ∷ decode ws (drop w (le_bytes w v ++ all))) (le_number-le_bytes w v f)
    ∙ ap (v ∷◌) (ap (decode ws) d ∙ decode-encode ws vs rest h)

pub length-encode : (ws vs : List ℕ) → IsRow ws vs → length (encode ws vs) ≡ total ws
unfolding encode IsRow total
length-encode [] [] h = refl
length-encode [] (v ∷ vs) h = elim h [ ]
length-encode (w ∷ ws) [] h = elim h [ ]
length-encode (w ∷ ws) (v ∷ vs) (f, h) =
    length-append (le_bytes w v) (encode ws vs)
    ∙ omega (arith, length-le_bytes w v, length-encode ws vs h)
