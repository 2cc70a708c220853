-- ===== src/Ext2/Codec/Rows.antt =====
-- The bytes of a structure of kernel/dev/ext2/ext2.h, from the disk into its members and back.
use micro.Prelude.{
  ℕ, zero, suc, ◌+◌, ◌*◌, ◌/◌, ◌%◌, ◌<◌, ◌≡◌, refl, sym, ap, subst, ◌∙◌, List, [], ◌∷◌, ◌++◌, take,
  drop, length, length-drop, length-take, take-append-drop, arith,
}
use micro.Bitmap.{Bytes}
use micro.Bitmap.Bytes.{AreBytes}
use micro.Ext2.Codec.{Fits, le_bytes, le_number, encode, decode, IsRow, total}

-- Bytes are the encoding of what they decode to.
Fits-le_number : (bs : Bytes) → AreBytes bs → Fits (length bs) (le_number bs)
unfolding Fits le_number AreBytes
Fits-le_number [] h = refl
Fits-le_number (b ∷ bs) (h, hs) =
    let e : le_number bs ≡ (b + 256 * le_number bs) / 256 = omega arith in
    subst (Fits (length bs)) e (Fits-le_number bs hs)

le_bytes-le_number : (bs : Bytes) → AreBytes bs → le_bytes (length bs) (le_number bs) ≡ bs
unfolding le_bytes le_number AreBytes
le_bytes-le_number [] h = refl
le_bytes-le_number (b ∷ bs) (h, hs) =
    let e : (b + 256 * le_number bs) / 256 ≡ le_number bs = omega arith in
    let m : (b + 256 * le_number bs) % 256 ≡ b = omega arith in
    ap (λ n. n ∷ le_bytes (length bs) ((b + 256 * le_number bs) / 256)) m
    ∙ ap (λ n. b ∷ le_bytes (length bs) n) e
    ∙ ap (b ∷◌) (le_bytes-le_number bs hs)

pub AreBytes-append : (xs ys : Bytes) → AreBytes xs → AreBytes ys → AreBytes (xs ++ ys)
unfolding AreBytes
AreBytes-append [] ys h k = k
AreBytes-append (x ∷ xs) ys (a, h) k = (a, AreBytes-append xs ys h k)

pub AreBytes-take : (n : ℕ) (xs : Bytes) → AreBytes xs → AreBytes (take n xs)
unfolding AreBytes
AreBytes-take zero xs h = record {}
AreBytes-take (suc n) [] h = h
AreBytes-take (suc n) (x ∷ xs) (a, h) = (a, AreBytes-take n xs h)

pub AreBytes-drop : (n : ℕ) (xs : Bytes) → AreBytes xs → AreBytes (drop n xs)
unfolding AreBytes
AreBytes-drop zero xs h = h
AreBytes-drop (suc n) [] h = h
AreBytes-drop (suc n) (x ∷ xs) (a, h) = AreBytes-drop n xs h

AreBytes-le_bytes : (n v : ℕ) → AreBytes (le_bytes n v)
unfolding AreBytes le_bytes
AreBytes-le_bytes zero v = record {}
AreBytes-le_bytes (suc n) v = (omega arith, AreBytes-le_bytes n (v / 256))

pub AreBytes-encode : (ws vs : List ℕ) → AreBytes (encode ws vs)
unfolding encode AreBytes
AreBytes-encode [] vs = record {}
AreBytes-encode (w ∷ ws) [] = record {}
AreBytes-encode (w ∷ ws) (v ∷ vs) =
    AreBytes-append (le_bytes w v) (encode ws vs) (AreBytes-le_bytes w v) (AreBytes-encode ws vs)

pub encode-decode :
    (ws : List ℕ) (bs : Bytes) → AreBytes bs → length bs ≡ total ws → encode ws (decode ws bs) ≡ bs
unfolding encode decode total
encode-decode [] [] h l = refl
encode-decode [] (b ∷ bs) h l = let bad : ⊥ = omega (arith, l) in elim bad [ ]
encode-decode (w ∷ ws) bs h l =
    let t : length (take w bs) ≡ w = omega (arith, length-take w bs) in
    let front : le_bytes w (le_number (take w bs)) ≡ take w bs =
      ap (λ n. le_bytes n (le_number (take w bs))) (sym t)
      ∙ le_bytes-le_number (take w bs) (AreBytes-take w bs h) in
    let back =
      encode-decode ws (drop w bs) (AreBytes-drop w bs h) (omega (arith, length-drop w bs)) in
    ap (λ f. f ++ encode ws (decode ws (drop w bs))) front
    ∙ ap (take w bs ++◌) back
    ∙ take-append-drop w bs

pub decode-IsRow :
    (ws : List ℕ) (bs : Bytes) → AreBytes bs → length bs ≡ total ws → IsRow ws (decode ws bs)
unfolding IsRow decode total
decode-IsRow [] bs h l = record {}
decode-IsRow (w ∷ ws) bs h l =
    let t : length (take w bs) ≡ w = omega (arith, length-take w bs) in
    (
      subst (λ n. Fits n (le_number (take w bs))) t
          (Fits-le_number (take w bs) (AreBytes-take w bs h)),
      decode-IsRow ws (drop w bs) (AreBytes-drop w bs h) (omega (arith, length-drop w bs)),
    )

-- The rows of a structure in two parts.
pub IsRow-split :
    (ws ws' vs vs' : List ℕ)
    → length vs ≡ length ws
    → IsRow (ws ++ ws') (vs ++ vs')
    → IsRow ws vs × IsRow ws' vs'
unfolding IsRow
IsRow-split [] ws' [] vs' l h = (record {}, h)
IsRow-split [] ws' (v ∷ vs) vs' l h = let bad : ⊥ = omega (arith, l) in elim bad [ ]
IsRow-split (w ∷ ws) ws' [] vs' l h = let bad : ⊥ = omega (arith, l) in elim bad [ ]
IsRow-split (w ∷ ws) ws' (v ∷ vs) vs' l (f, h) =
    let (a, b) = IsRow-split ws ws' vs vs' (omega arith) h in ((f, a), b)

pub IsRow-append :
    (ws ws' vs vs' : List ℕ) → IsRow ws vs → IsRow ws' vs' → IsRow (ws ++ ws') (vs ++ vs')
unfolding IsRow
IsRow-append [] ws' [] vs' h k = k
IsRow-append [] ws' (v ∷ vs) vs' h k = elim h [ ]
IsRow-append (w ∷ ws) ws' [] vs' h k = elim h [ ]
IsRow-append (w ∷ ws) ws' (v ∷ vs) vs' (f, h) k = (f, IsRow-append ws ws' vs vs' h k)

pub Fits-small : (v : ℕ) → v < 256 → Fits 4 v
unfolding Fits
Fits-small v h = omega arith
