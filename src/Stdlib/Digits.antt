-- ===== src/Stdlib/Digits.antt =====
-- `itoa` and `strrev` of kernel/kern/stdlib.c, against the number that the digits stand for.
use micro.Prelude.{
  ℕ, zero, suc, ◌+◌, ◌-◌, ◌*◌, ◌/◌, ◌%◌, ◌≤◌, ◌<◌, ◌≡◌, ◌≢◌, refl, sym, ap, ◌∙◌, Bool, true, false,
  some, List, [], ◌∷◌, ◌++◌, ◌==◌, leb, ltb, arith, length, length-set, get_or, set, Bool-cases,
  inl, inr, get_or-set_self, get_or-set_ne,
}
use mathlib.Core.Path.{ap₂}
use micro.Stdlib.{swap, strrev_loop, strrev, digits, or_zero, itoa}

set-same : (str : List ℕ) (i : ℕ) → set str i (get_or str i 0) ≡ str
set-same [] i = refl
set-same (x ∷ xs) zero = refl
set-same (x ∷ xs) (suc i) = ap (x ∷◌) (set-same xs i)

set_twice : (str : List ℕ) (i x y : ℕ) → set (set str i x) i y ≡ set str i y
set_twice [] i x y = refl
set_twice (z ∷ zs) zero x y = refl
set_twice (z ∷ zs) (suc i) x y = ap (z ∷◌) (set_twice zs i x y)

set_comm : (str : List ℕ) (i j x y : ℕ) → i ≢ j → set (set str i x) j y ≡ set (set str j y) i x
set_comm [] i j x y h = refl
set_comm (z ∷ zs) zero zero x y h = absurd (h refl)
set_comm (z ∷ zs) zero (suc j) x y h = refl
set_comm (z ∷ zs) (suc i) zero x y h = refl
set_comm (z ∷ zs) (suc i) (suc j) x y h = ap (z ∷◌) (set_comm zs i j x y (λ e. h (ap suc e)))

length-swap : (i j : ℕ) (str : List ℕ) → length (swap i j str) ≡ length str
unfolding swap
length-swap i j str =
    length-set (set str i (get_or str j 0)) j (get_or str i 0) ∙ length-set str i (get_or str j 0)

-- Two exchanges of the same places cancel.
swap_twice :
    (i j : ℕ) (str : List ℕ)
    → i ≢ j
    → i < length str
    → j < length str
    → swap i j (swap i j str) ≡ str
unfolding swap
swap_twice i j str ne hi hj =
    let x = get_or str i 0 in
    let y = get_or str j 0 in
    let once = set (set str i y) j x in
    let at_j : get_or once j 0 ≡ x =
      get_or-set_self (set str i y) j x 0 (omega (arith, length-set str i y)) in
    let at_i : get_or once i 0 ≡ y =
      get_or-set_ne (set str i y) j i x 0 (λ e. ne (sym e)) ∙ get_or-set_self str i y 0 hi in
    let back : set once i x ≡ set str j x =
      sym (set_comm (set str i y) i j x x ne)
      ∙ ap (λ l. set l j x) (set_twice str i y x ∙ set-same str i) in
    ap₂ (λ a b. set (set once i a) j b) at_j at_i
    ∙ ap (λ l. set l j y) back
    ∙ set_twice str j x y
    ∙ set-same str j

swap_injective :
    (i j : ℕ) (s t : List ℕ) → i ≢ j → i < length s → j < length s → swap i j s ≡ swap i j t → s ≡ t
swap_injective i j s t ne hi hj e =
    let l : length s ≡ length t = sym (length-swap i j s) ∙ ap length e ∙ length-swap i j t in
    sym (swap_twice i j s ne hi hj)
    ∙ ap (swap i j) e
    ∙ swap_twice i j t ne (omega arith) (omega arith)

length-strrev_loop : (fuel i j : ℕ) (s : List ℕ) → length (strrev_loop fuel i j s) ≡ length s
unfolding strrev_loop
length-strrev_loop zero i j s = refl
length-strrev_loop (suc fuel) i j s =
    let ih = length-strrev_loop fuel (i - 1) (suc j) (swap (i - 1) j s) in
    let l = length-swap (i - 1) j s in ground arith

strrev_loop_injective :
    (fuel i j : ℕ) (s t : List ℕ)
    → i ≤ length s
    → strrev_loop fuel i j s ≡ strrev_loop fuel i j t
    → s ≡ t
unfolding strrev_loop
strrev_loop_injective zero i j s t h e = e
strrev_loop_injective (suc fuel) i j s t h e = elim (Bool-cases (ltb (suc j) i)) [
  | inl w ↦
      let l : suc j < i = ground arith in
      let e' = rw (w) at e in
      swap_injective (i - 1) j s t (λ q. absurd (omega arith)) (omega arith) (omega arith)
        (strrev_loop_injective fuel (i - 1) (suc j) (swap (i - 1) j s) (swap (i - 1) j t)
          (omega (arith, length-swap (i - 1) j s)) e')
  | inr w ↦ rw (w) at e
]

strrev_injective : (s t : List ℕ) → strrev s ≡ strrev t → s ≡ t
unfolding strrev
strrev_injective s t e =
    let l : length s ≡ length t =
      sym (length-strrev_loop (length s) (length s) 0 s)
      ∙ ap length e
      ∙ length-strrev_loop (length t) (length t) 0 t in
    strrev_loop_injective (length s) (length s) 0 s t (omega arith)
      (e ∙ ap (λ n. strrev_loop n n 0 t) (sym l))

-- The number that decimal digits stand for, the lowest first.
value : List ℕ → ℕ
value [] = 0
value (c ∷ cs) = (c - 48) + 10 * value cs

value-digits : (fuel n : ℕ) → n ≤ fuel → value (digits fuel 10 n) ≡ n
unfolding value digits
value-digits zero n h = omega arith
value-digits (suc fuel) n h = elim (Bool-cases (n == 0)) [
  | inl e ↦ rw (e) (ground arith)
  | inr e ↦
      let big : n ≢ 0 = ground arith in
      let ih = value-digits fuel (n / 10) (omega arith) in
      let small : leb 10 (n % 10) ≡ false = low (n % 10) (omega arith) in
      rw (e, small) (omega (arith, ih))
]
  where
    low : (r : ℕ) → r < 10 → leb 10 r ≡ false
    low r h = ground arith

value-or_zero : (l : List ℕ) → value (or_zero l) ≡ value l
unfolding value
value-or_zero [] = refl
value-or_zero (c ∷ cs) = refl

-- The sign is worth nothing.
value-sign : (l : List ℕ) → value (l ++ 45 ∷ []) ≡ value l
unfolding value
value-sign [] = refl
value-sign (c ∷ cs) = ap (λ v. (c - 48) + 10 * v) (value-sign cs)

some-injective : (s t : List ℕ) → some s ≡ some t → s ≡ t
some-injective s t e = ground arith

value-text :
    (negative : Bool) (n : ℕ)
    → (l : List ℕ) × (itoa negative n 10 ≡ some (strrev l)) × (value l ≡ n)
unfolding itoa
value-text true n =
    let text = or_zero (digits n 10 n) in
    (
      text ++ 45 ∷ [],
      refl,
      value-sign text ∙ value-or_zero (digits n 10 n) ∙ value-digits n n (omega arith),
    )
value-text false n =
    (or_zero (digits n 10 n), refl, value-or_zero (digits n 10 n) ∙ value-digits n n (omega arith))

pub itoa_decimal : (negative : Bool) (n : ℕ) → (t : List ℕ) × (itoa negative n 10 ≡ some t)
itoa_decimal negative n = let (l, e, v) = value-text negative n in (strrev l, e)

-- Two ints of one sign whose decimal texts by `itoa` are the same have the same magnitude.
pub itoa_injective : (negative : Bool) (m n : ℕ) → itoa negative m 10 ≡ itoa negative n 10 → m ≡ n
itoa_injective negative m n e =
    let (s, p, v) = value-text negative m in
    let (t, q, w) = value-text negative n in
    let same = strrev_injective s t (some-injective (strrev s) (strrev t) (sym p ∙ e ∙ q)) in
    sym v ∙ ap value same ∙ w
