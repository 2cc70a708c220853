-- ===== src/Stdlib.antt =====
-- Numbers as text: `strrev`, `itoa` and `ultoa` of kernel/kern/stdlib.c.
pub mod Digits
use micro.Prelude.{
  ℕ, zero, suc, ◌+◌, ◌-◌, ◌/◌, ◌%◌, ◌^◌, Bool, true, false, ◌&&◌, ◌||◌, Option, none, some, List,
  [], ◌∷◌, ◌++◌, ◌==◌, leb, ltb, if◌then◌else◌, get_or, set, length,
}

-- one round of `strrev`
pub swap : (i j : ℕ) → List ℕ → List ℕ
swap i j str = set (set str i (get_or str j 0)) j (get_or str i 0)

-- `while (i > j)`, for at most `fuel` rounds; `i` is taken one higher, for it may be -1.
pub strrev_loop : (fuel i j : ℕ) → List ℕ → List ℕ
unfolding swap
strrev_loop zero i j str = str
strrev_loop (suc fuel) i j str =
    let rest = strrev_loop fuel (i - 1) (suc j) (swap (i - 1) j str) in
    if ltb (suc j) i then rest else str

-- Every round brings `i` and `j` closer, so the length is enough fuel.
pub strrev : List ℕ → List ℕ
unfolding strrev_loop
strrev str = strrev_loop (length str) (length str) 0 str

-- `r >= 10 ? 'a' + (r - 10) : '0' + r`
abbrev pub digit : ℕ → ℕ
digit r = if leb 10 r then 97 + (r - 10) else 48 + r

-- `while (n)`: the digits, the lowest first. Every round makes `n` smaller, so `n` is enough fuel.
pub digits : (fuel base n : ℕ) → List ℕ
digits zero base n = []
digits (suc fuel) base n =
    let rest = digits fuel base (n / base) in if n == 0 then [] else digit (n % base) ∷ rest

-- `if (i == 0) str[i++] = '0'`
abbrev pub or_zero : List ℕ → List ℕ
or_zero [] = 48 ∷ []
or_zero (c ∷ cs) = c ∷ cs

-- `base < 2 || base > 32`: then nothing is written.
abbrev pub bad_base : ℕ → Bool
bad_base base = ltb base 2 || ltb 32 base

-- `itoa` of an `int` given by its sign and its magnitude, which `abs` has: the text it writes.
pub itoa : (negative : Bool) (n base : ℕ) → Option (List ℕ)
unfolding digits strrev
itoa negative n base =
    let text = or_zero (digits n base n) in
    if bad_base base
    then none
    else some (strrev (if negative && (base == 10) then text ++ 45 ∷ [] else text))

pub ultoa : (n base : ℕ) → Option (List ℕ)
unfolding digits strrev
ultoa n base = if bad_base base then none else some (strrev (or_zero (digits n base n)))
