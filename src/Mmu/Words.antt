-- ===== src/Mmu/Words.antt =====
-- The words of the page tables, kernel/arch/amd64/amd64/mmu.c: `|`, `& PAGE_PR` and `& PAGE_FRAME`.
use Prim.Native.Nat.{bit_or, bit_or-bitwise, digits, max}
use micro.Prelude.{
  ℕ, zero, suc, ◌+◌, ◌*◌, ◌/◌, ◌%◌, ◌≤◌, ◌<◌, ◌≡◌, refl, sym, ap, ◌∙◌, Bool, ◌==◌, arith,
}

-- `e & PAGE_FRAME`
abbrev pub frame : ℕ → ℕ
frame e = e / 4096 * 4096

-- `e & PAGE_PR`, as a condition
abbrev pub is_present : ℕ → Bool
is_present e = e % 2 == 1

or_digits : ℕ → ℕ → ℕ → ℕ
or_digits n a b = digits (λ b. b) max n a b

enough_digits : (n m a b : ℕ) → a ≤ n → a ≤ m → or_digits n a b ≡ or_digits m a b
unfolding or_digits
enough_digits zero zero zero b h k = refl
enough_digits zero (suc m) zero b h k = refl
enough_digits (suc n) zero zero b h k = refl
enough_digits (suc n) (suc m) zero b h k = refl
enough_digits zero m (suc a) b h k = absurd (omega arith)
enough_digits (suc n) zero (suc a) b h k = absurd (omega arith)
enough_digits (suc n) (suc m) (suc a) b h k =
    ap (λ d. d * 2 + max (suc a % 2) (b % 2))
      (enough_digits n m (suc a / 2) (b / 2) (omega arith) (omega arith))

or_start : (a b : ℕ) → bit_or a b ≡ or_digits a a b
unfolding or_digits
or_start a b = bit_or-bitwise a b

or_zero : (b : ℕ) → bit_or 0 b ≡ b
unfolding or_digits
or_zero b = or_start 0 b

-- The lowest digit and the others.
or_digit : (a b : ℕ) → bit_or a b ≡ bit_or (a / 2) (b / 2) * 2 + max (a % 2) (b % 2)
unfolding or_digits
or_digit zero b =
    let z : 0 / 2 ≡ 0 = omega arith in
    let e : b ≡ b / 2 * 2 + max (0 % 2) (b % 2) = omega arith in
    or_zero b
    ∙ e
    ∙ ap (λ d. d * 2 + max (0 % 2) (b % 2))
        (sym (or_zero (b / 2)) ∙ ap (λ n. bit_or n (b / 2)) (sym z))
or_digit (suc a) b =
    or_start (suc a) b
    ∙ ap (λ d. d * 2 + max (suc a % 2) (b % 2))
        (enough_digits a (suc a / 2) (suc a / 2) (b / 2) (omega arith) (omega arith)
          ∙ sym (or_start (suc a / 2) (b / 2)))

pub or_half : (a b : ℕ) → bit_or a b / 2 ≡ bit_or (a / 2) (b / 2)
or_half a b = ground (arith, or_digit a b)

pub or_odd : (a b : ℕ) → bit_or a b % 2 ≡ max (a % 2) (b % 2)
or_odd a b = ground (arith, or_digit a b)

-- A word without the lowest `n` bits.
shift : ℕ → ℕ → ℕ
shift zero a = a
shift (suc n) a = shift n (a / 2)

or_shift : (n a b : ℕ) → shift n (bit_or a b) ≡ bit_or (shift n a) (shift n b)
unfolding shift
or_shift zero a b = refl
or_shift (suc n) a b = ap (shift n) (or_half a b) ∙ or_shift n (a / 2) (b / 2)

shift_12 : (a : ℕ) → shift 12 a ≡ a / 4096
unfolding shift
shift_12 a = omega arith

or_page : (a b : ℕ) → bit_or a b / 4096 ≡ bit_or (a / 4096) (b / 4096)
or_page a b =
    sym (shift_12 (bit_or a b))
    ∙ or_shift 12 a b
    ∙ ap (λ n. bit_or n (shift 12 b)) (shift_12 a)
    ∙ ap (bit_or (a / 4096)) (shift_12 b)

no_digits : (n a : ℕ) → a ≤ n → or_digits n a 0 ≡ a
unfolding or_digits
no_digits zero zero h = refl
no_digits zero (suc a) h = absurd (omega arith)
no_digits (suc n) zero h = refl
no_digits (suc n) (suc a) h =
    let ih = no_digits n (suc a / 2) (omega arith) in
    let e : suc a / 2 * 2 + max (suc a % 2) (0 % 2) ≡ suc a = omega arith in
    ap (λ d. d * 2 + max (suc a % 2) (0 % 2)) ih ∙ e

or_right : (a : ℕ) → bit_or a 0 ≡ a
or_right a = or_start a 0 ∙ no_digits a a (omega arith)

-- Flags do not touch the page of a word.
pub or_flags : (a f : ℕ) → f < 4096 → bit_or a f / 4096 ≡ a / 4096
or_flags a f h =
    let z : f / 4096 ≡ 0 = omega arith in
    or_page a f ∙ ap (bit_or (a / 4096)) z ∙ or_right (a / 4096)
