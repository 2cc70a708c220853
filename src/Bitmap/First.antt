-- ===== src/Bitmap/First.antt =====
-- The search for a clear bit.
use micro.Prelude.{
  ℕ, zero, suc, ◌+◌, ◌≤◌, ◌<◌, ◌≡◌, ap, subst, Bool, true, false, Option, none, some, if◌then◌else◌,
  arith, Bool-cases, inl, inr, ◌⊎◌, sym, ◌∙◌,
}

pub le_cases : (i k : ℕ) → i ≤ k → (suc i ≤ k) ⊎ (i ≡ k)
le_cases i k h = ground arith

-- `for (; i < end && p(i); i++)` with `left` steps to the end; none if it reaches the end.
unfoldable pub first_false : (p : ℕ → Bool) (i left : ℕ) → Option ℕ
first_false p i zero = none
first_false p i (suc left) = let rest = first_false p (suc i) left in if p i then rest else some i

-- The result is the first number from `i` on and below `e` that fails `p`.
unfoldable pub IsFirst : (p : ℕ → Bool) (i e : ℕ) → Option ℕ → Type 0
IsFirst p i e none = (k : ℕ) → i ≤ k → k < e → p k ≡ true
IsFirst p i e (some j) = (i ≤ j) × (j < e) × (p j ≡ false) × ((k : ℕ) → i ≤ k → k < j → p k ≡ true)

pub IsFirst-step :
    (p : ℕ → Bool) (i e : ℕ) (r : Option ℕ) → p i ≡ true → IsFirst p (suc i) e r → IsFirst p i e r
unfolding IsFirst
IsFirst-step p i e none h f =
    λ k a b. elim (le_cases i k a) [ inl l ↦ f k l b | inr q ↦ ap p (sym q) ∙ h ]
IsFirst-step p i e (some j) h (a, b, c, f) = (
  omega arith,
  b,
  c,
  λ k l m. elim (le_cases i k l) [ inl o ↦ f k o m | inr q ↦ ap p (sym q) ∙ h ],
)

pub first_false-IsFirst :
    (p : ℕ → Bool) (i left : ℕ) → IsFirst p i (i + left) (first_false p i left)
unfolding first_false IsFirst
first_false-IsFirst p i zero = λ k a b. absurd (omega arith)
first_false-IsFirst p i (suc left) = elim (Bool-cases (p i)) [
  | inl h ↦ rw (h) (
      subst (λ e. IsFirst p i e (first_false p (suc i) left)) (omega arith)
        (IsFirst-step p i (suc i + left) _ h (first_false-IsFirst p (suc i) left)))
  | inr h ↦ rw (h) (omega arith, omega arith, h, λ k a b. absurd (omega arith))
]
