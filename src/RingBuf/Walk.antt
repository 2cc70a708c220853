-- ===== src/RingBuf/Walk.antt =====
-- The bytes that a head meets as it goes round the storage of a ring.
use micro.Prelude.{
  ℕ, zero, suc, ◌+◌, ◌-◌, ◌^◌, ◌≤◌, ◌<◌, ◌≡◌, refl, ap, ◌∙◌, ◌≢◌, List, [], ◌∷◌, ◌++◌, arith, ltb,
  if◌then◌else◌, length, get_or, set, get_or-set_self, get_or-set_ne,
}
use mathlib.Core.Path.{ap₂}
use micro.RingBuf.{bump}

-- the `k` bytes from index `i` on
abbrev pub walk : List ℕ → ℕ → ℕ → ℕ → List ℕ
walk buf n i zero = []
walk buf n i (suc k) = get_or buf i 0 ∷ walk buf n (bump i n) k

-- where a head that starts at `i` stands after `k ≤ n` steps
abbrev pub place : ℕ → ℕ → ℕ → ℕ
place n i k = if ltb (i + k) n then i + k else i + k - n

pub length-walk : (buf : List ℕ) (n i k : ℕ) → length (walk buf n i k) ≡ k
length-walk buf n i zero = refl
length-walk buf n i (suc k) = ap suc (length-walk buf n (bump i n) k)

place-bump : (n i k : ℕ) → n < 2 ^ 64 → i < n → suc k ≤ n → place n (bump i n) k ≡ place n i (suc k)
place-bump n i k small h l = ground arith

bump-lt : (n i : ℕ) → n < 2 ^ 64 → i < n → bump i n < n
bump-lt n i small h = ground arith

place-ne : (n i k : ℕ) → i < n → suc k < n → place n i (suc k) ≢ i
place-ne n i k h l = ground arith

-- A byte written just past a walk extends the walk.
pub walk-set :
    (buf : List ℕ) (n x k i j : ℕ)
    → n < 2 ^ 64
    → n ≤ length buf
    → i < n
    → k < n
    → j ≡ place n i k
    → walk (set buf j x) n i (suc k) ≡ walk buf n i k ++ x ∷ []
walk-set buf n x zero i j small s h l e =
    let here : j ≡ i = ground arith in
    ap (λ y. y ∷ [])
      (ap (λ t. get_or (set buf t x) i 0) here ∙ get_or-set_self buf i x 0 (omega arith))
walk-set buf n x (suc k) i j small s h l e =
    ap₂ ◌∷◌ (get_or-set_ne buf j i x 0 (λ q. place-ne n i k h l (ground arith))) (
      walk-set buf n x k (bump i n) j small s (bump-lt n i small h) (omega arith)
        (ground (arith, place-bump n i k)))
