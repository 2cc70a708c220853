-- ===== src/Sys/Slots.antt =====
-- The searches of the descriptor table in kernel/kern/fs/fcntl.c, open.c and pipe.c.
use native.Mathlib.Decide.{dec_lt}
use micro.Prelude.{
  ℕ, zero, suc, ◌+◌, ◌-◌, ◌≤◌, ◌<◌, ◌≡◌, ◌≢◌, refl, sym, ap, ◌∙◌, Bool, true, not, Option, none,
  some, List, [], ◌∷◌, arith, ◌==◌, leb, if◌then◌else◌, length, get_or, Bool-cases, inl, inr,
}

abbrev pub Fds : Type 0
Fds = List (Option ℕ)

-- `for (i = first; i < FD_MAX; i++) if (!fds[i] && wanted) return i;`
unfoldable pub scan : (ℕ → Bool) → ℕ → Fds → Option ℕ
scan wanted i [] = none
scan wanted i (some p ∷ fds) = scan wanted (suc i) fds
scan wanted i (none ∷ fds) = let rest = scan wanted (suc i) fds in if wanted i then some i else rest

-- The loops of `dup`, `do_sys_open` and `find_slots`.
unfoldable pub free_slot : Fds → Option ℕ
unfolding scan
free_slot fds = scan (λ _. true) 0 fds

unfoldable pub free_slot_from_three : Fds → Option ℕ
unfolding scan
free_slot_from_three fds = scan (λ i. leb 3 i) 0 fds

abbrev pair_with : ℕ → Option ℕ → Option (ℕ × ℕ)
pair_with a none = none
pair_with a (some b) = some (a, b)

-- `find_slots(slots, 2)`
unfoldable pub find_slots : Fds → Option (ℕ × ℕ)
unfolding scan
find_slots fds = elim (scan (λ _. true) 0 fds) [
  | none ↦ none
  | some a ↦ pair_with a (scan (λ j. not (j == a)) 0 fds)
]

-- The slot `j` is free and wanted, and no slot before it is.
pub record IsFirst (wanted : ℕ → Bool) (i : ℕ) (fds : Fds) (j : ℕ) : Type 0 where
  pub from : i ≤ j
  pub inside : j - i < length fds
  pub free : get_or fds (j - i) (some 0) ≡ none
  pub fits : wanted j ≡ true
  pub least : (k : ℕ) → i ≤ k → k < j → wanted k ≡ true → get_or fds (k - i) (some 0) ≢ none

module _ (wanted : ℕ → Bool) (i : ℕ) (fds : Fds) (j : ℕ) where
  here-IsFirst : i ≡ j → wanted i ≡ true → IsFirst wanted i (none ∷ fds) j
  here-IsFirst e w =
      let z : j - i ≡ 0 = omega arith in
      record {
        from = omega arith;
        inside = omega arith;
        free = ap (λ n. get_or (none ∷ fds) n (some 0)) z;
        fits = ap wanted (sym e) ∙ w;
        least = λ k a b _. absurd (omega arith);
      }

  later-IsFirst :
      (x : Option ℕ)
      → (wanted i ≡ true → x ≢ none)
      → IsFirst wanted (suc i) fds j
      → IsFirst wanted i (x ∷ fds) j
  later-IsFirst x taken f =
      let above : suc i ≤ j = f.from in
      let z : j - i ≡ suc (j - suc i) = omega arith in
      record {
        from = omega arith;
        inside = omega (arith, f.inside);
        free = ap (λ n. get_or (x ∷ fds) n (some 0)) z ∙ f.free;
        fits = f.fits;
        least = λ k a b w. elim (dec_lt i k) [
          | yes p ↦
              let y : k - i ≡ suc (k - suc i) = omega arith in
              λ e. f.least k p b w (ap (λ n. get_or (x ∷ fds) n (some 0)) (sym y) ∙ e)
          | no p ↦
              let y : k ≡ i = omega arith in
              let y' : k - i ≡ 0 = omega arith in
              λ e.
                taken (ap wanted (sym y) ∙ w) (ap (λ n. get_or (x ∷ fds) n (some 0)) (sym y') ∙ e)
        ];
      }

pub scan-IsFirst :
    (wanted : ℕ → Bool) (i : ℕ) (fds : Fds) (j : ℕ)
    → scan wanted i fds ≡ some j
    → IsFirst wanted i fds j
unfolding scan
scan-IsFirst wanted i [] j h = cc
scan-IsFirst wanted i (some p ∷ fds) j h =
    later-IsFirst wanted i fds j (some p) (λ w e. cc) (scan-IsFirst wanted (suc i) fds j h)
scan-IsFirst wanted i (none ∷ fds) j h = elim (Bool-cases (wanted i)) [
  | inl w ↦ here-IsFirst wanted i fds j (ground arith) w
  | inr w ↦
      later-IsFirst wanted i fds j none (λ v e. cc)
        (scan-IsFirst wanted (suc i) fds j (ground arith))
]

-- A search that fails has found every wanted slot taken.
pub scan-none :
    (wanted : ℕ → Bool) (i : ℕ) (fds : Fds)
    → scan wanted i fds ≡ none
    → (k : ℕ) → k < length fds
    → wanted (i + k) ≡ true
    → get_or fds k none ≢ none
unfolding scan
scan-none wanted i [] h k l w = absurd (omega arith)
scan-none wanted i (some p ∷ fds) h zero l w = λ e. cc
scan-none wanted i (some p ∷ fds) h (suc k) l w =
    scan-none wanted (suc i) fds h k (omega arith) (ap wanted (omega arith) ∙ w)
scan-none wanted i (none ∷ fds) h zero l w =
    let v : wanted i ≡ true = ap wanted (omega arith) ∙ w in ground arith
scan-none wanted i (none ∷ fds) h (suc k) l w =
    scan-none wanted (suc i) fds (ground arith) k (omega arith) (ap wanted (omega arith) ∙ w)

-- The two slots that `pipe` takes are free, in the table, and different.
pub find_slots_distinct :
    (fds : Fds) (a b : ℕ)
    → find_slots fds ≡ some (a, b)
    → (a < length fds)
      × (b < length fds)
      × (a ≢ b)
      × (get_or fds a (some 0) ≡ none)
      × (get_or fds b (some 0) ≡ none)
unfolding find_slots
find_slots_distinct fds a b h = first (scan (λ _. true) 0 fds) refl h
  where
    facts :
        (wanted : ℕ → Bool) (j : ℕ)
        → scan wanted 0 fds ≡ some j
        → (j < length fds) × (get_or fds j (some 0) ≡ none) × (wanted j ≡ true)
    facts wanted j e =
        let f = scan-IsFirst wanted 0 fds j e in
        let z : j - 0 ≡ j = omega arith in
        (omega (arith, f.inside), ap (λ n. get_or fds n (some 0)) (sym z) ∙ f.free, f.fits)

    second :
        (x : ℕ)
        → scan (λ _. true) 0 fds ≡ some x
        → (o : Option ℕ) → scan (λ j. not (j == x)) 0 fds ≡ o
        → pair_with x o ≡ some (a, b)
        → (a < length fds)
          × (b < length fds)
          × (a ≢ b)
          × (get_or fds a (some 0) ≡ none)
          × (get_or fds b (some 0) ≡ none)
    second x e none e' q = cc
    second x e (some y) e' q =
        let same : (x ≡ a) × (y ≡ b) = ground arith in
        let f = facts (λ _. true) a (e ∙ ap some same.0) in
        let g = facts (λ j. not (j == x)) b (e' ∙ ap some same.1) in
        (f.0, g.0, (λ c. ground arith), f.1, g.1)

    first :
        (o : Option ℕ)
        → scan (λ _. true) 0 fds ≡ o
        → elim o as (λ _. Option (ℕ × ℕ)) [
          | none ↦ none
          | some x ↦ pair_with x (scan (λ j. not (j == x)) 0 fds)
        ]
          ≡ some (a, b)
        → (a < length fds)
          × (b < length fds)
          × (a ≢ b)
          × (get_or fds a (some 0) ≡ none)
          × (get_or fds b (some 0) ≡ none)
    first none e q = cc
    first (some x) e q = second x e (scan (λ j. not (j == x)) 0 fds) refl q
