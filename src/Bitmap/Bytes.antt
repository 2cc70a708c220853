-- ===== src/Bitmap/Bytes.antt =====
-- A bitmap as a set of numbers.
use micro.Prelude.{
  ℕ, zero, suc, ◌*◌, ◌/◌, ◌%◌, ◌<◌, ◌≡◌, ◌≢◌, refl, sym, ap, ◌∙◌, Bool, true, false, not, ◌&&◌,
  ◌||◌, ◌==◌, ltb, [], ◌∷◌, get_or, set, length, length-set, get_or-set_self, get_or-set_ne, arith,
  Bool-cases, inl, inr,
}
use micro.Bitmap.{test_bit, with_bit, without_bit, Bytes, get_bit, set_bit, clear_bit}

-- Every number up to but not including the bound passes the test.
unfoldable pub passes : (test : ℕ → Bool) (bound : ℕ) → Bool
passes test zero = true
passes test (suc last) = passes test last && test last

pub passes-test :
    (test : ℕ → Bool) {i : ℕ} (bound : ℕ) → i < bound → passes test bound ≡ true → test i ≡ true
unfolding passes
passes-test test zero inside all = absurd (omega arith)
passes-test test {i = i} (suc last) inside all =
    let before = passes-test test {i = i} last in ground (arith, before)

-- `a` and `b` are the same
abbrev agree : Bool → Bool → Bool
agree true b = b
agree false b = not b

agree_sound : (a b : Bool) → agree a b ≡ true → a ≡ b
agree_sound true b h = sym h
agree_sound false true h = cc
agree_sound false false h = refl

-- what the two updates of a byte do to its bits, for every byte
set_table :
    passes
      (λ x.
        passes
          (λ j.
            passes
              (λ k.
                agree (test_bit (with_bit x j) k) ((j == k) || test_bit x k)
                && ltb (with_bit x j) 256)
              8)
          8)
      256
    ≡ true
unfolding passes
set_table = refl

clear_table :
    passes
      (λ x.
        passes
          (λ j.
            passes
              (λ k.
                agree (test_bit (without_bit x j) k) (not (j == k) && test_bit x k)
                && ltb (without_bit x j) 256)
              8)
          8)
      256
    ≡ true
unfolding passes
clear_table = refl

three_below :
    (p : ℕ → ℕ → ℕ → Bool) (x j k : ℕ)
    → passes (λ x. passes (λ j. passes (λ k. p x j k) 8) 8) 256 ≡ true
    → x < 256
    → j < 8
    → k < 8
    → p x j k ≡ true
three_below p x j k h hx hj hk = passes-test _ 8 hk (passes-test _ 8 hj (passes-test _ 256 hx h))

and_parts : (a b : Bool) → (a && b) ≡ true → (a ≡ true) × (b ≡ true)
and_parts true b h = (refl, h)
and_parts false b h = cc

module _ (x j k : ℕ) (hx : x < 256) (hj : j < 8) (hk : k < 8) where
  test-with_bit : (test_bit (with_bit x j) k ≡ ((j == k) || test_bit x k)) × (with_bit x j < 256)
  test-with_bit =
      let (a, b) = and_parts _ _ (
        three_below
          (λ x j k.
            agree (test_bit (with_bit x j) k) ((j == k) || test_bit x k) && ltb (with_bit x j) 256)
          x j k set_table hx hj hk) in
      (agree_sound _ _ a, ground arith)

  test-without_bit :
      (test_bit (without_bit x j) k ≡ (not (j == k) && test_bit x k)) × (without_bit x j < 256)
  test-without_bit =
      let (a, b) = and_parts _ _ (
        three_below
          (λ x j k.
            agree (test_bit (without_bit x j) k) (not (j == k) && test_bit x k)
            && ltb (without_bit x j) 256)
          x j k clear_table hx hj hk) in
      (agree_sound _ _ a, ground arith)

-- Every element is a byte.
unfoldable pub AreBytes : Bytes → Type 0
AreBytes [] = Unit
AreBytes (x ∷ xs) = (x < 256) × AreBytes xs

pub get_or-byte : (map : Bytes) (i : ℕ) → AreBytes map → get_or map i 0 < 256
unfolding AreBytes
get_or-byte [] i h = omega arith
get_or-byte (x ∷ xs) zero h = h.0
get_or-byte (x ∷ xs) (suc i) h = get_or-byte xs i h.1

set-AreBytes : (map : Bytes) (i v : ℕ) → AreBytes map → v < 256 → AreBytes (set map i v)
unfolding AreBytes
set-AreBytes [] i v h hv = h
set-AreBytes (x ∷ xs) zero v h hv = (hv, h.1)
set-AreBytes (x ∷ xs) (suc i) v h hv = (h.0, set-AreBytes xs i v h.1 hv)

-- The same place in the same byte is the same bit.
same_place : (i k : ℕ) → i / 8 ≡ k / 8 → (i % 8 == k % 8) ≡ (i == k)
same_place i k q = elim (Bool-cases (i == k)) [ inl e ↦ ground arith | inr e ↦ ground arith ]

-- A write to the byte of bit `i` is seen by bit `k` if that is in the same byte.
same_byte :
    (map : Bytes) (i k v : ℕ)
    → i < 8 * length map
    → i / 8 ≡ k / 8
    → get_bit (set map (i / 8) v) k ≡ test_bit v (k % 8)
unfolding get_bit
same_byte map i k v h q =
    ap (λ n. test_bit (get_or (set map (i / 8) v) n 0) (k % 8)) (sym q)
    ∙ ap (λ b. test_bit b (k % 8)) (get_or-set_self map (i / 8) v 0 (omega arith))

other_byte :
    (map : Bytes) (i k v : ℕ) → i / 8 ≢ k / 8 → get_bit (set map (i / 8) v) k ≡ get_bit map k
unfolding get_bit
other_byte map i k v ne = ap (λ b. test_bit b (k % 8)) (get_or-set_ne map (i / 8) (k / 8) v 0 ne)

module _ (map : Bytes) (i : ℕ) (bytes : AreBytes map) (inside : i < 8 * length map) where
  pub set_bit-AreBytes : AreBytes (set_bit map i) × (length (set_bit map i) ≡ length map)
  unfolding set_bit
  set_bit-AreBytes =
      let x = get_or map (i / 8) 0 in
      let t =
        test-with_bit x (i % 8) 0 (get_or-byte map (i / 8) bytes) (omega arith) (omega arith) in
      (
        set-AreBytes map (i / 8) (with_bit x (i % 8)) bytes t.1,
        length-set map (i / 8) (with_bit x (i % 8)),
      )

  pub clear_bit-AreBytes : AreBytes (clear_bit map i) × (length (clear_bit map i) ≡ length map)
  unfolding clear_bit
  clear_bit-AreBytes =
      let x = get_or map (i / 8) 0 in
      let t =
        test-without_bit x (i % 8) 0 (get_or-byte map (i / 8) bytes) (omega arith) (omega arith) in
      (
        set-AreBytes map (i / 8) (without_bit x (i % 8)) bytes t.1,
        length-set map (i / 8) (without_bit x (i % 8)),
      )

  -- Setting a bit sets it and no other.
  pub get_bit-set_bit : (k : ℕ) → get_bit (set_bit map i) k ≡ ((i == k) || get_bit map k)
  unfolding get_bit set_bit
  get_bit-set_bit k = elim (Bool-cases (i / 8 == k / 8)) [
    | inl e ↦
        let q : i / 8 ≡ k / 8 = ground arith in
        let x = get_or map (i / 8) 0 in
        let t =
          test-with_bit x (i % 8) (k % 8) (get_or-byte map (i / 8) bytes) (omega arith)
            (omega arith) in
        same_byte map i k (with_bit x (i % 8)) inside q
        ∙ t.0
        ∙ ap (λ b. b || test_bit x (k % 8)) (same_place i k q)
        ∙ ap (λ n. (i == k) || test_bit (get_or map n 0) (k % 8)) q
    | inr e ↦
        let f : (i == k) ≡ false = ground arith in
        other_byte map i k (with_bit (get_or map (i / 8) 0) (i % 8)) (λ q. ground arith)
        ∙ ap (λ b. b || get_bit map k) (sym f)
  ]

  -- Clearing a bit clears it and no other.
  pub get_bit-clear_bit : (k : ℕ) → get_bit (clear_bit map i) k ≡ (not (i == k) && get_bit map k)
  unfolding get_bit clear_bit
  get_bit-clear_bit k = elim (Bool-cases (i / 8 == k / 8)) [
    | inl e ↦
        let q : i / 8 ≡ k / 8 = ground arith in
        let x = get_or map (i / 8) 0 in
        let t =
          test-without_bit x (i % 8) (k % 8) (get_or-byte map (i / 8) bytes) (omega arith)
            (omega arith) in
        same_byte map i k (without_bit x (i % 8)) inside q
        ∙ t.0
        ∙ ap (λ b. not b && test_bit x (k % 8)) (same_place i k q)
        ∙ ap (λ n. not (i == k) && test_bit (get_or map n 0) (k % 8)) q
    | inr e ↦
        let f : (i == k) ≡ false = ground arith in
        other_byte map i k (without_bit (get_or map (i / 8) 0) (i % 8)) (λ q. ground arith)
        ∙ ap (λ b. not b && get_bit map k) (sym f)
  ]
