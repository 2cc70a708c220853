-- ===== src/Mmu/Frames/Lowest.antt =====
-- Which frame `mmu_alloc_phys` of kernel/arch/amd64/amd64/mmu.c takes.
use micro.Prelude.{
  ℕ, zero, suc, ◌+◌, ◌-◌, ◌*◌, ◌/◌, ◌%◌, ◌≤◌, ◌<◌, ◌≡◌, refl, ap, subst, ◌∙◌, Bool, true, false,
  ◌||◌, ◌&&◌, not, Option, none, some, [], ◌∷◌, ◌==◌, ltb, length, arith, Bool-cases, Option-cases,
  inl, inr, get_or,
}
use micro.Bitmap.{test_bit, Bytes, get_bit, set_bit, clear_bit}
use micro.Bitmap.Bytes.{
  AreBytes, passes, passes-test, get_bit-set_bit, get_bit-clear_bit, set_bit-AreBytes,
  clear_bit-AreBytes,
}
use micro.Bitmap.First.{first_false, IsFirst, first_false-IsFirst}
use micro.Mmu.Frames.{find_frame, page, alloc_phys, free_phys, alloc_phys_at, mark, unmark}

full_byte : passes (test_bit 255) 8 ≡ true
unfolding passes
full_byte = refl

-- A run of numbers that pass goes before the run of the result.
IsFirst-join :
    (p : ℕ → Bool) (i m e : ℕ) (r : Option ℕ)
    → i ≤ m
    → m ≤ e
    → IsFirst p i m none
    → IsFirst p m e r
    → IsFirst p i e r
unfolding IsFirst
IsFirst-join p i m e none a b f g = λ k l n. elim (Bool-cases (ltb k m)) [
  | inl h ↦ f k l (ground arith)
  | inr h ↦ g k (ground arith) n
]
IsFirst-join p i m e (some j) a b f (x, y, z, g) = (
  omega arith,
  y,
  z,
  λ k l n. elim (Bool-cases (ltb k m)) [
    | inl h ↦ f k l (ground arith)
    | inr h ↦ g k (ground arith) n
  ],
)

head_bit : (x : ℕ) (xs : Bytes) (k : ℕ) → k < 8 → get_bit (x ∷ xs) k ≡ test_bit x k
unfolding get_bit
head_bit x xs k h =
    let q : k / 8 ≡ 0 = omega arith in
    let r : k % 8 ≡ k = omega arith in
    ap (λ n. test_bit (get_or (x ∷ xs) n 0) (k % 8)) q ∙ ap (test_bit x) r

tail_bit : (x : ℕ) (xs : Bytes) (k : ℕ) → get_bit (x ∷ xs) (8 + k) ≡ get_bit xs k
unfolding get_bit
tail_bit x xs k =
    let q : (8 + k) / 8 ≡ suc (k / 8) = omega arith in
    let r : (8 + k) % 8 ≡ k % 8 = omega arith in
    ap (λ n. test_bit (get_or (x ∷ xs) n 0) ((8 + k) % 8)) q ∙ ap (test_bit (get_or xs (k / 8) 0)) r

-- `p` is the bitmap, with its bit 0 at the number `i * 8`.
Shows : (ℕ → Bool) → ℕ → Bytes → Type 0
Shows p i map = (k : ℕ) → k < 8 * length map → p (i * 8 + k) ≡ get_bit map k

Shows-tail : (p : ℕ → Bool) (i x : ℕ) (xs : Bytes) → Shows p i (x ∷ xs) → Shows p (suc i) xs
unfolding Shows
Shows-tail p i x xs h = λ k l.
    let e : suc i * 8 + k ≡ i * 8 + (8 + k) = omega arith in
    ap p e ∙ h (8 + k) (omega arith) ∙ tail_bit x xs k

first_byte :
    (p : ℕ → Bool) (i x : ℕ) (xs : Bytes) (k : ℕ)
    → Shows p i (x ∷ xs)
    → k < 8
    → p (i * 8 + k) ≡ test_bit x k
unfolding Shows
first_byte p i x xs k h l = h k (omega arith) ∙ head_bit x xs k l

full :
    (p : ℕ → Bool) (i x : ℕ)
    → ((k : ℕ) → k < 8 → p (i * 8 + k) ≡ test_bit x k)
    → ((k : ℕ) → k < 8 → test_bit x k ≡ true)
    → IsFirst p (i * 8) (suc i * 8) none
unfolding IsFirst
full p i x h f k a b =
    let e : k ≡ i * 8 + (k - i * 8) = omega arith in
    let l : k - i * 8 < 8 = omega arith in ap p e ∙ h (k - i * 8) l ∙ f (k - i * 8) l

full_bits : (k : ℕ) → k < 8 → test_bit 255 k ≡ true
full_bits k l = passes-test (test_bit 255) 8 l full_byte

found :
    (p : ℕ → Bool) (i x j e : ℕ)
    → ((k : ℕ) → k < 8 → p (i * 8 + k) ≡ test_bit x k)
    → i * 8 + 8 ≤ e
    → IsFirst (test_bit x) 0 8 (some j)
    → IsFirst p (i * 8) e (some (i * 8 + j))
unfolding IsFirst
found p i x j e h r (a, b, c, f) = (
  omega arith,
  omega arith,
  h j b ∙ c,
  λ k l m.
      let q : k ≡ i * 8 + (k - i * 8) = omega arith in
      ap p q ∙ h (k - i * 8) (omega arith) ∙ f (k - i * 8) (omega arith) (omega arith),
)

no_bytes : (p : ℕ → Bool) (i : ℕ) → IsFirst p (i * 8) (i * 8 + 0) none
unfolding IsFirst
no_bytes p i = λ k a b. absurd (omega arith)

none_clear : (x : ℕ) → IsFirst (test_bit x) 0 8 none → (k : ℕ) → k < 8 → test_bit x k ≡ true
unfolding IsFirst
none_clear x f k l = f k (omega arith) l

-- The search of a byte and of those after it.
find_frame-IsFirst :
    (p : ℕ → Bool) (i : ℕ) (map : Bytes)
    → Shows p i map
    → IsFirst p (i * 8) (i * 8 + 8 * length map) (find_frame i map)
unfolding find_frame
find_frame-IsFirst p i [] h = no_bytes p i
find_frame-IsFirst p i (x ∷ xs) h =
    let bits : (k : ℕ) → k < 8 → p (i * 8 + k) ≡ test_bit x k = λ k l. first_byte p i x xs k h l in
    let len : suc i * 8 + 8 * length xs ≡ i * 8 + 8 * suc (length xs) = omega arith in
    let ih =
      subst (λ e. IsFirst p (suc i * 8) e (find_frame (suc i) xs)) len
        (find_frame-IsFirst p (suc i) xs (Shows-tail p i x xs h)) in
    let over : ((k : ℕ) → k < 8 → test_bit x k ≡ true)
        → IsFirst p (i * 8) (i * 8 + 8 * suc (length xs)) (find_frame (suc i) xs) =
      λ f.
        IsFirst-join p (i * 8) (suc i * 8) (i * 8 + 8 * suc (length xs)) (find_frame (suc i) xs)
          (omega arith) (omega arith) (full p i x bits f) ih in
    let in_x = first_false-IsFirst (test_bit x) 0 8 in
    elim (Bool-cases (x == 255)) [
      | inl e ↦
          let q : x ≡ 255 = ground arith in
          rw (e) (over (λ k l. ap (λ y. test_bit y k) q ∙ full_bits k l))
      | inr e ↦ elim (Option-cases (first_false (test_bit x) 0 8)) [
        | inl n ↦ rw (e, n) (over (none_clear x (subst (IsFirst (test_bit x) 0 8) n in_x)))
        | inr (j, q) ↦
            rw (e, q)
              (found p i x j (i * 8 + 8 * suc (length xs)) bits (omega arith)
                (subst (IsFirst (test_bit x) 0 8) q in_x))
      ]
    ]

-- What an allocation does, with the address it returns and the bitmap it leaves.
pub data Takes (map : Bytes) : ℕ → Bytes → Type 0 where
  takes :
      (n : ℕ) (map' : Bytes)
      → n < 8 * length map
      → get_bit map n ≡ false
      → ((k : ℕ) → k < n → get_bit map k ≡ true)
      → ((k : ℕ) → get_bit map' k ≡ ((n == k) || get_bit map k))
      → AreBytes map' × (length map' ≡ length map)
      → Takes map (n * page) map'
  out : ((k : ℕ) → k < 8 * length map → get_bit map k ≡ true) → Takes map 0 map

whole_map : (map : Bytes) → Shows (get_bit map) 0 map
unfolding Shows
whole_map map k l = let e : 0 * 8 + k ≡ k = omega arith in ap (get_bit map) e

found_frame :
    (map : Bytes) (r : Option ℕ) → find_frame 0 map ≡ r → IsFirst (get_bit map) 0 (8 * length map) r
found_frame map r e =
    let l : 0 * 8 + 8 * length map ≡ 8 * length map = omega arith in
    subst (IsFirst (get_bit map) 0 (8 * length map)) e (
      subst (λ n. IsFirst (get_bit map) 0 n (find_frame 0 map)) l
        (find_frame-IsFirst (get_bit map) 0 map (whole_map map)))

no_frame : (map : Bytes) → IsFirst (get_bit map) 0 (8 * length map) none → Takes map 0 map
unfolding IsFirst
no_frame map f = out (λ k l. f k (omega arith) l)

one_frame :
    (map : Bytes) (n : ℕ)
    → AreBytes map
    → IsFirst (get_bit map) 0 (8 * length map) (some n)
    → Takes map (n * page) (mark (n * page / page) 1 map)
unfolding IsFirst mark
one_frame map n bytes (a, b, c, f) =
    let e : n * page / page ≡ n = omega arith in
    rw (e) (
      takes n (set_bit map n) b c (λ k l. f k (omega arith) l) (get_bit-set_bit map n bytes b)
        (set_bit-AreBytes map n bytes b))

-- On a bitmap made of bytes, `mmu_alloc_phys` takes the free page frame with the lowest number, marks it used and no other, and
-- returns its address; only when every frame is used does it leave the bitmap alone and return 0.
pub alloc_phys-Takes :
    (map : Bytes) → AreBytes map → Takes map (alloc_phys map).0 (alloc_phys map).1
unfolding alloc_phys alloc_phys_at
alloc_phys-Takes map bytes = elim (Option-cases (find_frame 0 map)) [
  | inl e ↦ rw (e) (no_frame map (found_frame map none e))
  | inr (n, e) ↦ rw (e) (one_frame map n bytes (found_frame map (some n) e))
]

-- whether the number is one of the `cnt` from `it` on
unfoldable pub in_run : (it cnt k : ℕ) → Bool
in_run it cnt k = not (ltb k it) && ltb k (it + cnt)

unmark-clears :
    (map : Bytes) (it cnt : ℕ)
    → AreBytes map
    → it + cnt ≤ 8 * length map
    → AreBytes (unmark it cnt map)
      × (length (unmark it cnt map) ≡ length map)
      × ((k : ℕ) → get_bit (unmark it cnt map) k ≡ (not (in_run it cnt k) && get_bit map k))
unfolding unmark in_run
unmark-clears map it zero bytes h = (bytes, refl, λ k. ground arith)
unmark-clears map it (suc cnt) bytes h =
    let step = clear_bit-AreBytes map it bytes (omega arith) in
    let (b, l, f) = unmark-clears (clear_bit map it) (suc it) cnt step.0 (omega (arith, step.1)) in
    (
      b,
      l ∙ step.1,
      λ k.
          f k
          ∙ ap (λ z. not (in_run (suc it) cnt k) && z)
              (get_bit-clear_bit map it bytes (omega arith) k)
          ∙ rejoin k,
    )
  where
    rejoin :
        (k : ℕ)
        → (not (in_run (suc it) cnt k) && (not (it == k) && get_bit map k))
          ≡ (not (in_run it (suc cnt) k) && get_bit map k)
    rejoin k = ground arith

-- `mmu_free_phys` of `cnt` frames that lie within the bitmap frees those frames and no other, and
-- the bitmap keeps its length.
pub free_phys-clears :
    (map : Bytes) (p cnt : ℕ)
    → AreBytes map
    → p / page + cnt ≤ 8 * length map
    → AreBytes (free_phys map p cnt)
      × (length (free_phys map p cnt) ≡ length map)
      × ((k : ℕ)
          → get_bit (free_phys map p cnt) k ≡ (not (in_run (p / page) cnt k) && get_bit map k))
unfolding free_phys
free_phys-clears map p cnt bytes h = unmark-clears map (p / page) cnt bytes h
