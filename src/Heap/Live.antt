-- ===== src/Heap/Live.antt =====
-- `kmalloc` of kernel/kern/heap.c on the map of live blocks, from pointers to sizes.
use micro.Prelude.{
  ℕ, ◌+◌, ◌%◌, ◌^◌, ◌≤◌, ◌<◌, ◌≡◌, ◌≢◌, refl, sym, ap, ◌∙◌, Bool, true, false, ◌||◌, Option, none,
  some, List, [], ◌∷◌, ◌++◌, subst, sub_size, ◌==◌, ltb, if◌then◌else◌, arith, Bool-cases, inl, inr,
}
use micro.Heap.{Block, header, split, skip, alloc_loop, round_up, block, trap, kmalloc}

-- the bytes that the blocks and their headers take
unfoldable pub span : List Block → ℕ
span [] = 0
span (b ∷ bs) = b.size + header + span bs

-- Every size is a multiple of 32, and of two neighbours one is used. `u` tells whether the block
-- before the list, if there is one, is used.
unfoldable pub Tidy : Bool → List Block → Type 0
Tidy u [] = Unit
Tidy u (b ∷ bs) = (b.size % 32 ≡ 0) × ((u || b.used) ≡ true) × Tidy b.used bs

-- The size of the live block behind a pointer.
unfoldable pub live : (p a : ℕ) → List Block → Option ℕ
live p a [] = none
live p a (b ∷ bs) =
    let rest = live p (a + header + b.size) bs in
    if a + header == p then (if b.used then some b.size else none) else rest

-- The map `new` has the value `v` at `p`, and elsewhere what `old` has.
pub record Adds (p : ℕ) (v : Option ℕ) (old new : ℕ → Option ℕ) : Type 0 where
  pub here : new p ≡ v
  pub others : (q : ℕ) → q ≢ p → new q ≡ old q

pub live_below : (p a : ℕ) (bs : List Block) → p < a + header → live p a bs ≡ none
unfolding live
live_below p a [] h = refl
live_below p a (b ∷ bs) h =
    let ih = live_below p (a + header + b.size) bs (omega arith) in ground arith

-- What a search of the heap that succeeds does, for a size `n`: the block it takes is free and has
-- room.
pub data Taken (n : ℕ) : (a : ℕ) → List Block → (p : ℕ) → List Block → Type 0 where
  fits :
      (a : ℕ) (b : Block) (bs : List Block)
      → b.used ≡ false
      → n < b.size
      → Taken n a (b ∷ bs) (a + header) (
          record { used = true; size = n }
          ∷ record { used = false; size = sub_size (sub_size b.size n) header }
          ∷ bs)
  exact :
      (a : ℕ) (b : Block) (bs : List Block)
      → b.used ≡ false
      → b.size ≡ n
      → Taken n a (b ∷ bs) (a + header) (record { used = true; size = b.size } ∷ bs)
  later :
      (a : ℕ) (b : Block) (bs : List Block) (p : ℕ) (cs : List Block)
      → Taken n (a + header + b.size) bs p cs
      → Taken n a (b ∷ bs) p (b ∷ cs)

skip-some :
    (b : Block) (r : Option (ℕ × List Block)) (p : ℕ) (bs : List Block)
    → skip b r ≡ some (p, bs)
    → (cs : List Block) × (r ≡ some (p, cs)) × (bs ≡ b ∷ cs)
skip-some b none p bs h = cc
skip-some b (some (q, cs)) p bs h = (cs, ground arith, ground arith)

pair_first :
    (x : ℕ) (xs : List Block) (p : ℕ) (bs : List Block)
    → ◌≡◌ {A = Option (ℕ × List Block)} (some (x, xs)) (some (p, bs))
    → (p ≡ x) × (bs ≡ xs)
pair_first x xs p bs h = ground arith

pass_over :
    (n a : ℕ) (b : Block) (bs : List Block) (p : ℕ) (bs' : List Block)
    → ((cs : List Block)
        → alloc_loop n (a + header + b.size) bs ≡ some (p, cs)
        → Taken n (a + header + b.size) bs p cs)
    → skip b (alloc_loop n (a + header + b.size) bs) ≡ some (p, bs')
    → Taken n a (b ∷ bs) p bs'
pass_over n a b bs p bs' ih k =
    let (cs, e, e') = skip-some b (alloc_loop n (a + header + b.size) bs) p bs' k in
    rw (e') (later a b bs p cs (ih cs e))

alloc_loop-Taken :
    (n a : ℕ) (bs : List Block) (p : ℕ) (bs' : List Block)
    → alloc_loop n a bs ≡ some (p, bs')
    → Taken n a bs p bs'
unfolding alloc_loop split
alloc_loop-Taken n a [] p bs' h = cc
alloc_loop-Taken n a (b ∷ bs) p bs' h =
    let ih = alloc_loop-Taken n (a + header + b.size) bs p in
    elim (Bool-cases b.used) [
      | inl w ↦ pass_over n a b bs p bs' ih (ground arith)
      | inr w ↦ elim (Bool-cases (ltb n b.size)) [
        | inl l ↦
            let new : List Block =
              record { used = true; size = n }
              ∷ record { used = false; size = sub_size (sub_size b.size n) header }
              ∷ bs in
            let q = pair_first (a + header) new p bs' (ground arith) in
            rw (q.0, q.1) (fits a b bs w (ground arith))
        | inr l ↦ elim (Bool-cases (b.size == n)) [
          | inl e ↦
              let new : List Block = record { used = true; size = b.size } ∷ bs in
              let q = pair_first (a + header) new p bs' (ground arith) in
              rw (q.0, q.1) (exact a b bs w (ground arith))
          | inr e ↦ pass_over n a b bs p bs' ih (ground arith)
        ]
      ]
    ]

pub Tidy-weaken : (v : Bool) (bs : List Block) → Tidy v bs → Tidy true bs
unfolding Tidy
Tidy-weaken v [] t = tt
Tidy-weaken v (b ∷ bs) (m, o, t) = (m, refl, t)

pub or_true : (u : Bool) → (u || true) ≡ true
or_true true = refl
or_true false = refl

-- Allocation keeps the heap tidy and its extent.
Taken-Tidy :
    (n a : ℕ) (u : Bool) (bs : List Block) (p : ℕ) (bs' : List Block)
    → Taken n a bs p bs'
    → n % 32 ≡ 0
    → span bs < 2 ^ 64
    → Tidy u bs
    → Tidy u bs' × (span bs' ≡ span bs)
unfolding Tidy span
Taken-Tidy n _ u _ _ _ (fits a b bs w l) m s (k, o, t) =
    ((m, or_true u, (omega arith, refl, subst (λ v. Tidy v bs) w t)), omega arith)
Taken-Tidy n _ u _ _ _ (exact a b bs w l) m s (k, o, t) =
    ((k, or_true u, Tidy-weaken b.used bs t), refl)
Taken-Tidy n _ u _ _ _ (later a b bs p cs r) m s (k, o, t) =
    let ih = Taken-Tidy n (a + header + b.size) b.used bs p cs r m (omega arith) t in
    ((k, o, ih.0), omega (arith, ih.1))

Taken-above :
    (n a : ℕ) (bs : List Block) (p : ℕ) (bs' : List Block) → Taken n a bs p bs' → a + header ≤ p
Taken-above n _ _ _ _ (fits a b bs w l) = omega arith
Taken-above n _ _ _ _ (exact a b bs w l) = omega arith
Taken-above n _ _ _ _ (later a b bs p cs r) =
    let ih = Taken-above n (a + header + b.size) bs p cs r in omega arith

Taken-Adds :
    (n a : ℕ) (u : Bool) (bs : List Block) (p : ℕ) (bs' : List Block)
    → Taken n a bs p bs'
    → n % 32 ≡ 0
    → span bs < 2 ^ 64
    → Tidy u bs
    → (live p a bs ≡ none) × Adds p (some n) (λ q. live q a bs) (λ q. live q a bs')
unfolding Tidy span live
Taken-Adds n _ u _ _ _ (fits a b bs w l) m s (k, o, t) =
    let rem : ℕ = sub_size (sub_size b.size n) header in
    let e : a + header + n + header + rem ≡ a + header + b.size = omega arith in
    (
      ground arith,
      record {
        here = ground arith;
        others = λ q ne.
            let gap : q ≡ a + header + n + header → live q (a + header + b.size) bs ≡ none =
              λ x. live_below q (a + header + b.size) bs (omega arith) in
            let same : live q (a + header + n + header + rem) bs ≡ live q (a + header + b.size) bs =
              ap (λ x. live q x bs) e in
            ground arith;
      },
    )
Taken-Adds n _ u _ _ _ (exact a b bs w l) m s (k, o, t) =
    (ground arith, record { here = ground arith; others = λ q ne. ground arith })
Taken-Adds n _ u _ _ _ (later a b bs p cs r) m s (k, o, t) =
    let ih = Taken-Adds n (a + header + b.size) b.used bs p cs r m (omega arith) t in
    let ih0 = ih.0 in
    let ih1 = ih.1.here in
    let above = Taken-above n (a + header + b.size) bs p cs r in
    (
      ground arith,
      record { here = ground arith; others = λ q ne. let ih2 = ih.1.others q ne in ground arith },
    )

pub record IsHeap (bs : List Block) : Type 0 where
  pub tidy : Tidy true bs
  pub small : span bs < 2 ^ 64

round_up-fits :
    (n : ℕ) → n ≤ 2 ^ 63 → (round_up n % 32 ≡ 0) × (n ≤ round_up n) × (round_up n < n + 32)
unfolding round_up
round_up-fits n h = ground arith

kmalloc-block :
    (n start : ℕ) (bs : List Block) (p : ℕ) (bs' : List Block)
    → kmalloc n start bs ≡ block p bs'
    → (n ≢ 0) × (alloc_loop (round_up n) start bs ≡ some (p, bs'))
unfolding kmalloc
kmalloc-block n start bs p bs' h = ground arith

-- In a heap that keeps its invariant, a `kmalloc` of at most 2^63 bytes that returns a block returns a
-- pointer that no live block had, to a block of the size asked for, rounded up by less than 32. Every other
-- live block keeps its place and its size, and the heap its invariant and its extent.
pub kmalloc-Adds :
    (n start : ℕ) (bs bs' : List Block) (p : ℕ)
    → IsHeap bs
    → n ≤ 2 ^ 63
    → kmalloc n start bs ≡ block p bs'
    → IsHeap bs'
      × (span bs' ≡ span bs)
      × (n ≤ round_up n)
      × (round_up n < n + 32)
      × (live p start bs ≡ none)
      × Adds p (some (round_up n)) (λ q. live q start bs) (λ q. live q start bs')
unfolding kmalloc
kmalloc-Adds n start bs bs' p v b h =
    let fits = round_up-fits n b in
    let (r, e) = kmalloc-block n start bs p bs' h in
    let taken = alloc_loop-Taken (round_up n) start bs p bs' e in
    let kept = Taken-Tidy (round_up n) start true bs p bs' taken fits.0 v.small v.tidy in
    let added = Taken-Adds (round_up n) start true bs p bs' taken fits.0 v.small v.tidy in
    let below : span bs' < 2 ^ 64 = subst (λ x. x < 2 ^ 64) (sym kept.1) v.small in
    (record { tidy = kept.0; small = below }, kept.1, fits.1, fits.2, added.0, added.1)

skip-none : (b : Block) (r : Option (ℕ × List Block)) → skip b r ≡ none → r ≡ none
skip-none b none h = refl
skip-none b (some x) h = cc

no_room :
    (n a : ℕ) (xs ys : List Block) (b : Block)
    → alloc_loop n a (xs ++ b ∷ ys) ≡ none
    → b.used ≡ false
    → b.size < n
unfolding alloc_loop
no_room n a [] ys b h f =
    let e = skip-none b (alloc_loop n (a + header + b.size) ys) in ground arith
no_room n a (x ∷ xs) ys b h f =
    let e = skip-none x (alloc_loop n (a + header + x.size) (xs ++ b ∷ ys)) in
    no_room n (a + header + x.size) xs ys b (ground arith) f

-- `kmalloc` traps only if no free block has the size asked for.
pub kmalloc_trap :
    (n start : ℕ) (bs : List Block)
    → kmalloc n start bs ≡ trap
    → (xs ys : List Block) (b : Block) → bs ≡ xs ++ b ∷ ys
    → b.used ≡ false
    → b.size < round_up n
unfolding kmalloc
kmalloc_trap n start bs h xs ys b e f =
    no_room (round_up n) start xs ys b (ap (alloc_loop (round_up n) start) (sym e) ∙ ground arith) f
