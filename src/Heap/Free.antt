-- ===== src/Heap/Free.antt =====
-- `kfree` of kernel/kern/heap.c on the map of live blocks.
use micro.Prelude.{
  ℕ, ◌+◌, ◌%◌, ◌^◌, ◌≤◌, ◌<◌, ◌≡◌, ◌≢◌, refl, sym, ap, ◌∙◌, Bool, true, false, none, some, List, [],
  ◌∷◌, subst, ◌==◌, arith, Bool-cases, inl, inr,
}
use micro.Heap.{Block, header, combine, merge_next, kfree_from, kfree}
use micro.Heap.Live.{span, Tidy, live, Adds, IsHeap, live_below, Tidy-weaken}

-- The freed block `f` at `a`, once its neighbour is merged in.
merge_next-lem :
    (a : ℕ) (f : Block) (cs : List Block)
    → f.used ≡ false
    → f.size % 32 ≡ 0
    → Tidy true cs
    → span (f ∷ cs) < 2 ^ 64
    → Tidy true (merge_next f cs)
      × (span (merge_next f cs) ≡ span (f ∷ cs))
      × ((q : ℕ) → live q a (merge_next f cs) ≡ live q a (f ∷ cs))
unfolding merge_next combine span Tidy live
merge_next-lem a f [] w m t s = ((m, refl, tt), refl, λ q. refl)
merge_next-lem a f (c ∷ cs) w m (k, o, t) s = elim (Bool-cases c.used) [
  | inl v ↦ rw (v) ((m, refl, (k, ground arith, rw (sym v) t)), refl, λ q. refl)
  | inr v ↦
      let e : a + header + ((f.size + (c.size + header) % 2 ^ 64) % 2 ^ 64)
          ≡ a + header + f.size + header + c.size =
        omega arith in
      let same : (q : ℕ)
          → live q (a + header + ((f.size + (c.size + header) % 2 ^ 64) % 2 ^ 64)) cs
            ≡ live q (a + header + f.size + header + c.size) cs =
        λ q. ap (λ x. live q x cs) e in
      let gap : (q : ℕ)
          → q ≡ a + header + f.size + header
          → live q (a + header + f.size + header + c.size) cs ≡ none =
        λ q x. live_below q (a + header + f.size + header + c.size) cs (omega arith) in
      rw (v) (
        (omega arith, refl, subst (λ u. Tidy u cs) (v ∙ sym w) t),
        omega arith,
        λ q. let g = gap q in let sm = same q in ground arith,
      )
]

-- The freed block `c` at `a + header + b.size`, taken into a free block `b` before it.
combine-live :
    (a : ℕ) (b c : Block) (cs : List Block)
    → b.used ≡ false
    → span (b ∷ c ∷ cs) < 2 ^ 64
    → Adds
        (a + header + b.size + header)
        none
        (λ q. live q a (b ∷ c ∷ cs))
        (λ q. live q a (combine b c ∷ cs))
unfolding combine span live
combine-live a b c cs w s =
    let p : ℕ = a + header + b.size + header in
    let e : a + header + ((b.size + (c.size + header) % 2 ^ 64) % 2 ^ 64) ≡ p + c.size =
      omega arith in
    let same : (q : ℕ)
        → live q (a + header + ((b.size + (c.size + header) % 2 ^ 64) % 2 ^ 64)) cs
          ≡ live q (p + c.size) cs =
      λ q. ap (λ x. live q x cs) e in
    let gap : live p (p + c.size) cs ≡ none = live_below p (p + c.size) cs (omega arith) in
    let here = same p in
    record { here = ground arith; others = λ q ne. let sm = same q in ground arith }

-- The freed block `c` at `a`, in its place.
clear-live :
    (a : ℕ) (c : Block) (cs : List Block)
    → Adds
        (a + header)
        none
        (λ q. live q a (c ∷ cs))
        (λ q. live q a (record { used = false; size = c.size } ∷ cs))
unfolding live
clear-live a c cs = record { here = ground arith; others = λ q ne. ground arith }

sum_size :
    (b c : Block)
    → b.size % 32 ≡ 0
    → c.size % 32 ≡ 0
    → b.size + c.size + header < 2 ^ 64
    → (combine b c).size % 32 ≡ 0
unfolding combine
sum_size b c k k' h = omega arith

span-combine :
    (b c : Block) (cs : List Block) → span (b ∷ c ∷ cs) < 2 ^ 64 → span (combine b c ∷ cs) < 2 ^ 64
unfolding span combine
span-combine b c cs h = omega arith

-- What freeing the block behind `p` makes of the list `bs` at `a`.
pub record Freed (p a : ℕ) (u : Bool) (bs bs' : List Block) : Type 0 where
  pub tidy : Tidy u bs'
  pub extent : span bs' ≡ span bs
  pub removes : Adds p none (λ q. live q a bs) (λ q. live q a bs')

-- how `kfree_from` ends at the list `bs'`
abbrev Result : (p a : ℕ) (u : Bool) → Block → List Block → Type 0
Result p a u b cs = (bs' : List Block) × (kfree_from p a b cs ≡ some bs') × Freed p a u (b ∷ cs) bs'

module _ (a : ℕ) (u : Bool) (b c : Block) (cs : List Block) where
  keep-Freed :
      b.used ≡ true
      → Tidy u (b ∷ c ∷ cs)
      → span (b ∷ c ∷ cs) < 2 ^ 64
      → Result (a + header + b.size + header) a u b (c ∷ cs)
  unfolding kfree_from live span Tidy
  keep-Freed w (k, o, (k', o', t)) s =
      let a' : ℕ = a + header + b.size in
      let p : ℕ = a' + header in
      let freed : Block = record { used = false; size = c.size } in
      let cleared = clear-live a' c cs in
      let c0 = cleared.here in
      let m = merge_next-lem a' freed cs refl k' (Tidy-weaken c.used cs t) (omega arith) in
      let m0 = m.2 p in
      (
        b ∷ merge_next freed cs,
        ground arith,
        record {
          tidy = (k, o, subst (λ v. Tidy v (merge_next freed cs)) (sym w) m.0);
          extent = omega (arith, m.1);
          removes = record {
            here = ground arith;
            others = λ q ne. let mq = m.2 q in let cq = cleared.others q ne in ground arith;
          };
        },
      )

  join-Freed :
      b.used ≡ false
      → Tidy u (b ∷ c ∷ cs)
      → span (b ∷ c ∷ cs) < 2 ^ 64
      → Result (a + header + b.size + header) a u b (c ∷ cs)
  unfolding kfree_from span Tidy combine live
  join-Freed w (k, o, (k', o', t)) s =
      let a' : ℕ = a + header + b.size in
      let freed : Block = record { used = false; size = c.size } in
      let cleared = clear-live a' c cs in
      let one = combine b freed in
      let size_ok : one.size % 32 ≡ 0 = sum_size b freed k k' (omega arith) in
      let m =
        merge_next-lem a one cs w size_ok (Tidy-weaken c.used cs t) (span-combine b freed cs s) in
      let first : u ≡ true = ground arith in
      let joined = combine-live a b freed cs w s in
      (
        merge_next one cs,
        ground arith,
        record {
          tidy = subst (λ v. Tidy v (merge_next one cs)) (sym first) m.0;
          extent = m.1 ∙ omega arith;
          removes = record {
            here = m.2 (a' + header) ∙ joined.here;
            others = λ q ne.
                let cq = cleared.others q ne in
                let rest : live q a (b ∷ freed ∷ cs) ≡ live q a (b ∷ c ∷ cs) = ground arith in
                m.2 q ∙ joined.others q ne ∙ rest;
          };
        },
      )

  next-Freed :
      (p : ℕ)
      → a + header + b.size + header ≢ p
      → a + header + b.size + header ≤ p
      → Tidy u (b ∷ c ∷ cs)
      → Result p (a + header + b.size) b.used c cs
      → Result p a u b (c ∷ cs)
  unfolding kfree_from span Tidy live
  next-Freed p ne above (k, o, t) (bs', f, r) =
      let r0 = r.removes.here in
      (
        b ∷ bs',
        ground arith,
        record {
          tidy = (k, o, r.tidy);
          extent = omega (arith, r.extent);
          removes = record {
            here = ground arith;
            others = λ q ne'. let rq = r.removes.others q ne' in ground arith;
          };
        },
      )

live-above : (p a n : ℕ) (bs : List Block) → live p a bs ≡ some n → a + header ≤ p
unfolding live
live-above p a n [] h = cc
live-above p a n (b ∷ bs) h = let ih = live-above p (a + header + b.size) n bs in ground arith

kfree_from-Freed :
    (p a n : ℕ) (u : Bool) (b : Block) (cs : List Block)
    → Tidy u (b ∷ cs)
    → span (b ∷ cs) < 2 ^ 64
    → live p (a + header + b.size) cs ≡ some n
    → Result p a u b cs
unfolding live span Tidy
kfree_from-Freed p a n u b [] t s l = cc
kfree_from-Freed p a n u b (c ∷ cs) t s l =
    let above = live-above p (a + header + b.size) n (c ∷ cs) l in
    let small : span (c ∷ cs) < 2 ^ 64 = omega arith in
    let ih = kfree_from-Freed p (a + header + b.size) n b.used c cs t.2 small in
    elim (Bool-cases (a + header + b.size + header == p)) [
      | inl e ↦
          let at : a + header + b.size + header ≡ p = ground arith in
          subst (λ x. Result x a u b (c ∷ cs)) at
            (elim (Bool-cases b.used) [
              | inl w ↦ keep-Freed a u b c cs w t s
              | inr w ↦ join-Freed a u b c cs w t s
            ])
      | inr e ↦ next-Freed a u b c cs p (ground arith) above t (ih (ground arith))
    ]

Tidy-parts :
    (u : Bool) (b : Block) (bs : List Block) → Tidy u (b ∷ bs) → (b.size % 32 ≡ 0) × Tidy b.used bs
unfolding Tidy
Tidy-parts u b bs (k, o, t) = (k, t)

module _ (b : Block) (bs : List Block) where
  span-same : span (record { used = false; size = b.size } ∷ bs) ≡ span (b ∷ bs)
  unfolding span
  span-same = refl

  span-freed : span (b ∷ bs) < 2 ^ 64 → span (record { used = false; size = b.size } ∷ bs) < 2 ^ 64
  unfolding span
  span-freed h = h

-- In a heap that keeps its invariant, `kfree` of the pointer to a live block ends, takes exactly that
-- block from the live ones, and keeps the invariant and the extent: free neighbours are merged.
pub kfree_removes :
    (p start n : ℕ) (bs : List Block)
    → IsHeap bs
    → live p start bs ≡ some n
    → (bs' : List Block) × (kfree p start bs ≡ some bs')
      × IsHeap bs'
      × (span bs' ≡ span bs)
      × Adds p none (λ q. live q start bs) (λ q. live q start bs')
unfolding kfree live
kfree_removes p start n [] v l = cc
kfree_removes p start n (b ∷ bs) v l = elim (Bool-cases (start + header == p)) [
  | inl e ↦
      let at : start + header ≡ p = ground arith in
      let freed : Block = record { used = false; size = b.size } in
      let t = Tidy-parts true b bs v.tidy in
      let m =
        merge_next-lem start freed bs refl t.0 (Tidy-weaken b.used bs t.1)
          (span-freed b bs v.small) in
      let cleared = clear-live start b bs in
      let extent : span (merge_next freed bs) ≡ span (b ∷ bs) = m.1 ∙ span-same b bs in
      (
        merge_next freed bs,
        ground arith,
        record { tidy = m.0; small = subst (λ x. x < 2 ^ 64) (sym extent) v.small },
        extent,
        record {
          here =
              subst (λ x. live x start (merge_next freed bs) ≡ none) at
                (m.2 (start + header) ∙ cleared.here);
          others = λ q ne. m.2 q ∙ cleared.others q (λ x. ne (x ∙ at));
        },
      )
  | inr e ↦
      let (bs', f, r) = kfree_from-Freed p start n true b bs v.tidy v.small (ground arith) in
      (
        bs',
        ground arith,
        record { tidy = r.tidy; small = subst (λ x. x < 2 ^ 64) (sym r.extent) v.small },
        r.extent,
        r.removes,
      )
]
