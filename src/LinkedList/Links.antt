-- ===== src/LinkedList/Links.antt =====
-- What the links of kernel/kern/list.c do to the parts of a list.
use micro.Prelude.{
  ℕ, ◌≡◌, ◌≢◌, refl, sym, subst, ◌==◌, true, false, [], ◌∷◌, put, arith, Bool-cases, inl, inr,
}
use micro.LinkedList.{ListState, link_next, link_prev}
use micro.LinkedList.Segments.{
  Row, IsSegment, IsFresh, AreApart, AreDisjoint, IsSegment-put, last_of, put_next, put_prev,
}

pub link_next_null :
    (s : ListState) (l n : ℕ) → l ≡ 0 → link_next s l n ≡ (s.0, record s.1 { head = n })
unfolding link_next
link_next_null (h, self) l n e = let t : (l == 0) ≡ true = ground arith in rw (t) refl

pub link_next_node :
    (s : ListState) (l n : ℕ)
    → l ≢ 0
    → link_next s l n ≡ (put s.0 l (record (s.0 l) { next = n }), s.1)
unfolding link_next
link_next_node (h, self) l n e = let t : (l == 0) ≡ false = ground arith in rw (t) refl

pub link_prev_null :
    (s : ListState) (f p : ℕ) → f ≡ 0 → link_prev s f p ≡ (s.0, record s.1 { tail = p })
unfolding link_prev
link_prev_null (h, self) f p e = let t : (f == 0) ≡ true = ground arith in rw (t) refl

pub link_prev_node :
    (s : ListState) (f p : ℕ)
    → f ≢ 0
    → link_prev s f p ≡ (put s.0 f (record (s.0 f) { prev = p }), s.1)
unfolding link_prev
link_prev_node (h, self) f p e = let t : (f == 0) ≡ false = ground arith in rw (t) refl

none_disjoint : (xs : Row) → AreDisjoint xs []
unfolding AreDisjoint IsFresh
none_disjoint [] = record {}
none_disjoint (x ∷ xs) = (record {}, none_disjoint xs)

module _ (s : ListState) (l n n' : ℕ) where
  -- The front of a list gets another node behind it.
  pub link_next-front :
      (xs : Row)
      → AreApart xs
      → IsSegment s.0 0 s.1.head xs l n
      → IsSegment (link_next s l n').0 0 (link_next s l n').1.head xs l n'
  unfolding IsSegment AreDisjoint
  link_next-front [] apart (e, q) =
      subst (λ t. IsSegment t.0 0 t.1.head [] l n') (sym (link_next_null s l n' q)) (empty q)
    where
      empty : l ≡ 0 → IsSegment s.0 0 n' [] l n'
      empty q = (refl, q)
  link_next-front (x ∷ xs) apart g =
      let z = (last_of s.0 0 s.1.head l n x xs [] (none_disjoint (x ∷ xs)) g).0 in
      subst (λ t. IsSegment t.0 0 t.1.head (x ∷ xs) l n') (sym (link_next_node s l n' z))
        (put_next s.0 0 s.1.head l n n' x xs apart g)

  -- The rest is kept.
  pub link_next-rest :
      (xs ys : Row) (p f l' m : ℕ)
      → AreDisjoint xs ys
      → IsSegment s.0 0 s.1.head xs l n
      → IsSegment s.0 p f ys l' m
      → IsSegment (link_next s l n').0 p f ys l' m
  unfolding IsSegment AreDisjoint
  link_next-rest [] ys p f l' m d (e, q) k =
      subst (λ t. IsSegment t.0 p f ys l' m) (sym (link_next_null s l n' q)) k
  link_next-rest (x ∷ xs) ys p f l' m d g k =
      let (z, fr) = last_of s.0 0 s.1.head l n x xs ys d g in
      subst (λ t. IsSegment t.0 p f ys l' m) (sym (link_next_node s l n' z))
        (IsSegment-put s.0 p f l' m l (record (s.0 l) { next = n' }) ys fr k)

  pub link_next-tail : (link_next s l n').1.tail ≡ s.1.tail
  unfolding link_next
  link_next-tail = elim (Bool-cases (l == 0)) [ inl a ↦ rw (a) refl | inr a ↦ rw (a) refl ]

module _ (s : ListState) (p p' g : ℕ) where
  -- The back of a list gets another node before it.
  pub link_prev-back :
      (ys : Row)
      → AreApart ys
      → IsSegment s.0 p g ys s.1.tail 0
      → IsSegment (link_prev s g p').0 p' g ys (link_prev s g p').1.tail 0
  unfolding IsSegment AreDisjoint
  link_prev-back [] apart (e, q) =
      subst (λ t. IsSegment t.0 p' g [] t.1.tail 0) (sym (link_prev_null s g p' e)) (e, refl)
  link_prev-back ((a, d) ∷ ys) apart k =
      let z : g ≢ 0 = subst (λ a. a ≢ 0) (sym k.0) k.1 in
      subst (λ t. IsSegment t.0 p' g ((a, d) ∷ ys) t.1.tail 0) (sym (link_prev_node s g p' z))
        (put_prev s.0 p p' g s.1.tail 0 (a, d) ys apart k)

  -- The front is kept.
  pub link_prev-rest :
      (xs ys : Row) (q f l m : ℕ)
      → AreDisjoint ys xs
      → IsSegment s.0 p g ys s.1.tail 0
      → IsSegment s.0 q f xs l m
      → IsSegment (link_prev s g p').0 q f xs l m
  unfolding IsSegment AreDisjoint
  link_prev-rest xs [] q f l m d (e, r) k =
      subst (λ t. IsSegment t.0 q f xs l m) (sym (link_prev_null s g p' e)) k
  link_prev-rest xs ((a, e) ∷ ys) q f l m d b k =
      let z : g ≢ 0 = subst (λ a. a ≢ 0) (sym b.0) b.1 in
      let fr : IsFresh g xs = subst (λ a. IsFresh a xs) (sym b.0) d.0 in
      subst (λ t. IsSegment t.0 q f xs l m) (sym (link_prev_node s g p' z))
        (IsSegment-put s.0 q f l m g (record (s.0 g) { prev = p' }) xs fr k)

  pub link_prev-head : (link_prev s g p').1.head ≡ s.1.head
  unfolding link_prev
  link_prev-head = elim (Bool-cases (g == 0)) [ inl a ↦ rw (a) refl | inr a ↦ rw (a) refl ]
