-- ===== src/LinkedList/Ends.antt =====
-- The ends of a list of kernel/kern/list.c: `list_enqueue`, `list_dequeue` and `list_pop_back`.
use micro.Prelude.{
  ℕ, zero, suc, ◌^◌, ◌<◌, ◌≡◌, ◌≢◌, refl, sym, ap, subst, ◌∙◌, ◌==◌, if◌then◌else◌, true, false, [],
  ◌∷◌, ◌++◌, put, put_self, sub_size, arith, length, length-append, some, none, ◌≤◌,
}
use micro.LinkedList.{
  Node, Nodes, LinkedList, ListState, link_next, link_prev, set_size, set_tail, set_head,
  list_enqueue, list_dequeue, list_pop_back, list_clear,
}
use micro.LinkedList.Segments.{
  Row, IsSegment, IsFresh, AreApart, IsSegment-put, IsSegment-join, IsSegment-Cut, AreApart-join,
  AreApart-split, apart_from,
}
use micro.LinkedList.Links.{
  link_next-front, link_next-rest, link_next-tail, link_prev-back, link_prev-head,
}

-- The list has the nodes of the row, in both directions.
unfoldable pub IsLinked : ListState → Row → Type 0
IsLinked s xs = IsSegment s.0 0 s.1.head xs s.1.tail 0 × AreApart xs

-- It also counts them.
unfoldable pub IsCounted : ListState → Row → Type 0
IsCounted s xs = IsLinked s xs × (s.1.size ≡ length xs)

fresh_apart : (a d : ℕ) (xs : Row) → IsFresh a xs → AreApart xs → AreApart (xs ++ ((a, d) ∷ []))
unfolding AreApart IsFresh
fresh_apart a d xs fr apart =
    AreApart-join xs ((a, d) ∷ []) apart (record {}, record {}) (apart_from a d xs fr)

-- A list that counts its nodes gets the new node behind the others, if `kmalloc` gives none of its
-- addresses and not null, and the count does not wrap.
pub list_enqueue-IsCounted :
    (s : ListState) (xs : Row) (node datum : ℕ)
    → IsCounted s xs
    → node ≢ 0
    → IsFresh node xs
    → suc (length xs) < 2 ^ 64
    → IsCounted (list_enqueue s node datum) (xs ++ ((node, datum) ∷ []))
unfolding IsCounted IsLinked list_enqueue set_size set_tail IsSegment
list_enqueue-IsCounted (h, self) xs node datum ((seg, apart), count) z fr small =
    let v : Node = record { next = 0; prev = self.tail; datum = datum } in
    let s : ListState = (put h node v, self) in
    let w = put_self h node v in
    let old : IsSegment s.0 0 self.head xs self.tail 0 =
      IsSegment-put h 0 self.head self.tail 0 node v xs fr seg in
    let new : IsSegment s.0 self.tail node ((node, datum) ∷ []) node 0 =
      (refl, z, ap (λ m. m.prev) w, ap (λ m. m.datum) w, (ap (λ m. m.next) w, refl)) in
    let front = link_next-front s self.tail 0 node xs apart old in
    let back =
      link_next-rest s self.tail 0 node xs ((node, datum) ∷ []) self.tail node node 0
        (apart_from node datum xs fr) old new in
    let t = link_next s self.tail node in
    (
      (
        IsSegment-join t.0 0 t.1.head self.tail node node 0 xs ((node, datum) ∷ []) front back,
        fresh_apart node datum xs fr apart,
      ),
      omega (arith, length-append xs ((node, datum) ∷ [])),
    )

dequeue_node :
    (h : Nodes) (self : LinkedList)
    → self.head ≢ 0
    → list_dequeue (h, self) ≡ (
      (h self.head).datum,
      set_size
          (link_prev (set_head (h, self) (h self.head).next) (h self.head).next 0)
          (sub_size self.size 1),
    )
unfolding list_dequeue
dequeue_node h self z = let t : (self.head == 0) ≡ false = ground arith in rw (t) refl

pop_node :
    (h : Nodes) (self : LinkedList)
    → self.tail ≢ 0
    → list_pop_back (h, self) ≡ (
      (h self.tail).datum,
      set_size
          (link_next (set_tail (h, self) (h self.tail).prev) (h self.tail).prev 0)
          (sub_size self.size 1),
    )
unfolding list_pop_back
pop_node h self z = let t : (self.tail == 0) ≡ false = ground arith in rw (t) refl

-- The first node of a list is taken, and its datum is what is returned.
pub list_dequeue-IsLinked :
    (s : ListState) (a d : ℕ) (xs : Row)
    → IsLinked s ((a, d) ∷ xs)
    → ((list_dequeue s).0 ≡ d)
      × IsLinked (list_dequeue s).1 xs
      × ((list_dequeue s).1.1.size ≡ sub_size s.1.size 1)
unfolding IsLinked IsSegment AreApart set_size set_head
list_dequeue-IsLinked (h, self) a d xs ((e, z, q, r, seg), apart) =
    let next = (h self.head).next in
    let s : ListState = (h, record self { head = next }) in
    let here : IsSegment h a next xs self.tail 0 =
      subst (λ b. IsSegment h a (h b).next xs self.tail 0) (sym e) seg in
    let t = link_prev s next 0 in
    let back : IsSegment t.0 0 next xs t.1.tail 0 = link_prev-back s a 0 next xs apart.1 here in
    let whole =
      subst (λ f. IsSegment t.0 0 f xs t.1.tail 0) (sym (link_prev-head s a 0 next)) back in
    subst (λ p. (p.0 ≡ d) × IsLinked p.1 xs × (p.1.1.size ≡ sub_size self.size 1))
      (sym (dequeue_node h self (subst (λ a. a ≢ 0) (sym e) z)))
      (ap (λ b. (h b).datum) e ∙ r, (whole, apart.1), refl)

-- A list that counts its nodes does so after it.
pub list_dequeue-IsCounted :
    (s : ListState) (a d : ℕ) (xs : Row)
    → IsCounted s ((a, d) ∷ xs)
    → suc (length xs) < 2 ^ 64
    → ((list_dequeue s).0 ≡ d) × IsCounted (list_dequeue s).1 xs
unfolding IsCounted
list_dequeue-IsCounted s a d xs (linked, count) small =
    let (r, rest, size) = list_dequeue-IsLinked s a d xs linked in
    (r, (rest, omega (arith, size, count)))

-- The last node of a list that counts its nodes is taken, and its datum is what is returned.
pub list_pop_back-IsCounted :
    (s : ListState) (a d : ℕ) (xs : Row)
    → IsCounted s (xs ++ ((a, d) ∷ []))
    → suc (length xs) < 2 ^ 64
    → ((list_pop_back s).0 ≡ d) × IsCounted (list_pop_back s).1 xs
unfolding IsCounted IsLinked IsSegment set_size set_tail
list_pop_back-IsCounted (h, self) a d xs ((seg, apart), count) small =
    let c = IsSegment-Cut h 0 self.head self.tail 0 xs ((a, d) ∷ []) seg in
    let (e, z, q, r, (u, v)) = c.right in
    let prev = (h self.tail).prev in
    let last : c.last ≡ prev = sym (ap (λ b. (h b).prev) v ∙ q) in
    let s : ListState = (h, record self { tail = prev }) in
    let front : IsSegment h 0 self.head xs prev c.next =
      subst (λ l. IsSegment h 0 self.head xs l c.next) last c.left in
    let alone = (AreApart-split xs ((a, d) ∷ []) apart).0 in
    let t = link_next s prev 0 in
    let all : IsSegment t.0 0 t.1.head xs prev 0 = link_next-front s prev c.next 0 xs alone front in
    let whole =
      subst (λ l. IsSegment t.0 0 t.1.head xs l 0) (sym (link_next-tail s prev c.next 0)) all in
    subst (λ p. (p.0 ≡ d) × IsCounted p.1 xs) (sym (pop_node h self (subst (λ a. a ≢ 0) (sym v) z)))
      (
        ap (λ b. (h b).datum) v ∙ r,
        ((whole, alone), omega (arith, count, length-append xs ((a, d) ∷ []))),
      )

pub list_dequeue-empty : (s : ListState) → IsLinked s [] → list_dequeue s ≡ (0, s)
unfolding IsLinked IsSegment list_dequeue
list_dequeue-empty (h, self) ((e, q), apart) =
    let t : (self.head == 0) ≡ true = ground arith in rw (t) refl

-- `list_clear`, with fuel for its nodes, ends with an empty list.
pub list_clear-IsCounted :
    (xs : Row) (s : ListState) (fuel : ℕ)
    → IsCounted s xs
    → length xs ≤ fuel
    → length xs < 2 ^ 64
    → (e : ListState) × (list_clear fuel s ≡ some e) × IsCounted e []
unfolding list_clear IsCounted
list_clear-IsCounted [] s zero is enough small =
    let t : (s.1.size == 0) ≡ true = ground (arith, is.1) in (s, rw (t) refl, is)
list_clear-IsCounted [] s (suc fuel) is enough small =
    let t : (s.1.size == 0) ≡ true = ground (arith, is.1) in (s, rw (t) refl, is)
list_clear-IsCounted (x ∷ xs) s zero is enough small = let bad : ⊥ = omega arith in elim bad [ ]
list_clear-IsCounted ((a, d) ∷ xs) s (suc fuel) is enough small =
    let t : (s.1.size == 0) ≡ false = ground (arith, is.1) in
    let (e, q, empty) =
      list_clear-IsCounted xs (list_dequeue s).1 fuel (list_dequeue-IsCounted s a d xs is small).1
        (omega arith) (omega arith) in
    (e, ap (λ b. if b then some s else list_clear fuel (list_dequeue s).1) t ∙ q, empty)

-- On a list that counts more nodes than it has, `list_clear` never ends, whatever the fuel.
pub list_clear-endless :
    (fuel : ℕ) (s : ListState) (xs : Row)
    → IsLinked s xs
    → length xs < s.1.size
    → s.1.size < 2 ^ 64
    → list_clear fuel s ≡ none
unfolding list_clear
list_clear-endless zero s xs is more small =
    let t : (s.1.size == 0) ≡ false = ground arith in rw (t) refl
list_clear-endless (suc fuel) s [] is more small =
    let t : (s.1.size == 0) ≡ false = ground arith in
    ap (λ b. if b then some s else list_clear fuel (list_dequeue s).1) t
    ∙ ap (λ p. list_clear fuel p.1) (list_dequeue-empty s is)
    ∙ list_clear-endless fuel s [] is more small
list_clear-endless (suc fuel) s ((a, d) ∷ xs) is more small =
    let t : (s.1.size == 0) ≡ false = ground arith in
    let (r, rest, size) = list_dequeue-IsLinked s a d xs is in
    ap (λ b. if b then some s else list_clear fuel (list_dequeue s).1) t
    ∙ list_clear-endless fuel (list_dequeue s).1 xs rest (omega (arith, size)) (omega (arith, size))
