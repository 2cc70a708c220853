-- ===== src/LinkedList/Inserts.antt =====
-- New nodes in the middle of a list of kernel/kern/list.c: `list_insert_after` and `list_insert_before`.
use micro.Prelude.{
  ℕ, ◌≡◌, ◌≢◌, refl, sym, ap, subst, ◌∙◌, [], ◌∷◌, ◌++◌, put, put_self, length, append_assoc,
}
use micro.LinkedList.{
  Node, ListState, link_next, link_prev, node_at, list_insert_after, list_insert_before,
}
use micro.LinkedList.Segments.{
  Row, IsSegment, IsFresh, AreApart, IsSegment-put, IsSegment-join, IsSegment-Cut, AreApart-split,
  apart_from, IsFresh-append, append-IsFresh,
}
use micro.LinkedList.Ends.{IsLinked}
use micro.LinkedList.Middle.{
  node_at-IsSegment, both_links, both_links-rest, both_links_back, both_links_back-rest,
}

-- A new node between two parts is apart from both.
insert-AreApart :
    (xs ys : Row) (new datum : ℕ)
    → AreApart (xs ++ ys)
    → IsFresh new (xs ++ ys)
    → AreApart (xs ++ ((new, datum) ∷ ys))
unfolding AreApart IsFresh
insert-AreApart [] ys new datum apart fr = (fr, apart)
insert-AreApart ((a, d) ∷ xs) ys new datum (f, apart) (ne, fr) =
    let (i, j) = IsFresh-append a xs ys f in
    (
      append-IsFresh a xs ((new, datum) ∷ ys) i ((λ q. ne (sym q)), j),
      insert-AreApart xs ys new datum apart fr,
    )

inserted_after :
    (s : ListState) (i new datum a : ℕ)
    → node_at s.0 s.1.head i ≡ a
    → list_insert_after s i new datum
      ≡ link_next
          (link_prev
            (put s.0 new (record { next = (s.0 a).next; prev = a; datum = datum }), s.1)
            (s.0 a).next
            new)
          a
          new
unfolding list_insert_after
inserted_after (h, self) i new datum a e =
    ap
      (λ b.
        link_next
          (link_prev (put h new (record { next = (h b).next; prev = b; datum = datum }), self)
            (h b).next new)
          b new)
      e

inserted_before :
    (s : ListState) (i new datum a : ℕ)
    → node_at s.0 s.1.head i ≡ a
    → list_insert_before s i new datum
      ≡ link_prev
          (link_next
            (put s.0 new (record { next = a; prev = (s.0 a).prev; datum = datum }), s.1)
            (s.0 a).prev
            new)
          a
          new
unfolding list_insert_before
inserted_before (h, self) i new datum a e =
    ap
      (λ b.
        link_prev
          (link_next (put h new (record { next = b; prev = (h b).prev; datum = datum }), self)
            (h b).prev new)
          b new)
      e

module _ (s : ListState) (xs ys : Row) (new datum k g : ℕ) (z : new ≢ 0)
    (apart : AreApart (xs ++ ys)) (fr : IsFresh new (xs ++ ys))
    (front : IsSegment s.0 0 s.1.head xs k g) (back : IsSegment s.0 k g ys s.1.tail 0) where
  fresh_node : Node
  fresh_node = record { next = g; prev = k; datum = datum }

  start : ListState
  start = (put s.0 new fresh_node, s.1)

  front' : IsSegment start.0 0 start.1.head xs k g
  unfolding start
  front' = IsSegment-put s.0 0 s.1.head k g new fresh_node xs (IsFresh-append new xs ys fr).0 front

  back' : IsSegment start.0 k g ys start.1.tail 0
  unfolding start
  back' = IsSegment-put s.0 k g s.1.tail 0 new fresh_node ys (IsFresh-append new xs ys fr).1 back

  single : IsSegment start.0 k new ((new, datum) ∷ []) new g
  unfolding IsSegment start fresh_node
  single =
      let w = put_self s.0 new fresh_node in
      (refl, z, ap (λ m. m.prev) w, ap (λ m. m.datum) w, (ap (λ m. m.next) w, refl))

  insert-links : IsLinked (link_next (link_prev start g new) k new) (xs ++ ((new, datum) ∷ ys))
  unfolding IsLinked
  insert-links =
      let (u, v, w) = AreApart-split xs ys apart in
      let (i, j) = IsFresh-append new xs ys fr in
      let (f, b) = both_links start xs ys k k g g start.1.tail new u v w front' back' new in
      let t = link_next (link_prev start g new) k new in
      let one =
        both_links-rest start xs ys k k g g start.1.tail new u v w front' back' ((new, datum) ∷ [])
          new k new new g (apart_from new datum xs i) (apart_from new datum ys j) single in
      (
        IsSegment-join t.0 0 t.1.head k new t.1.tail 0 xs ((new, datum) ∷ ys) f
            (IsSegment-join t.0 k new new g t.1.tail 0 ((new, datum) ∷ []) ys one b),
        insert-AreApart xs ys new datum apart fr,
      )

  insert-links_back : IsLinked (link_prev (link_next start k new) g new) (xs ++ ((new, datum) ∷ ys))
  unfolding IsLinked
  insert-links_back =
      let (u, v, w) = AreApart-split xs ys apart in
      let (i, j) = IsFresh-append new xs ys fr in
      let (f, b) = both_links_back start xs ys k k g g start.1.tail new u v w front' back' new in
      let t = link_prev (link_next start k new) g new in
      let one =
        both_links_back-rest start xs ys k k g g start.1.tail new u v w front' back'
          ((new, datum) ∷ []) new k new new g (apart_from new datum xs i)
          (apart_from new datum ys j) single in
      (
        IsSegment-join t.0 0 t.1.head k new t.1.tail 0 xs ((new, datum) ∷ ys) f
            (IsSegment-join t.0 k new new g t.1.tail 0 ((new, datum) ∷ []) ys one b),
        insert-AreApart xs ys new datum apart fr,
      )

-- A list gets the new node before the one at a place, if `kmalloc` gives none of its addresses and not null.
pub list_insert_before-IsLinked :
    (s : ListState) (xs ys : Row) (a d new datum : ℕ)
    → IsLinked s (xs ++ ((a, d) ∷ ys))
    → new ≢ 0
    → IsFresh new (xs ++ ((a, d) ∷ ys))
    → IsLinked (list_insert_before s (length xs) new datum) (xs ++ ((new, datum) ∷ ((a, d) ∷ ys)))
unfolding IsLinked IsSegment start fresh_node
list_insert_before-IsLinked s xs ys a d new datum (seg, apart) z fr =
    let c = IsSegment-Cut s.0 0 s.1.head s.1.tail 0 xs ((a, d) ∷ ys) seg in
    let (e, nz, q, r, back) = c.right in
    let k = (s.0 a).prev in
    let front : IsSegment s.0 0 s.1.head xs k a =
      subst (λ g. IsSegment s.0 0 s.1.head xs k g) e
        (subst (λ l. IsSegment s.0 0 s.1.head xs l c.next) (sym q) c.left) in
    let rest : IsSegment s.0 k a ((a, d) ∷ ys) s.1.tail 0 = (refl, nz, refl, r, back) in
    subst (λ t. IsLinked t (xs ++ ((new, datum) ∷ ((a, d) ∷ ys))))
      (sym (
        inserted_before s (length xs) new datum a
          (node_at-IsSegment s.0 0 s.1.head c.last c.next xs c.left ∙ e)))
      (insert-links_back s xs ((a, d) ∷ ys) new datum k a z apart fr front rest)

-- A list gets the new node behind the one at a place, if `kmalloc` gives none of its addresses and not null.
pub list_insert_after-IsLinked :
    (s : ListState) (xs ys : Row) (a d new datum : ℕ)
    → IsLinked s (xs ++ ((a, d) ∷ ys))
    → new ≢ 0
    → IsFresh new (xs ++ ((a, d) ∷ ys))
    → IsLinked (list_insert_after s (length xs) new datum) (xs ++ ((a, d) ∷ ((new, datum) ∷ ys)))
unfolding IsLinked IsSegment start fresh_node
list_insert_after-IsLinked s xs ys a d new datum (seg, apart) z fr =
    let c = IsSegment-Cut s.0 0 s.1.head s.1.tail 0 xs ((a, d) ∷ ys) seg in
    let (e, nz, q, r, back) = c.right in
    let n = (s.0 a).next in
    let mid = append_assoc xs ((a, d) ∷ []) ys in
    let one : IsSegment s.0 c.last c.next ((a, d) ∷ []) a n = (e, nz, q, r, (refl, refl)) in
    let front = IsSegment-join s.0 0 s.1.head c.last c.next a n xs ((a, d) ∷ []) c.left one in
    subst (λ t. IsLinked t (xs ++ ((a, d) ∷ ((new, datum) ∷ ys))))
      (sym (
        inserted_after s (length xs) new datum a
          (node_at-IsSegment s.0 0 s.1.head c.last c.next xs c.left ∙ e)))
      (subst
        (IsLinked (
          link_next
            (link_prev (put s.0 new (record { next = n; prev = a; datum = datum }), s.1) n new) a
            new))
        (append_assoc xs ((a, d) ∷ []) ((new, datum) ∷ ys))
        (insert-links s (xs ++ ((a, d) ∷ [])) ys new datum a n z (subst AreApart (sym mid) apart)
          (subst (IsFresh new) (sym mid) fr) front back))
