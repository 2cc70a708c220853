-- ===== src/LinkedList/Middle.antt =====
-- The nodes in the middle of a list of kernel/kern/list.c: `list_get` and `list_remove`.
use micro.Prelude.{
  ℕ, ◌≡◌, refl, sym, ap, subst, ◌∙◌, [], ◌∷◌, ◌++◌, length, Bool-cases, inl, inr, ◌==◌,
}
use micro.LinkedList.{Nodes, ListState, link_next, link_prev, node_at, list_get, list_remove}
use micro.LinkedList.Segments.{
  Row, IsSegment, IsFresh, AreApart, AreDisjoint, IsSegment-join, IsSegment-Cut, AreApart-join,
  AreApart-split,
}
use micro.LinkedList.Links.{
  link_next-front, link_next-rest, link_next-tail, link_prev-back, link_prev-rest, link_prev-head,
}
use micro.LinkedList.Ends.{IsLinked}

pub disjoint_rest :
    (xs ys : Row) (b e : ℕ) → AreDisjoint xs ((b, e) ∷ ys) → IsFresh b xs × AreDisjoint xs ys
unfolding AreDisjoint IsFresh
disjoint_rest [] ys b e d = (record {}, record {})
disjoint_rest ((a, c) ∷ xs) ys b e ((ne, fr), d) =
    let (i, j) = disjoint_rest xs ys b e d in (((λ q. ne (sym q)), i), (fr, j))

disjoint_sym : (xs ys : Row) → AreDisjoint xs ys → AreDisjoint ys xs
unfolding AreDisjoint IsFresh
disjoint_sym xs [] d = record {}
disjoint_sym xs ((b, e) ∷ ys) d =
    let (i, j) = disjoint_rest xs ys b e d in (i, disjoint_sym xs ys j)

pub node_at-IsSegment :
    (h : Nodes) (p f l n : ℕ) (xs : Row) → IsSegment h p f xs l n → node_at h f (length xs) ≡ n
unfolding node_at IsSegment
node_at-IsSegment h p f l n [] (e, q) = e
node_at-IsSegment h p f l n ((a, d) ∷ xs) (e, z, q, r, s) =
    ap (λ b. node_at h (h b).next (length xs)) e ∙ node_at-IsSegment h a (h a).next l n xs s

-- What two links do between the nodes `k` and `g` of two parts of a list.
module _ (s : ListState) (xs ys : Row) (p k g g' l' n' : ℕ) (apart : AreApart xs)
    (apart' : AreApart ys) (d : AreDisjoint xs ys) (front : IsSegment s.0 0 s.1.head xs k g)
    (back : IsSegment s.0 p g' ys s.1.tail 0) where
  -- First backwards, then forwards.
  pub both_links :
      (p' : ℕ)
      → IsSegment
          (link_next (link_prev s g' p') k n').0
          0
          (link_next (link_prev s g' p') k n').1.head
          xs
          k
          n'
        × IsSegment
            (link_next (link_prev s g' p') k n').0
            p'
            g'
            ys
            (link_next (link_prev s g' p') k n').1.tail
            0
  both_links p' =
      let r = link_prev s g' p' in
      let f : IsSegment r.0 0 r.1.head xs k g =
        subst (λ a. IsSegment r.0 0 a xs k g) (sym (link_prev-head s p p' g'))
          (link_prev-rest s p p' g' xs ys 0 s.1.head k g (disjoint_sym xs ys d) back front) in
      let b : IsSegment r.0 p' g' ys r.1.tail 0 = link_prev-back s p p' g' ys apart' back in
      let t = link_next r k n' in
      (
        link_next-front r k g n' xs apart f,
        subst (λ a. IsSegment t.0 p' g' ys a 0) (sym (link_next-tail r k g n'))
            (link_next-rest r k g n' xs ys p' g' r.1.tail 0 d f b),
      )

  -- First forwards, then backwards.
  pub both_links_back :
      (p' : ℕ)
      → IsSegment
          (link_prev (link_next s k n') g' p').0
          0
          (link_prev (link_next s k n') g' p').1.head
          xs
          k
          n'
        × IsSegment
            (link_prev (link_next s k n') g' p').0
            p'
            g'
            ys
            (link_prev (link_next s k n') g' p').1.tail
            0
  both_links_back p' =
      let r = link_next s k n' in
      let f : IsSegment r.0 0 r.1.head xs k n' = link_next-front s k g n' xs apart front in
      let b : IsSegment r.0 p g' ys r.1.tail 0 =
        subst (λ a. IsSegment r.0 p g' ys a 0) (sym (link_next-tail s k g n'))
          (link_next-rest s k g n' xs ys p g' s.1.tail 0 d front back) in
      let t = link_prev r g' p' in
      (
        subst (λ a. IsSegment t.0 0 a xs k n') (sym (link_prev-head r p p' g'))
            (link_prev-rest r p p' g' xs ys 0 r.1.head k n' (disjoint_sym xs ys d) b f),
        link_prev-back r p p' g' ys apart' b,
      )

  -- The nodes of neither part are kept.
  pub both_links-rest :
      (zs : Row) (p' q f l m : ℕ)
      → AreDisjoint xs zs
      → AreDisjoint ys zs
      → IsSegment s.0 q f zs l m
      → IsSegment (link_next (link_prev s g' p') k n').0 q f zs l m
  both_links-rest zs p' q f l m u v w =
      let r = link_prev s g' p' in
      let a : IsSegment r.0 0 r.1.head xs k g =
        subst (λ a. IsSegment r.0 0 a xs k g) (sym (link_prev-head s p p' g'))
          (link_prev-rest s p p' g' xs ys 0 s.1.head k g (disjoint_sym xs ys d) back front) in
      link_next-rest r k g n' xs zs q f l m u a (link_prev-rest s p p' g' zs ys q f l m v back w)

  pub both_links_back-rest :
      (zs : Row) (p' q f l m : ℕ)
      → AreDisjoint xs zs
      → AreDisjoint ys zs
      → IsSegment s.0 q f zs l m
      → IsSegment (link_prev (link_next s k n') g' p').0 q f zs l m
  both_links_back-rest zs p' q f l m u v w =
      let r = link_next s k n' in
      let b : IsSegment r.0 p g' ys r.1.tail 0 =
        subst (λ a. IsSegment r.0 p g' ys a 0) (sym (link_next-tail s k g n'))
          (link_next-rest s k g n' xs ys p g' s.1.tail 0 d front back) in
      link_prev-rest r p p' g' zs ys q f l m v b (link_next-rest s k g n' xs zs q f l m u front w)

links-size : (s : ListState) (g p k n : ℕ) → (link_next (link_prev s g p) k n).1.size ≡ s.1.size
unfolding link_next link_prev
links-size (h, self) g p k n = elim (Bool-cases (g == 0)) [
  | inl a ↦ elim (Bool-cases (k == 0)) [ inl b ↦ rw (a, b) refl | inr b ↦ rw (a, b) refl ]
  | inr a ↦ elim (Bool-cases (k == 0)) [ inl b ↦ rw (a, b) refl | inr b ↦ rw (a, b) refl ]
]

-- The datum at a place of a list is that of its node.
pub list_get-IsLinked :
    (s : ListState) (xs ys : Row) (a d : ℕ)
    → IsLinked s (xs ++ ((a, d) ∷ ys))
    → list_get s (length xs) ≡ d
unfolding IsLinked list_get IsSegment
list_get-IsLinked (h, self) xs ys a d (seg, apart) =
    let c = IsSegment-Cut h 0 self.head self.tail 0 xs ((a, d) ∷ ys) seg in
    let (e, z, q, r, rest) = c.right in
    ap (λ b. (h b).datum) (node_at-IsSegment h 0 self.head c.last c.next xs c.left ∙ e) ∙ r

removed :
    (s : ListState) (i a : ℕ)
    → node_at s.0 s.1.head i ≡ a
    → list_remove s i
      ≡ ((s.0 a).datum, link_next (link_prev s (s.0 a).next (s.0 a).prev) (s.0 a).prev (s.0 a).next)
unfolding list_remove
removed (h, self) i a e =
    ap
      (λ b.
        ((h b).datum, link_next (link_prev (h, self) (h b).next (h b).prev) (h b).prev (h b).next))
      e

-- The node at a place of a list is taken out and its datum returned. The count stays what it was.
pub list_remove-IsLinked :
    (s : ListState) (xs ys : Row) (a d : ℕ)
    → IsLinked s (xs ++ ((a, d) ∷ ys))
    → ((list_remove s (length xs)).0 ≡ d)
      × IsLinked (list_remove s (length xs)).1 (xs ++ ys)
      × ((list_remove s (length xs)).1.1.size ≡ s.1.size)
unfolding IsLinked IsSegment AreApart
list_remove-IsLinked s xs ys a d (seg, apart) =
    let h = s.0 in
    let c = IsSegment-Cut h 0 s.1.head s.1.tail 0 xs ((a, d) ∷ ys) seg in
    let (e, z, q, r, back) = c.right in
    let (u, v, w) = AreApart-split xs ((a, d) ∷ ys) apart in
    let w' = (disjoint_rest xs ys a d w).1 in
    let k = (h a).prev in
    let n = (h a).next in
    let front : IsSegment h 0 s.1.head xs k c.next =
      subst (λ l. IsSegment h 0 s.1.head xs l c.next) (sym q) c.left in
    let (f, b) = both_links s xs ys a k c.next n s.1.tail n u v.1 w' front back k in
    let t = link_next (link_prev s n k) k n in
    let all = IsSegment-join t.0 0 t.1.head k n t.1.tail 0 xs ys f b in
    subst
      (λ p.
        (p.0 ≡ d)
        × (IsSegment p.1.0 0 p.1.1.head (xs ++ ys) p.1.1.tail 0 × AreApart (xs ++ ys))
        × (p.1.1.size ≡ s.1.size))
      (sym (removed s (length xs) a (node_at-IsSegment h 0 s.1.head c.last c.next xs c.left ∙ e)))
      (r, (all, AreApart-join xs ys u v.1 w'), links-size s n k k n)
