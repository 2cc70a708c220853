-- ===== src/LinkedList/Segments.antt =====
-- The nodes of a list of kernel/kern/list.c in their order, and what the two links of a node change.
use micro.Prelude.{
  ℕ, ◌≡◌, ◌≢◌, refl, sym, ap, subst, ◌∙◌, List, [], ◌∷◌, ◌++◌, put, put_self, put_ne,
}
use micro.LinkedList.{Node, Nodes}

-- The addresses of nodes with their data.
abbrev pub Row : Type 0
Row = List (ℕ × ℕ)

-- From the node `f` behind `p` on, the nodes are those of the row, the last is `l` and `n` follows it.
unfoldable pub IsSegment : Nodes → (p f : ℕ) → Row → (l n : ℕ) → Type 0
IsSegment h p f [] l n = (f ≡ n) × (l ≡ p)
IsSegment h p f ((a, d) ∷ xs) l n =
    (f ≡ a) × (a ≢ 0) × ((h a).prev ≡ p) × ((h a).datum ≡ d) × IsSegment h a (h a).next xs l n

unfoldable pub IsFresh : ℕ → Row → Type 0
IsFresh a [] = Unit
IsFresh a ((b, d) ∷ xs) = (a ≢ b) × IsFresh a xs

-- The addresses are apart.
unfoldable pub AreApart : Row → Type 0
AreApart [] = Unit
AreApart ((a, d) ∷ xs) = IsFresh a xs × AreApart xs

pub IsFresh-append : (a : ℕ) (xs ys : Row) → IsFresh a (xs ++ ys) → IsFresh a xs × IsFresh a ys
unfolding IsFresh
IsFresh-append a [] ys h = (record {}, h)
IsFresh-append a ((b, d) ∷ xs) ys (n, h) = let (i, j) = IsFresh-append a xs ys h in ((n, i), j)

pub append-IsFresh : (a : ℕ) (xs ys : Row) → IsFresh a xs → IsFresh a ys → IsFresh a (xs ++ ys)
unfolding IsFresh
append-IsFresh a [] ys h k = k
append-IsFresh a ((b, d) ∷ xs) ys (n, h) k = (n, append-IsFresh a xs ys h k)

-- No address of the one row is in the other.
unfoldable pub AreDisjoint : Row → Row → Type 0
AreDisjoint [] ys = Unit
AreDisjoint ((a, d) ∷ xs) ys = IsFresh a ys × AreDisjoint xs ys

pub AreApart-split :
    (xs ys : Row) → AreApart (xs ++ ys) → AreApart xs × AreApart ys × AreDisjoint xs ys
unfolding AreApart AreDisjoint
AreApart-split [] ys h = (record {}, h, record {})
AreApart-split ((a, d) ∷ xs) ys (f, h) =
    let (i, j, k) = AreApart-split xs ys h in
    let (u, v) = IsFresh-append a xs ys f in ((u, i), j, (v, k))

pub AreApart-join :
    (xs ys : Row) → AreApart xs → AreApart ys → AreDisjoint xs ys → AreApart (xs ++ ys)
unfolding AreApart AreDisjoint
AreApart-join [] ys h k d = k
AreApart-join ((a, e) ∷ xs) ys (f, h) k (u, d) =
    (append-IsFresh a xs ys f u, AreApart-join xs ys h k d)

-- A write to another node.
pub IsSegment-put :
    (h : Nodes) (p f l n a : ℕ) (v : Node) (xs : Row)
    → IsFresh a xs
    → IsSegment h p f xs l n
    → IsSegment (put h a v) p f xs l n
unfolding IsSegment IsFresh
IsSegment-put h p f l n a v [] fr s = s
IsSegment-put h p f l n a v ((b, d) ∷ xs) (ne, fr) (e, z, q, r, s) =
    let same : put h a v b ≡ h b = put_ne h a b v ne in
    (
      e,
      z,
      ap (λ m. m.prev) same ∙ q,
      ap (λ m. m.datum) same ∙ r,
      subst (λ m. IsSegment (put h a v) b m.next xs l n) (sym same)
          (IsSegment-put h b (h b).next l n a v xs fr s),
    )

-- Two segments are one.
pub IsSegment-join :
    (h : Nodes) (p f k g l n : ℕ) (xs ys : Row)
    → IsSegment h p f xs k g
    → IsSegment h k g ys l n
    → IsSegment h p f (xs ++ ys) l n
unfolding IsSegment
IsSegment-join h p f k g l n [] ys (e, q) s =
    subst (λ p. IsSegment h p f ys l n) q (subst (λ f. IsSegment h k f ys l n) (sym e) s)
IsSegment-join h p f k g l n ((a, d) ∷ xs) ys (e, z, q, r, t) s =
    (e, z, q, r, IsSegment-join h a (h a).next k g l n xs ys t s)

-- Where a segment is cut, the node before it and the node after it.
pub record Cut (h : Nodes) (p f l n : ℕ) (xs ys : Row) : Type 0 where
  pub last : ℕ
  pub next : ℕ
  pub left : IsSegment h p f xs last next
  pub right : IsSegment h last next ys l n

pub IsSegment-Cut :
    (h : Nodes) (p f l n : ℕ) (xs ys : Row) → IsSegment h p f (xs ++ ys) l n → Cut h p f l n xs ys
unfolding IsSegment
IsSegment-Cut h p f l n [] ys s = record { last = p; next = f; left = (refl, refl); right = s }
IsSegment-Cut h p f l n ((a, d) ∷ xs) ys (e, z, q, r, s) =
    let c = IsSegment-Cut h a (h a).next l n xs ys s in
    record { last = c.last; next = c.next; left = (e, z, q, r, c.left); right = c.right }

-- The last node is none of another row's, and not null.
pub last_of :
    (h : Nodes) (p f l n : ℕ) (x : ℕ × ℕ) (xs ys : Row)
    → AreDisjoint (x ∷ xs) ys
    → IsSegment h p f (x ∷ xs) l n
    → (l ≢ 0) × IsFresh l ys
unfolding IsSegment AreDisjoint
last_of h p f l n (a, d) [] ys (fr, r) (e, z, q, t, (u, v)) =
    (subst (λ l. l ≢ 0) (sym v) z, subst (λ l. IsFresh l ys) (sym v) fr)
last_of h p f l n (a, d) (x ∷ xs) ys (fr, r) (e, z, q, t, s) =
    last_of h a (h a).next l n x xs ys r s

pub apart_from : (a d : ℕ) (xs : Row) → IsFresh a xs → AreDisjoint xs ((a, d) ∷ [])
unfolding AreDisjoint IsFresh
apart_from a d [] fr = record {}
apart_from a d ((b, e) ∷ xs) (ne, fr) = ((λ q. ne (sym q), record {}), apart_from a d xs fr)

-- The last node gets another that follows it.
pub put_next :
    (h : Nodes) (p f l n n' : ℕ) (x : ℕ × ℕ) (xs : Row)
    → AreApart (x ∷ xs)
    → IsSegment h p f (x ∷ xs) l n
    → IsSegment (put h l (record (h l) { next = n' })) p f (x ∷ xs) l n'
unfolding IsSegment AreApart IsFresh
put_next h p f l n n' (a, d) [] ap' (e, z, q, t, (u, v)) =
    subst (λ l. IsSegment (put h l (record (h l) { next = n' })) p f ((a, d) ∷ []) l n') (sym v)
      here
  where
    here : IsSegment (put h a (record (h a) { next = n' })) p f ((a, d) ∷ []) a n'
    here =
        let w = put_self h a (record (h a) { next = n' }) in
        (e, z, ap (λ m. m.prev) w ∙ q, ap (λ m. m.datum) w ∙ t, (ap (λ m. m.next) w, refl))
put_next h p f l n n' (a, d) (x ∷ xs) (fr, apart) (e, z, q, t, s) =
    let other : l ≢ a =
      (last_of h a (h a).next l n x xs ((a, d) ∷ []) (apart_from a d (x ∷ xs) fr) s).1.0 in
    let same : put h l (record (h l) { next = n' }) a ≡ h a =
      put_ne h l a (record (h l) { next = n' }) other in
    (
      e,
      z,
      ap (λ m. m.prev) same ∙ q,
      ap (λ m. m.datum) same ∙ t,
      subst (λ m. IsSegment (put h l (record (h l) { next = n' })) a m.next (x ∷ xs) l n')
          (sym same) (put_next h a (h a).next l n n' x xs apart s),
    )

-- The first node gets another before it.
pub put_prev :
    (h : Nodes) (p p' f l n : ℕ) (x : ℕ × ℕ) (xs : Row)
    → AreApart (x ∷ xs)
    → IsSegment h p f (x ∷ xs) l n
    → IsSegment (put h f (record (h f) { prev = p' })) p' f (x ∷ xs) l n
unfolding IsSegment AreApart
put_prev h p p' f l n (a, d) xs (fr, apart) (e, z, q, t, s) =
    subst (λ f. IsSegment (put h f (record (h f) { prev = p' })) p' f ((a, d) ∷ xs) l n) (sym e)
      here
  where
    here : IsSegment (put h a (record (h a) { prev = p' })) p' a ((a, d) ∷ xs) l n
    here =
        let v : Node = record (h a) { prev = p' } in
        let w = put_self h a v in
        (
          refl,
          z,
          ap (λ m. m.prev) w,
          ap (λ m. m.datum) w ∙ t,
          subst (λ m. IsSegment (put h a v) a m.next xs l n) (sym w)
              (IsSegment-put h a (h a).next l n a v xs fr s),
        )
