-- ===== src/Mmu/Frames/Pool.antt =====
-- The frames that are handed out, over a sequence of calls of `mmu_alloc_phys` and `mmu_free_phys`
-- (kernel/arch/amd64/amd64/mmu.c).
use micro.Prelude.{
  ℕ, suc, ◌*◌, ◌/◌, ◌<◌, ◌≡◌, ◌≢◌, refl, sym, ap, subst, ◌∙◌, Bool, true, false, ◌||◌, ◌&&◌, not,
  List, [], ◌∷◌, ◌++◌, ◌==◌, length, arith,
}
use micro.Bitmap.{Bytes, get_bit}
use micro.Bitmap.Bytes.{AreBytes}
use micro.Mmu.Frames.{page, alloc_phys, free_phys}
use micro.Mmu.Frames.Lowest.{Takes, alloc_phys-Takes, free_phys-clears, in_run}

-- The bitmap and the numbers of the frames handed out, after some calls. An allocation that returns
-- the address 0 hands out nothing, and only a frame that was handed out is freed.
pub data Reach (map : Bytes) : Bytes → List ℕ → Type 0 where
  start : Reach map map []
  alloc :
      (m : Bytes) (ns : List ℕ) (n : ℕ)
      → Reach map m ns
      → (alloc_phys m).0 ≡ suc n * page
      → Reach map (alloc_phys m).1 (suc n ∷ ns)
  fail :
      (m : Bytes) (ns : List ℕ)
      → Reach map m ns
      → (alloc_phys m).0 ≡ 0
      → Reach map (alloc_phys m).1 ns
  free :
      (m : Bytes) (ks : List ℕ) (n : ℕ) (ns : List ℕ)
      → Reach map m (ks ++ (n ∷ ns))
      → Reach map (free_phys m (n * page) 1) (ks ++ ns)

-- The number is not in the list.
unfoldable pub Apart : ℕ → List ℕ → Type 0
Apart n [] = Unit
Apart n (m ∷ ms) = (n ≢ m) × Apart n ms

-- The frames differ pairwise.
unfoldable pub AreApart : List ℕ → Type 0
AreApart [] = Unit
AreApart (n ∷ ns) = Apart n ns × AreApart ns

-- The frames are in use, and in the bitmap.
unfoldable pub AreUsed : Bytes → List ℕ → Type 0
AreUsed m [] = Unit
AreUsed m (n ∷ ns) = (n < 8 * length m) × (get_bit m n ≡ true) × AreUsed m ns

used-Apart : (m : Bytes) (n : ℕ) (ns : List ℕ) → get_bit m n ≡ false → AreUsed m ns → Apart n ns
unfolding Apart AreUsed
used-Apart m n [] h u = tt
used-Apart m n (k ∷ ks) h (a, b, u) =
    (λ e. differ (sym h ∙ ap (get_bit m) e ∙ b), used-Apart m n ks h u)
  where
    differ : false ≢ true
    differ e = cc

AreUsed-more :
    (m m' : Bytes) (ns : List ℕ)
    → length m' ≡ length m
    → ((k : ℕ) → get_bit m k ≡ true → get_bit m' k ≡ true)
    → AreUsed m ns
    → AreUsed m' ns
unfolding AreUsed
AreUsed-more m m' [] l f u = tt
AreUsed-more m m' (n ∷ ns) l f (a, b, u) = (omega (arith, l), f n b, AreUsed-more m m' ns l f u)

AreUsed-others :
    (m m' : Bytes) (n : ℕ) (ns : List ℕ)
    → length m' ≡ length m
    → ((k : ℕ) → n ≢ k → get_bit m k ≡ true → get_bit m' k ≡ true)
    → Apart n ns
    → AreUsed m ns
    → AreUsed m' ns
unfolding AreUsed Apart
AreUsed-others m m' n [] l f p u = tt
AreUsed-others m m' n (k ∷ ks) l f (p, q) (a, b, u) =
    (omega (arith, l), f k p b, AreUsed-others m m' n ks l f q u)

AreUsed-without :
    (m : Bytes) (ks : List ℕ) (n : ℕ) (ns : List ℕ)
    → AreUsed m (ks ++ (n ∷ ns))
    → (n < 8 * length m) × AreUsed m (ks ++ ns)
unfolding AreUsed
AreUsed-without m [] n ns (a, b, u) = (a, u)
AreUsed-without m (k ∷ ks) n ns (a, b, u) =
    let ih = AreUsed-without m ks n ns u in (ih.0, (a, b, ih.1))

Apart-without :
    (m : ℕ) (ks : List ℕ) (n : ℕ) (ns : List ℕ)
    → Apart m (ks ++ (n ∷ ns))
    → (n ≢ m) × Apart m (ks ++ ns)
unfolding Apart
Apart-without m [] n ns (p, q) = (λ e. p (sym e), q)
Apart-without m (k ∷ ks) n ns (p, q) = let ih = Apart-without m ks n ns q in (ih.0, (p, ih.1))

AreApart-without :
    (ks : List ℕ) (n : ℕ) (ns : List ℕ)
    → AreApart (ks ++ (n ∷ ns))
    → Apart n (ks ++ ns) × AreApart (ks ++ ns)
unfolding AreApart Apart
AreApart-without [] n ns h = h
AreApart-without (k ∷ ks) n ns (p, h) =
    let (d, q) = Apart-without k ks n ns p in
    let (a, b) = AreApart-without ks n ns h in ((d, a), (q, b))

-- What holds of the bitmap `m` and the frames `ns`, if the bitmap began as long as `map`.
unfoldable pub Holds : Bytes → Bytes → List ℕ → Type 0
Holds map m ns = AreBytes m × (length m ≡ length map) × AreUsed m ns × AreApart ns

module _ (map m : Bytes) where
  Holds-alloc :
      (n : ℕ) (ns : List ℕ) (p : ℕ) (m' : Bytes)
      → Holds map m ns
      → Takes m p m'
      → p ≡ suc n * page
      → Holds map m' (suc n ∷ ns)
  unfolding Holds AreUsed AreApart
  Holds-alloc n ns _ _ (b, l, u, a) (Takes.takes k m' i f low g c) e =
      let q : k ≡ suc n = omega arith in
      let (i', f', g') : (suc n < 8 * length m)
          × (get_bit m (suc n) ≡ false)
          × ((j : ℕ) → get_bit m' j ≡ ((suc n == j) || get_bit m j)) =
        subst
          (λ k.
            (k < 8 * length m)
            × (get_bit m k ≡ false)
            × ((j : ℕ) → get_bit m' j ≡ ((k == j) || get_bit m j)))
          q (i, f, g) in
      let old : (j : ℕ) → get_bit m j ≡ true → get_bit m' j ≡ true =
        λ j h. g' j ∙ or_right (suc n == j) h in
      (
        c.0,
        c.1 ∙ l,
        (omega (arith, c.1), g' (suc n) ∙ or_left n, AreUsed-more m m' ns c.1 old u),
        (used-Apart m (suc n) ns f' u, a),
      )
    where
      or_right : (a : Bool) {b : Bool} → b ≡ true → (a || b) ≡ true
      or_right a h = ground arith

      or_left : (n : ℕ) → ((suc n == suc n) || get_bit m (suc n)) ≡ true
      or_left n = ground arith
  Holds-alloc n ns _ _ h (Takes.out f) e = absurd (omega arith)

  Holds-fail : (ns : List ℕ) (p : ℕ) (m' : Bytes) → Holds map m ns → Takes m p m' → Holds map m' ns
  unfolding Holds
  Holds-fail ns _ _ (b, l, u, a) (Takes.takes k m' i f low g c) =
      (c.0, c.1 ∙ l, AreUsed-more m m' ns c.1 (λ j h. g j ∙ or_right (k == j) h) u, a)
    where
      or_right : (a : Bool) {b : Bool} → b ≡ true → (a || b) ≡ true
      or_right a h = ground arith
  Holds-fail ns _ _ h (Takes.out f) = h

  Holds-free :
      (ks : List ℕ) (n : ℕ) (ns : List ℕ)
      → Holds map m (ks ++ (n ∷ ns))
      → Holds map (free_phys m (n * page) 1) (ks ++ ns)
  unfolding Holds in_run
  Holds-free ks n ns (b, l, u, a) =
      let e : n * page / page ≡ n = omega arith in
      let (i, u') = AreUsed-without m ks n ns u in
      let (p, a') = AreApart-without ks n ns a in
      let (b', l', f) = free_phys-clears m (n * page) 1 b (omega arith) in
      let keep : (k : ℕ)
          → n ≢ k
          → get_bit m k ≡ true
          → get_bit (free_phys m (n * page) 1) k ≡ true =
        λ k d h. f k ∙ ap (λ z. not (in_run z 1 k) && get_bit m k) e ∙ outside k d h in
      (b', l' ∙ l, AreUsed-others m (free_phys m (n * page) 1) n (ks ++ ns) l' keep p u', a')
    where
      outside : (k : ℕ) → n ≢ k → get_bit m k ≡ true → (not (in_run n 1 k) && get_bit m k) ≡ true
      outside k d h = ground arith

Reach-Holds : (map m : Bytes) (ns : List ℕ) → AreBytes map → Reach map m ns → Holds map m ns
unfolding Holds AreUsed AreApart
Reach-Holds map _ _ h Reach.start = (h, refl, tt, tt)
Reach-Holds map _ _ h (Reach.alloc m ns n r e) =
    let ih = Reach-Holds map m ns h r in
    Holds-alloc map m n ns (alloc_phys m).0 (alloc_phys m).1 ih (alloc_phys-Takes m ih.0) e
Reach-Holds map _ _ h (Reach.fail m ns r e) =
    let ih = Reach-Holds map m ns h r in
    Holds-fail map m ns (alloc_phys m).0 (alloc_phys m).1 ih (alloc_phys-Takes m ih.0)
Reach-Holds map _ _ h (Reach.free m ks n ns r) =
    Holds-free map m ks n ns (Reach-Holds map m (ks ++ (n ∷ ns)) h r)

-- From a bitmap made of bytes on, whatever the order of allocations, of which one that returns 0 hands out
-- nothing, and of frees of frames handed out, the frames that are handed out
-- at the end differ pairwise.
pub Reach-AreApart : (map m : Bytes) (ns : List ℕ) → AreBytes map → Reach map m ns → AreApart ns
unfolding Holds
Reach-AreApart map m ns h r = let (b, l, u, a) = Reach-Holds map m ns h r in a
