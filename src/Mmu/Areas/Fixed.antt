-- ===== src/Mmu/Areas/Fixed.antt =====
-- `vm_map_allocat` of kernel/arch/amd64/amd64/mmu.c: an area at a given address.
use micro.Prelude.{
  ℕ, suc, ◌+◌, ◌-◌, ◌^◌, ◌≤◌, ◌<◌, ◌≡◌, refl, subst, true, false, inl, inr, Option, none, some,
  List, [], ◌∷◌, ◌++◌, arith, add_size, leb, Bool-cases,
}
use micro.Mmu.Areas.{
  Area, Place, refused, before, through, vm_area_create, insert_before, find_place, back_below,
  put_area, intersects, vm_map_allocat,
}
use micro.Mmu.Areas.Layout.{
  IsLayout, IsFree, IsLayout-IsFree, IsPut, IsPut-over, IsPut-here, IsPut-last,
}

-- What the loop finds out about the run from `base` to `end`.
data Looks (base end : ℕ) : (i : ℕ) → List Area → Place → Type 0 where
  ends : (i : ℕ) → Looks base end i [] through
  meets :
      (i : ℕ) (a : Area) (more : List Area)
      → a.base < end
      → base < a.end
      → Looks base end i (a ∷ more) refused
  here :
      (i : ℕ) (a : Area) (more : List Area) → end ≤ a.base → Looks base end i (a ∷ more) (before i)
  past :
      (i : ℕ) (a : Area) (more : List Area) (r : Place)
      → a.end ≤ base
      → Looks base end (suc i) more r
      → Looks base end i (a ∷ more) r

back_cons :
    {base : ℕ} (a : Area) (more : List Area)
    → a.end ≤ base
    → back_below base more ≡ true
    → back_below base (a ∷ more) ≡ true
unfolding back_below
back_cons a [] h e = ground arith
back_cons a (b ∷ more) h e = e

-- The area is at the address that is asked for, in a free run, or that run is not free.
unfoldable pub IsAt : (base size hi : ℕ) (areas : List Area) → Option (Area × List Area) → Type 0
IsAt base size hi areas none = IsFree base size areas → ⊥
IsAt base size hi areas (some (a, areas')) =
    (a ≡ vm_area_create base (base + size)) × IsFree base size areas × IsPut 0 hi a areas areas'

module _ (base size : ℕ) (some_size : 0 < size) where
  find_place-Looks :
      (i lo hi : ℕ) (areas : List Area)
      → IsLayout lo hi areas
      → Looks base (base + size) i areas (find_place base (base + size) i areas)
  unfolding find_place IsLayout
  find_place-Looks i lo hi [] h = Looks.ends i
  find_place-Looks i lo hi (a ∷ more) (p, q, t) =
      let end = base + size in
      elim (Bool-cases (intersects base end a)) [
        | inl e ↦ rw (e) (Looks.meets i a more (ground arith) (ground arith))
        | inr e ↦ elim (Bool-cases (leb a.end base)) [
          | inl f ↦
              rw (e, f)
                (Looks.past i a more _ (ground arith) (find_place-Looks (suc i) a.end hi more t))
          | inr f ↦ rw (e, f, the_rest a q e f) (Looks.here i a more (ground arith))
        ]
      ]
    where
      the_rest :
          (a : Area)
          → a.base ≤ a.end
          → intersects base (base + size) a ≡ false
          → leb a.end base ≡ false
          → leb (base + size) a.base ≡ true
      the_rest a q e f = ground arith

  Looks-refused :
      (i : ℕ) (areas : List Area) (r : Place)
      → Looks base (base + size) i areas r
      → r ≡ refused
      → IsFree base size areas
      → ⊥
  unfolding IsFree
  Looks-refused _ _ _ (Looks.ends i) e f = cc
  Looks-refused _ _ _ (Looks.meets i a more x y) e (inl h, f) = omega arith
  Looks-refused _ _ _ (Looks.meets i a more x y) e (inr h, f) = omega arith
  Looks-refused _ _ _ (Looks.here i a more x) e f = cc
  Looks-refused _ _ _ (Looks.past i a more r x l) e (h, f) = Looks-refused (suc i) more r l e f

  Looks-before :
      (i lo hi j : ℕ) (areas : List Area) (r : Place)
      → Looks base (base + size) i areas r
      → lo ≤ base
      → IsLayout lo hi areas
      → r ≡ before j
      → (i ≤ j)
        × IsFree base size areas
        × IsPut lo hi
            (vm_area_create base (base + size))
            areas
            (insert_before areas (j - i) (vm_area_create base (base + size)))
  unfolding IsLayout IsFree insert_before
  Looks-before _ lo hi j _ _ (Looks.ends i) l h e = cc
  Looks-before _ lo hi j _ _ (Looks.meets i a more x y) l h e = cc
  Looks-before _ lo hi j _ _ (Looks.here i a more x) l (p, q, t) e =
      let same : i ≡ j = ground arith in
      let z : 0 ≡ j - i = omega arith in
      let area = vm_area_create base (base + size) in
      (
        omega arith,
        (inl x, IsLayout-IsFree a.end hi base size more (omega arith) t),
        subst (λ k. IsPut lo hi area (a ∷ more) (insert_before (a ∷ more) k area)) z
            (IsPut-here lo hi base (base + size) a more l (omega arith) x (p, q, t)),
      )
  Looks-before _ lo hi j _ _ (Looks.past i a more r x g) l (p, q, t) e =
      let (ih, free, put) = Looks-before (suc i) a.end hi j more r g x t e in
      let z : suc (j - suc i) ≡ j - i = omega arith in
      let area = vm_area_create base (base + size) in
      (
        omega arith,
        (inr x, free),
        subst (λ k. IsPut lo hi area (a ∷ more) (insert_before (a ∷ more) k area)) z
            (IsPut-over lo hi area a more (insert_before more (j - suc i) area) p q put),
      )

  Looks-through :
      (i lo hi : ℕ) (areas : List Area) (r : Place)
      → Looks base (base + size) i areas r
      → lo ≤ base
      → base + size ≤ hi
      → IsLayout lo hi areas
      → r ≡ through
      → (back_below base areas ≡ true)
        × IsFree base size areas
        × IsPut lo hi
            (vm_area_create base (base + size))
            areas
            (areas ++ (vm_area_create base (base + size) ∷ []))
  unfolding IsLayout IsFree back_below
  Looks-through _ lo hi _ _ (Looks.ends i) l m h e =
      (refl, tt, IsPut-last lo hi base (base + size) l (omega arith) m)
  Looks-through _ lo hi _ _ (Looks.meets i a more x y) l m h e = cc
  Looks-through _ lo hi _ _ (Looks.here i a more x) l m h e = cc
  Looks-through _ lo hi _ _ (Looks.past i a more r x g) l m (p, q, t) e =
      let (back, free, put) = Looks-through (suc i) a.end hi more r g x m t e in
      let area = vm_area_create base (base + size) in
      (
        back_cons a more x back,
        (inr x, free),
        IsPut-over lo hi area a more (more ++ (area ∷ [])) p q put,
      )

  put_area-IsAt :
      (hi : ℕ) (areas : List Area) (r : Place)
      → Looks base (base + size) 0 areas r
      → base + size ≤ hi
      → IsLayout 0 hi areas
      → IsAt base size hi areas (put_area areas base (base + size) r)
  unfolding IsAt put_area
  put_area-IsAt hi areas refused g m l = Looks-refused 0 areas refused g refl
  put_area-IsAt hi areas (before j) g m l =
      let (x, free, put) = Looks-before 0 0 hi j areas (before j) g (omega arith) l refl in
      let z : j - 0 ≡ j = omega arith in
      let area = vm_area_create base (base + size) in
      (refl, free, subst (λ k. IsPut 0 hi area areas (insert_before areas k area)) z put)
  put_area-IsAt hi areas through g m l =
      let (back, free, put) = Looks-through 0 0 hi areas through g (omega arith) m l refl in
      rw (back) (refl, free, put)

-- `vm_map_allocat`, for areas that are in order and apart and a size that is not 0 and does not wrap,
-- returns the area of `size` bytes at `base` if no area meets it, and the new list of areas is the old one with
-- it put in, still in order and apart; if one meets it, it returns NULL.
pub vm_map_allocat-IsAt :
    (areas : List Area) (base size hi : ℕ)
    → 0 < size
    → base + size ≤ hi
    → hi < 2 ^ 64
    → IsLayout 0 hi areas
    → IsAt base size hi areas (vm_map_allocat areas base size)
unfolding vm_map_allocat
vm_map_allocat-IsAt areas base size hi z m top l =
    let w : add_size base size ≡ base + size = omega arith in
    rw (w) (
      put_area-IsAt base size z hi areas (find_place base (base + size) 0 areas)
        (find_place-Looks base size z 0 0 hi areas l) m l)
