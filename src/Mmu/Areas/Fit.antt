-- ===== src/Mmu/Areas/Fit.antt =====
-- `vm_map_alloc` of kernel/arch/amd64/amd64/mmu.c against the gaps between the areas.
use micro.Prelude.{
  ℕ, suc, ◌+◌, ◌-◌, ◌^◌, ◌≤◌, ◌<◌, ◌≡◌, refl, subst, ◌⊎◌, inl, inr, Option, none, some, List, [],
  ◌∷◌, ◌++◌, arith, add_size, leb, ltb, Bool-cases,
}
use micro.Mmu.Areas.{
  Area, vm_area_create, insert_before, find_gap, intersects, vm_map_alloc, add_area, kbase,
}
use micro.Mmu.Areas.Layout.{
  IsLayout, IsFree, IsLayout-le, IsLayout-IsFree, IsPut, IsPut-over, IsPut-here, IsPut-last,
}

-- What the loop does: `base'` is the base after the area `a`.
data Gap (size : ℕ) : (base i : ℕ) → List Area → Option ℕ → ℕ → Type 0 where
  end : (base i : ℕ) → Gap size base i [] none base
  here :
      (base i : ℕ) (a : Area) (more : List Area)
      → base + size ≤ a.base
      → Gap size base i (a ∷ more) (some i) base
  over :
      (base i : ℕ) (a : Area) (more : List Area) (base' : ℕ) (r : Option ℕ) (b : ℕ)
      → a.base < base + size
      → base ≤ base'
      → a.end ≤ base'
      → (base' ≡ base) ⊎ (base' ≡ a.end)
      → Gap size base' (suc i) more r b
      → Gap size base i (a ∷ more) r b

no_wrap : (base size : ℕ) → base ≤ kbase → size ≤ 2 ^ 31 - 1 → add_size base size ≡ base + size
no_wrap base size h l = omega arith

find_gap-Gap :
    (size base i lo : ℕ) (areas : List Area)
    → size ≤ 2 ^ 31 - 1
    → lo ≤ base
    → base ≤ kbase
    → IsLayout lo kbase areas
    → Gap size base i areas (find_gap size base i areas).0 (find_gap size base i areas).1
unfolding find_gap IsLayout
find_gap-Gap size base i lo [] s l h t = Gap.end base i
find_gap-Gap size base i lo (a ∷ more) s l h (p, q, t) =
    let w = no_wrap base size h s in
    let top = IsLayout-le a.end kbase more t in
    elim (Bool-cases (leb (add_size base size) a.base)) [
      | inl e ↦ rw (e) (Gap.here base i a more (ground arith))
      | inr e ↦ elim (Bool-cases (intersects base (add_size base size) a)) [
        | inl f ↦
            rw (e, f)
              (Gap.over base i a more a.end _ _ (ground arith) (ground arith) (omega arith)
                (inr refl)
                (find_gap-Gap size a.end (suc i) a.end more s (omega arith) (omega arith) t))
        | inr f ↦
            rw (e, f)
              (Gap.over base i a more base _ _ (ground arith) (omega arith) (ground arith)
                (inl refl) (find_gap-Gap size base (suc i) a.end more s (ground arith) h t))
      ]
    ]

module _ (size : ℕ) where
  Gap-above :
      (base i : ℕ) (areas : List Area) (r : Option ℕ) (b : ℕ) → Gap size base i areas r b → base ≤ b
  Gap-above _ _ _ _ _ (Gap.end base i) = omega arith
  Gap-above _ _ _ _ _ (Gap.here base i a more h) = omega arith
  Gap-above _ _ _ _ _ (Gap.over base i a more base' r b c d e f g) =
      omega (arith, Gap-above base' (suc i) more r b g)

  -- Every free run from `base` on begins at the result or later.
  Gap-lowest :
      (base i : ℕ) (areas : List Area) (r : Option ℕ) (b b' : ℕ)
      → Gap size base i areas r b
      → base ≤ b'
      → IsFree b' size areas
      → b ≤ b'
  unfolding IsFree
  Gap-lowest _ _ _ _ _ b' (Gap.end base i) l h = l
  Gap-lowest _ _ _ _ _ b' (Gap.here base i a more h) l f = l
  Gap-lowest _ _ _ _ _ b' (Gap.over base i a more base' r b c d e f g) l (x, y) =
      Gap-lowest base' (suc i) more r b b' g (ground arith) y

  Gap-IsFree :
      (base i lo hi : ℕ) (areas : List Area) (r : Option ℕ) (b : ℕ)
      → Gap size base i areas r b
      → lo ≤ base
      → IsLayout lo hi areas
      → IsFree b size areas
  unfolding IsFree IsLayout
  Gap-IsFree _ _ lo hi _ _ _ (Gap.end base i) l h = tt
  Gap-IsFree _ _ lo hi _ _ _ (Gap.here base i a more h) l (p, q, t) =
      (inl h, IsLayout-IsFree a.end hi base size more (omega arith) t)
  Gap-IsFree _ _ lo hi _ _ _ (Gap.over base i a more base' r b c d e f g) l (p, q, t) = (
    inr (omega (arith, Gap-above base' (suc i) more r b g)),
    Gap-IsFree base' (suc i) a.end hi more r b g e t,
  )

  Gap-before :
      (base i lo hi j : ℕ) (areas : List Area) (r : Option ℕ) (b : ℕ)
      → Gap size base i areas r b
      → lo ≤ base
      → IsLayout lo hi areas
      → r ≡ some j
      → (i ≤ j)
        × IsPut lo hi
            (vm_area_create b (b + size))
            areas
            (insert_before areas (j - i) (vm_area_create b (b + size)))
  unfolding IsLayout insert_before
  Gap-before _ _ lo hi j _ _ _ (Gap.end base i) l h e = cc
  Gap-before _ _ lo hi j _ _ _ (Gap.here base i a more g) l h e =
      let q : i ≡ j = ground arith in
      let z : 0 ≡ j - i = omega arith in
      let area = vm_area_create base (base + size) in
      (
        omega arith,
        subst (λ k. IsPut lo hi area (a ∷ more) (insert_before (a ∷ more) k area)) z
            (IsPut-here lo hi base (base + size) a more l (omega arith) g h),
      )
  Gap-before _ _ lo hi j _ _ _ (Gap.over base i a more base' r b c d e f g) l (p, q, t) eq =
      let (ih, put) = Gap-before base' (suc i) a.end hi j more r b g e t eq in
      let z : suc (j - suc i) ≡ j - i = omega arith in
      let area = vm_area_create b (b + size) in
      (
        omega arith,
        subst (λ k. IsPut lo hi area (a ∷ more) (insert_before (a ∷ more) k area)) z
            (IsPut-over lo hi area a more (insert_before more (j - suc i) area) p q put),
      )

  Gap-last :
      (base i lo hi : ℕ) (areas : List Area) (r : Option ℕ) (b : ℕ)
      → Gap size base i areas r b
      → lo ≤ base
      → IsLayout lo hi areas
      → r ≡ none
      → b + size ≤ hi
      → IsPut lo hi
          (vm_area_create b (b + size))
          areas
          (areas ++ (vm_area_create b (b + size) ∷ []))
  unfolding IsLayout
  Gap-last _ _ lo hi _ _ _ (Gap.end base i) l h e m =
      IsPut-last lo hi base (base + size) l (omega arith) m
  Gap-last _ _ lo hi _ _ _ (Gap.here base i a more g) l h e m = cc
  Gap-last _ _ lo hi _ _ _ (Gap.over base i a more base' r b c d e f g) l (p, q, t) eq m =
      let area = vm_area_create b (b + size) in
      IsPut-over lo hi area a more (more ++ (area ∷ [])) p q
        (Gap-last base' (suc i) a.end hi more r b g e t eq m)

  Gap-top :
      (base i lo : ℕ) (areas : List Area) (r : Option ℕ) (b : ℕ)
      → Gap size base i areas r b
      → base ≤ kbase
      → IsLayout lo kbase areas
      → b ≤ kbase
  unfolding IsLayout
  Gap-top _ _ lo _ _ _ (Gap.end base i) l h = l
  Gap-top _ _ lo _ _ _ (Gap.here base i a more g) l h = l
  Gap-top _ _ lo _ _ _ (Gap.over base i a more base' r b c d e f g) l (p, q, t) =
      Gap-top base' (suc i) a.end more r b g (ground (arith, IsLayout-le a.end kbase more t)) t

-- The result is the lowest free run above the first page, put in its place, or there is no free run
-- below the kernel's half.
unfoldable pub IsFirstFit : (areas : List Area) (size : ℕ) → Option (Area × List Area) → Type 0
IsFirstFit areas size none = (b : ℕ) → 4096 ≤ b → IsFree b size areas → kbase ≤ b + size
IsFirstFit areas size (some (a, areas')) =
    (a.end ≡ a.base + size)
    × (4096 ≤ a.base)
    × IsFree a.base size areas
    × ((b : ℕ) → 4096 ≤ b → IsFree b size areas → a.base ≤ b)
    × IsPut 0 kbase a areas areas'

fitted :
    (areas : List Area) (size : ℕ) (r : Option ℕ) (b : ℕ)
    → size ≤ 2 ^ 31 - 1
    → IsLayout 0 kbase areas
    → Gap size 4096 0 areas r b
    → IsFirstFit areas size (add_area areas size r b)
unfolding IsFirstFit add_area vm_area_create
fitted areas size (some j) b s l g =
    let w = no_wrap b size (Gap-top size 4096 0 0 areas (some j) b g (omega arith) l) s in
    let z : j - 0 ≡ j = omega arith in
    let area = vm_area_create b (b + size) in
    let put =
      subst (λ k. IsPut 0 kbase area areas (insert_before areas k area)) z
        (Gap-before size 4096 0 0 kbase j areas (some j) b g (omega arith) l refl).1 in
    rw (w) (
      refl,
      Gap-above size 4096 0 areas (some j) b g,
      Gap-IsFree size 4096 0 0 kbase areas (some j) b g (omega arith) l,
      (λ b' h f. Gap-lowest size 4096 0 areas (some j) b b' g h f),
      put,
    )
fitted areas size none b s l g =
    let w = no_wrap b size (Gap-top size 4096 0 0 areas none b g (omega arith) l) s in
    elim (Bool-cases (ltb (add_size b size) kbase)) [
      | inl e ↦
          rw (e, w)
            (
              refl,
              Gap-above size 4096 0 areas none b g,
              Gap-IsFree size 4096 0 0 kbase areas none b g (omega arith) l,
              (λ b' h f. Gap-lowest size 4096 0 areas none b b' g h f),
              Gap-last size 4096 0 0 kbase areas none b g (omega arith) l refl (ground arith),
            )
      | inr e ↦ rw (e) (λ b' h f. ground (arith, Gap-lowest size 4096 0 areas none b b' g h f))
    ]

-- `vm_map_alloc`, for areas that are in order and apart below the kernel's half and a size below 2 GiB,
-- returns the lowest run of `size` free bytes from 4096 on, and the new list of areas is the old one with it
-- put in, still in order and apart; it returns NULL only if every free run ends at `KBASE` or beyond.
pub vm_map_alloc-IsFirstFit :
    (areas : List Area) (size : ℕ)
    → size ≤ 2 ^ 31 - 1
    → IsLayout 0 kbase areas
    → IsFirstFit areas size (vm_map_alloc areas size)
unfolding vm_map_alloc
vm_map_alloc-IsFirstFit areas size s l =
    let r = (find_gap size 4096 0 areas).0 in
    let b = (find_gap size 4096 0 areas).1 in
    fitted areas size r b s l (find_gap-Gap size 4096 0 0 areas s (omega arith) (omega arith) l)
