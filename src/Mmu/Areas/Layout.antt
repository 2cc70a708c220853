-- ===== src/Mmu/Areas/Layout.antt =====
-- Well-formed lists of areas, kernel/arch/amd64/amd64/mmu.c.
use micro.Prelude.{ℕ, ◌+◌, ◌≤◌, ◌⊎◌, inl, List, [], ◌∷◌, ◌++◌, arith}
use micro.Mmu.Areas.{Area, vm_area_create}

-- The areas lie between `lo` and `hi`, in order and apart.
unfoldable pub IsLayout : (lo hi : ℕ) → List Area → Type 0
IsLayout lo hi [] = lo ≤ hi
IsLayout lo hi (a ∷ more) = (lo ≤ a.base) × (a.base ≤ a.end) × IsLayout a.end hi more

-- No area meets the `size` bytes from `base` on.
unfoldable pub IsFree : (base size : ℕ) → List Area → Type 0
IsFree base size [] = Unit
IsFree base size (a ∷ more) = ((base + size ≤ a.base) ⊎ (a.end ≤ base)) × IsFree base size more

pub IsLayout-le : (lo hi : ℕ) (areas : List Area) → IsLayout lo hi areas → lo ≤ hi
unfolding IsLayout
IsLayout-le lo hi [] h = h
IsLayout-le lo hi (a ∷ more) (p, q, h) = omega (arith, IsLayout-le a.end hi more h)

pub IsLayout-lower :
    (lo lo' hi : ℕ) (areas : List Area) → lo' ≤ lo → IsLayout lo hi areas → IsLayout lo' hi areas
unfolding IsLayout
IsLayout-lower lo lo' hi [] l h = omega arith
IsLayout-lower lo lo' hi (a ∷ more) l (p, q, h) = (omega arith, q, h)

-- Areas that begin at the end of a run leave the run free.
pub IsLayout-IsFree :
    (lo hi base size : ℕ) (areas : List Area)
    → base + size ≤ lo
    → IsLayout lo hi areas
    → IsFree base size areas
unfolding IsLayout IsFree
IsLayout-IsFree lo hi base size [] l h = tt
IsLayout-IsFree lo hi base size (a ∷ more) l (p, q, h) =
    (inl (omega arith), IsLayout-IsFree a.end hi base size more (omega arith) h)

-- The second list is the first with `a` put in.
pub data Inserts (a : Area) : List Area → List Area → Type 0 where
  here : (areas : List Area) → Inserts a areas (a ∷ areas)
  there :
      (b : Area) (areas areas' : List Area)
      → Inserts a areas areas'
      → Inserts a (b ∷ areas) (b ∷ areas')

pub append-Inserts : (a : Area) (areas : List Area) → Inserts a areas (areas ++ (a ∷ []))
append-Inserts a [] = Inserts.here []
append-Inserts a (b ∷ more) = Inserts.there b more (more ++ (a ∷ [])) (append-Inserts a more)

-- What puts an area between `lo` and `hi` in its place.
unfoldable pub IsPut : (lo hi : ℕ) (a : Area) (areas areas' : List Area) → Type 0
IsPut lo hi a areas areas' = Inserts a areas areas' × IsLayout lo hi areas'

pub IsPut-over :
    (lo hi : ℕ) (a b : Area) (areas areas' : List Area)
    → lo ≤ b.base
    → b.base ≤ b.end
    → IsPut b.end hi a areas areas'
    → IsPut lo hi a (b ∷ areas) (b ∷ areas')
unfolding IsPut IsLayout
IsPut-over lo hi a b areas areas' p q (i, l) = (Inserts.there b areas areas' i, (p, q, l))

-- An area before all the others.
pub IsPut-here :
    (lo hi base end : ℕ) (b : Area) (areas : List Area)
    → lo ≤ base
    → base ≤ end
    → end ≤ b.base
    → IsLayout lo hi (b ∷ areas)
    → IsPut lo hi (vm_area_create base end) (b ∷ areas) (vm_area_create base end ∷ b ∷ areas)
unfolding IsPut IsLayout vm_area_create
IsPut-here lo hi base end b areas p q r (x, y, l) = (Inserts.here (b ∷ areas), (p, q, (r, y, l)))

pub IsPut-last :
    (lo hi base end : ℕ)
    → lo ≤ base
    → base ≤ end
    → end ≤ hi
    → IsPut lo hi (vm_area_create base end) [] (vm_area_create base end ∷ [])
unfolding IsPut IsLayout vm_area_create
IsPut-last lo hi base end p q r = (Inserts.here [], (p, q, r))
