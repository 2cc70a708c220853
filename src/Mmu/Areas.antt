-- ===== src/Mmu/Areas.antt =====
-- The areas of an address space, kernel/arch/amd64/amd64/mmu.c: `struct vm_map` by its list of areas,
-- `struct vm_area` without the object behind it.
pub mod Layout
pub mod Fit
pub mod Fixed
use micro.Prelude.{
  ℕ, zero, suc, ◌+◌, ◌*◌, ◌-◌, ◌^◌, Bool, true, false, not, ◌&&◌, ◌||◌, Option, none, some, List,
  [], ◌∷◌, ◌++◌, if◌then◌else◌, ◌==◌, ltb, leb, add_size,
}

pub record Area : Type 0 where
  pub base : ℕ
  pub end : ℕ

-- `KBASE`, where the kernel's half starts
abbrev pub kbase : ℕ
kbase = 2 ^ 64 - 2 ^ 31

unfoldable pub vm_area_create : (base end : ℕ) → Area
vm_area_create base end = record { base = base; end = end }

-- `list_insert_before`
unfoldable pub insert_before : List Area → ℕ → Area → List Area
insert_before [] i v = []
insert_before (a ∷ more) zero v = v ∷ a ∷ more
insert_before (a ∷ more) (suc i) v = a ∷ insert_before more i v

-- the condition "Intersects/Encapsulates", which two functions share
abbrev pub intersects : (base end : ℕ) → Area → Bool
intersects base end a =
    (leb a.base base && ltb base a.end)
    || (ltb a.base end && leb end a.end)
    || (ltb base a.base && ltb a.end end)

-- The loop of `vm_map_alloc`: the index to insert at, if the loop returns, and the base.
unfoldable pub find_gap : (size base i : ℕ) → List Area → Option ℕ × ℕ
find_gap size base i [] = (none, base)
find_gap size base i (a ∷ more) =
    let moved = find_gap size a.end (suc i) more in
    let same = find_gap size base (suc i) more in
    if leb (add_size base size) a.base
    then (some i, base)
    else if intersects base (add_size base size) a
    then moved
    else same

-- The rest of `vm_map_alloc`: the area, with the list that has it, or none.
unfoldable pub add_area : List Area → (size : ℕ) → Option ℕ → (base : ℕ) → Option (Area × List Area)
add_area areas size (some i) base =
    let area = vm_area_create base (add_size base size) in some (area, insert_before areas i area)
add_area areas size none base =
    let area = vm_area_create base (add_size base size) in
    if ltb (add_size base size) kbase then some (area, areas ++ (area ∷ [])) else none

unfoldable pub vm_map_alloc : List Area → (size : ℕ) → Option (Area × List Area)
vm_map_alloc areas size = let r = find_gap size 4096 0 areas in add_area areas size r.0 r.1

-- The loop of `vm_map_allocat`: it returns NULL, or the index to insert at, or runs through.
pub data Place : Type 0 where
  refused : Place
  before : (i : ℕ) → Place
  through : Place

unfoldable pub find_place : (base end i : ℕ) → List Area → Place
find_place base end i [] = through
find_place base end i (a ∷ more) =
    let below = find_place base end (suc i) more in
    let neither = find_place base end i more in
    if intersects base end a
    then refused
    else if leb a.end base
    then below
    else if leb end a.base
    then before i
    else neither

-- `!size || list_back()->end <= base`
unfoldable pub back_below : (base : ℕ) → List Area → Bool
back_below base [] = true
back_below base (a ∷ []) = leb a.end base
back_below base (a ∷ b ∷ more) = back_below base (b ∷ more)

-- What the function does after the loop.
unfoldable pub put_area : List Area → (base end : ℕ) → Place → Option (Area × List Area)
put_area areas base end refused = none
put_area areas base end (before i) =
    let area = vm_area_create base end in some (area, insert_before areas i area)
put_area areas base end through =
    let area = vm_area_create base end in
    if back_below base areas then some (area, areas ++ (area ∷ [])) else none

unfoldable pub vm_map_allocat : List Area → (base size : ℕ) → Option (Area × List Area)
vm_map_allocat areas base size =
    let end = add_size base size in put_area areas base end (find_place base end 0 areas)

unfoldable pub alloc_vmarea :
    List Area → (base size : ℕ) → (fixed : Bool) → Option (Area × List Area)
alloc_vmarea areas base size fixed =
    if base == 0 then vm_map_alloc areas size else fall_back (vm_map_allocat areas base size)
  where
    fall_back : Option (Area × List Area) → Option (Area × List Area)
    fall_back (some r) = some r
    fall_back none = if fixed then none else vm_map_alloc areas size
