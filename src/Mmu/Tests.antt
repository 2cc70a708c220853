-- ===== src/Mmu/Tests.antt =====
-- Runs of kernel/arch/amd64/amd64/mmu.c on small bitmaps, page tables and lists of areas.
use micro.Prelude.{
  true, false, ◌*◌, ◌≡◌, refl, none, some, List, [], ◌∷◌, arith, ◌⊎◌, inl, inr, Bool-cases, ◌==◌,
  if◌then◌else◌,
}
use micro.Mmu.Words.{is_present}
use micro.Mmu.Pages.{KernelHeap, mmu_kalloc}
use micro.Mmu.Pages.Runs.{IsClean}
use micro.Mmu.Pages.TakesRun.{TakesRun, mmu_kalloc-TakesRun}
use micro.Bitmap.{Bytes, set_bit}
use micro.Bitmap.Bytes.{AreBytes}
use micro.Bitmap.First.{first_false}
use micro.Mmu.Frames.{alloc_phys, alloc_phys_at, find_frame, mark}
use micro.Mmu.Frames.Lowest.{Takes, alloc_phys-Takes}
use micro.Mmu.Frames.Pool.{Reach, AreApart, Reach-AreApart}
use micro.Mmu.Areas.{
  Area, kbase, vm_area_create, find_gap, find_place, put_area, add_area, vm_map_alloc,
  vm_map_allocat, insert_before,
}
use micro.Mmu.Areas.Layout.{IsLayout}
use micro.Mmu.Areas.Fit.{IsFirstFit, vm_map_alloc-IsFirstFit}
use micro.Mmu.Fault.{VmArea, anon, inode, handle_fault}
use micro.Mmu.Fault.Handled.{IsHandled, handle_fault-IsHandled}
use micro.Mmu.Tables.{Space, mmu_map, virt2phys}
use micro.Mmu.Tables.Lookup.{IsTabled, mmu_map-virt2phys}

-- frames 0 to 8 and 10 are in use
abbrev two_bytes : Bytes
two_bytes = 255 ∷ 5 ∷ []

two_bytes-AreBytes : AreBytes two_bytes
unfolding AreBytes
two_bytes-AreBytes = (omega arith, (omega arith, tt))

alloc_phys-Takes_example : Takes two_bytes (9 * 4096) (255 ∷ 7 ∷ [])
unfolding alloc_phys alloc_phys_at find_frame first_false mark set_bit
alloc_phys-Takes_example = alloc_phys-Takes two_bytes two_bytes-AreBytes

Reach-AreApart_example : AreApart (11 ∷ 9 ∷ [])
unfolding alloc_phys alloc_phys_at find_frame first_false mark set_bit
Reach-AreApart_example =
    Reach-AreApart two_bytes (255 ∷ 15 ∷ []) (11 ∷ 9 ∷ []) two_bytes-AreBytes
      (Reach.alloc (255 ∷ 7 ∷ []) (9 ∷ []) 10 (Reach.alloc two_bytes [] 8 Reach.start refl) refl)

abbrev areas : List Area
areas = record { base = 4096; end = 8192 } ∷ record { base = 12288; end = 16384 } ∷ []

areas-IsLayout : IsLayout 0 kbase areas
unfolding IsLayout
areas-IsLayout = (omega arith, omega arith, (omega arith, omega arith, omega arith))

abbrev middle : Area
middle = record { base = 8192; end = 12288 }

abbrev with_middle : List Area
with_middle =
    record { base = 4096; end = 8192 } ∷ middle ∷ record { base = 12288; end = 16384 } ∷ []

vm_map_alloc-IsFirstFit_example : IsFirstFit areas 4096 (some (middle, with_middle))
unfolding vm_map_alloc find_gap add_area insert_before vm_area_create
vm_map_alloc-IsFirstFit_example = vm_map_alloc-IsFirstFit areas 4096 (omega arith) areas-IsLayout

vm_map_allocat_taken : vm_map_allocat areas 4096 8192 ≡ none
unfolding vm_map_allocat find_place put_area
vm_map_allocat_taken = refl

abbrev no_tables : Space
no_tables = record { pds = λ _ _. 0; pts = λ _ _. none }

no_tables-IsTabled : IsTabled no_tables
unfolding IsTabled
no_tables-IsTabled i j h = cc

mmu_map-virt2phys_example :
    let map = (mmu_map two_bytes no_tables 20480 40960 3).1 in
    IsTabled map × (virt2phys map 20490 ≡ 40960)
mmu_map-virt2phys_example =
    mmu_map-virt2phys two_bytes no_tables 20480 40960 3 (omega arith) refl (omega arith)
      no_tables-IsTabled 20490 (omega arith)

abbrev lazy_areas : List VmArea
lazy_areas =
    record { area = record { base = 4096; end = 8192 }; obj = inode }
    ∷ record { area = record { base = 16384; end = 32768 }; obj = anon (λ _. 0) }
    ∷ []

handle_fault-IsHandled_example :
    IsHandled two_bytes no_tables 20480 20490 lazy_areas
      (handle_fault two_bytes no_tables lazy_areas 20500)
handle_fault-IsHandled_example =
    handle_fault-IsHandled two_bytes no_tables lazy_areas 20500 20490 two_bytes-AreBytes
      no_tables-IsTabled (omega arith) (omega arith)

-- the kernel's pages, with one table that has its first page in use
abbrev heap_pages : KernelHeap
heap_pages = record {
  dir = λ i. if i == 0 then 3 else 0;
  tbls = λ i j. if i == 0 then (if j == 0 then 1 else 0) else 0;
}

heap_pages-IsClean : IsClean heap_pages
unfolding IsClean
heap_pages-IsClean i j h l = elim (Bool-cases (i == 0)) [
  | inl a ↦ absurd (first a h)
  | inr a ↦ rw (a) refl
]
  where
    first : (i == 0) ≡ true → is_present (if i == 0 then 3 else 0) ≡ false → ⊥
    first a h =
        let t : is_present (if i == 0 then 3 else 0) ≡ true = rw (a) refl in ground (arith, t, h)

mmu_kalloc-TakesRun_example :
    (mmu_kalloc (λ i. 4096 * i) heap_pages 3 ≡ (0, heap_pages))
    ⊎ TakesRun heap_pages 3 (mmu_kalloc (λ i. 4096 * i) heap_pages 3)
mmu_kalloc-TakesRun_example =
    mmu_kalloc-TakesRun (λ i. 4096 * i) heap_pages 3 heap_pages-IsClean (omega arith)
