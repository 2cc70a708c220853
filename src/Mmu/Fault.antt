-- ===== src/Mmu/Fault.antt =====
-- Page faults in a user space, `vm_map_handle_fault` of kernel/arch/amd64/amd64/mmu.c.
pub mod Handled
use micro.Prelude.{
  ℕ, ◌+◌, ◌-◌, ◌/◌, ◌%◌, Bool, true, false, ◌&&◌, Option, none, some, List, [], ◌∷◌, put, leb,
  add_size, if◌then◌else◌,
}
use micro.Bitmap.{Bytes}
use micro.Mmu.Areas.{Area}
use micro.Mmu.Frames.{alloc_phys}
use micro.Mmu.Tables.{Space, mmu_map}

-- The object behind an area, by its type: its pages if it is anonymous. `null_obj` is a NULL pointer.
pub data VmObject : Type 0 where
  anon : (pages : ℕ → ℕ) → VmObject
  inode null_obj : VmObject

pub record VmArea : Type 0 where
  pub area : Area
  pub obj : VmObject

-- The result 0 with the bitmap of frames, the tables and the areas, the result -1, or the read of the type of
-- an object through a NULL pointer.
pub data Fault : Type 0 where
  served : (bmp : Bytes) (map : Space) (areas : List VmArea) → Fault
  refused crashes : Fault

-- The test of an area for the page at an address.
unfoldable pub has_page : (addr : ℕ) → Area → Bool
has_page addr a = leb a.base addr && leb (add_size addr 4096) a.end

-- The pass over an area that does not take the fault.
unfoldable pub pass_by : VmArea → Fault → Fault
pass_by v (served bmp map areas) = served bmp map (v ∷ areas)
pass_by v refused = refused
pass_by v crashes = crashes

-- What the loop does with an area that has the page: only an anonymous object gets one.
unfoldable pub take_fault :
    Bytes → Space → (addr : ℕ) → Area → VmObject → List VmArea → Fault → Fault
take_fault bmp map addr a (anon pages) more rest =
    let got = alloc_phys bmp in
    let mapped = mmu_map got.1 map addr got.0 3 in
    served mapped.0 mapped.1
      (record { area = a; obj = anon (put pages ((addr - a.base) / 4096) got.0) } ∷ more)
take_fault bmp map addr a inode more rest = pass_by (record { area = a; obj = inode }) rest
take_fault bmp map addr a null_obj more rest = crashes

unfoldable pub fault_loop : Bytes → Space → (addr : ℕ) → List VmArea → Fault
fault_loop bmp map addr [] = refused
fault_loop bmp map addr (v ∷ more) =
    let rest = fault_loop bmp map addr more in
    if has_page addr v.area then take_fault bmp map addr v.area v.obj more rest else pass_by v rest

unfoldable pub handle_fault : Bytes → Space → List VmArea → (addr : ℕ) → Fault
handle_fault bmp map areas addr = fault_loop bmp map (addr - addr % 4096) areas
