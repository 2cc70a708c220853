-- ===== src/Mmu/Fault/Handled.antt =====
-- What a page fault leaves behind, kernel/arch/amd64/amd64/mmu.c.
use micro.Prelude.{
  ℕ, ◌+◌, ◌-◌, ◌/◌, ◌%◌, ◌^◌, ◌<◌, ◌≤◌, ◌≡◌, ◌⊎◌, refl, true, false, Bool-cases, inl, inr, List, [],
  ◌∷◌, ◌++◌, if◌then◌else◌, ◌==◌, put, arith,
}
use micro.Bitmap.{Bytes}
use micro.Bitmap.Bytes.{AreBytes}
use micro.Mmu.Areas.{Area}
use micro.Mmu.Frames.{alloc_phys}
use micro.Mmu.Frames.Lowest.{Takes, alloc_phys-Takes}
use micro.Mmu.Tables.{Space, virt2phys}
use micro.Mmu.Tables.Lookup.{IsTabled, mmu_map-virt2phys}
use micro.Mmu.Fault.{
  VmObject, anon, inode, null_obj, VmArea, Fault, served, refused, crashes, has_page, pass_by,
  take_fault, fault_loop, handle_fault,
}

-- The whole page at an address lies in the area.
abbrev pub HasPage : (addr : ℕ) → Area → Type 0
HasPage addr a = (a.base ≤ addr) × (addr + 4096 ≤ a.end)

-- The area does not take the fault: it starts above the address, ends before the page does, or is of a file.
abbrev pub Passes : (addr : ℕ) → VmArea → Type 0
Passes addr v = (addr < v.area.base) ⊎ ((v.area.end < addr + 4096) ⊎ (v.obj ≡ inode))

unfoldable pub AllPass : (addr : ℕ) → List VmArea → Type 0
AllPass addr [] = Unit
AllPass addr (v ∷ areas) = Passes addr v × AllPass addr areas

-- What the handling of a fault at a page leaves for the address `w`.
pub data IsHandled (bmp : Bytes) (map : Space) (addr w : ℕ) : List VmArea → Fault → Type 0 where
  maps :
      (before : List VmArea) (a : Area) (pages : ℕ → ℕ) (after : List VmArea) (bmp' : Bytes)
      (map' : Space)
      → AllPass addr before
      → HasPage addr a
      → IsTabled map'
      → virt2phys map' w ≡ (if addr / 4096 == w / 4096 then (alloc_phys bmp).0 else virt2phys map w)
      → IsHandled bmp map addr w (before ++ record { area = a; obj = anon pages } ∷ after) (
          served bmp' map' (
            before
            ++ record {
              area = a;
              obj = anon (put pages ((addr - a.base) / 4096) (alloc_phys bmp).0);
            }
              ∷ after))
  breaks :
      (before : List VmArea) (a : Area) (after : List VmArea)
      → AllPass addr before
      → HasPage addr a
      → IsHandled bmp map addr w (before ++ record { area = a; obj = null_obj } ∷ after) crashes
  gives_up : (areas : List VmArea) → AllPass addr areas → IsHandled bmp map addr w areas refused

frame_aligned : (bmp bmp' : Bytes) (p : ℕ) → Takes bmp p bmp' → p % 4096 ≡ 0
frame_aligned bmp _ _ (Takes.takes n bmp' i f low g c) = omega arith
frame_aligned bmp _ _ (Takes.out f) = refl

has_page-HasPage : (addr : ℕ) (a : Area) → addr < 2 ^ 39 → has_page addr a ≡ true → HasPage addr a
unfolding has_page
has_page-HasPage addr a user h = ground arith

has_page-Passes :
    (addr : ℕ) (v : VmArea) → addr < 2 ^ 39 → has_page addr v.area ≡ false → Passes addr v
unfolding has_page
has_page-Passes addr v user h = ground arith

module _ (bmp : Bytes) (map : Space) (addr w : ℕ) (bytes : AreBytes bmp) (tabled : IsTabled map)
    (user : addr < 2 ^ 39) (asked : w < 2 ^ 39) where
  pass_by-IsHandled :
      (v : VmArea) (areas : List VmArea) (r : Fault)
      → Passes addr v
      → IsHandled bmp map addr w areas r
      → IsHandled bmp map addr w (v ∷ areas) (pass_by v r)
  unfolding pass_by AllPass
  pass_by-IsHandled v _ _ p (IsHandled.maps before a pages after bmp' map' all has t e) =
      IsHandled.maps (v ∷ before) a pages after bmp' map' (p, all) has t e
  pass_by-IsHandled v _ _ p (IsHandled.breaks before a after all has) =
      IsHandled.breaks (v ∷ before) a after (p, all) has
  pass_by-IsHandled v _ _ p (IsHandled.gives_up areas all) = IsHandled.gives_up (v ∷ areas) (p, all)

  take-IsHandled :
      (a : Area) (o : VmObject) (more : List VmArea) (r : Fault)
      → HasPage addr a
      → IsHandled bmp map addr w more r
      → IsHandled bmp map addr w
          (record { area = a; obj = o } ∷ more)
          (take_fault bmp map addr a o more r)
  unfolding take_fault AllPass
  take-IsHandled a (anon pages) more r h ih =
      let got = alloc_phys bmp in
      let found =
        mmu_map-virt2phys got.1 map addr got.0 3 user
          (frame_aligned bmp got.1 got.0 (alloc_phys-Takes bmp bytes)) (omega arith) tabled w
          asked in
      IsHandled.maps [] a pages more _ _ tt h found.0 found.1
  take-IsHandled a inode more r h ih =
      pass_by-IsHandled (record { area = a; obj = inode }) more r (inr (inr refl)) ih
  take-IsHandled a null_obj more r h ih = IsHandled.breaks [] a more tt h

  fault_loop-IsHandled :
      (areas : List VmArea) → IsHandled bmp map addr w areas (fault_loop bmp map addr areas)
  unfolding fault_loop AllPass
  fault_loop-IsHandled [] = IsHandled.gives_up [] tt
  fault_loop-IsHandled (v ∷ more) =
      let ih = fault_loop-IsHandled more in
      elim (Bool-cases (has_page addr v.area)) [
        | inl e ↦ rw (e) (
            take-IsHandled v.area v.obj more (fault_loop bmp map addr more)
              (has_page-HasPage addr v.area user e) ih)
        | inr e ↦ rw (e) (
            pass_by-IsHandled v more (fault_loop bmp map addr more) (has_page-Passes addr v user e)
              ih)
      ]

-- For user addresses, a bitmap of frames made of bytes and page tables where a slot whose word is present has a
-- table: `vm_map_handle_fault` looks for the first area that has the whole page of the address and is not of a file.
-- If it is anonymous, the page gets the frame that `mmu_alloc_phys` returns, in the tables and among the pages of the
-- area; every other page of the space and all else of the areas is as it was, and a slot of the directories whose
-- word is present still has a table. If it has no object, the handler reads through a NULL pointer. If there is no
-- such area it returns -1.
pub handle_fault-IsHandled :
    (bmp : Bytes) (map : Space) (areas : List VmArea) (addr w : ℕ)
    → AreBytes bmp
    → IsTabled map
    → addr < 2 ^ 39
    → w < 2 ^ 39
    → IsHandled bmp map (addr - addr % 4096) w areas (handle_fault bmp map areas addr)
unfolding handle_fault
handle_fault-IsHandled bmp map areas addr w bytes tabled user asked =
    fault_loop-IsHandled bmp map (addr - addr % 4096) w bytes tabled (omega arith) asked areas
