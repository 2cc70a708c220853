-- ===== src/Mmu/Tables.antt =====
-- The page tables of an address space, kernel/arch/amd64/amd64/mmu.c. `pds` has the words of the page
-- directories, `pts` the page tables behind them, each the table of its own slot; the addresses that the
-- kernel maps the tables at are left out.
pub mod Lookup
use Prim.Native.Nat.{bit_or}
use micro.Prelude.{
  ℕ, zero, suc, ◌+◌, ◌-◌, ◌*◌, ◌/◌, ◌%◌, ◌^◌, Bool, true, false, not, ◌&&◌, Option, none, some,
  ◌==◌, if◌then◌else◌, put, put2,
}
use micro.Bitmap.{Bytes}
use micro.Mmu.Words.{frame, is_present}
use micro.Mmu.Frames.{alloc_phys}

abbrev pub pml4_idx : ℕ → ℕ
pml4_idx v = v / 2 ^ 39 % 512

abbrev pub pdpt_idx : ℕ → ℕ
pdpt_idx v = v / 2 ^ 30 % 512

abbrev pub pd_idx : ℕ → ℕ
pd_idx v = v / 2 ^ 21 % 512

abbrev pub pt_idx : ℕ → ℕ
pt_idx v = v / 2 ^ 12 % 512

abbrev pub page_pr : ℕ
page_pr = 1

abbrev pub page_rw : ℕ
page_rw = 2

abbrev pub page_usr : ℕ
page_usr = 4

pub record Space : Type 0 where
  pub pds : ℕ → ℕ → ℕ
  pub pts : ℕ → ℕ → Option (ℕ → ℕ)

-- `mktable` takes a frame for the table, which is all zeros.
unfoldable pub mktable : Bytes → Space → (pdptidx pdidx : ℕ) → Bytes × Space
mktable phys map pdptidx pdidx =
    let (table_phys, phys') = alloc_phys phys in
    (
      phys',
      record {
        pds =
            put2 map.pds pdptidx pdidx
              (bit_or (bit_or (bit_or table_phys page_pr) page_rw) page_usr);
        pts = put2 map.pts pdptidx pdidx (some (λ _. 0));
      },
    )

-- `map->pts[pdptidx][pdidx][ptidx] = word`; the code goes through the pointer without a test, and here
-- nothing is written if there is no table.
unfoldable pub set_entry : Space → (pdptidx pdidx ptidx word : ℕ) → Space
set_entry map i j k word = record { pds = map.pds; pts = write (map.pts i j) }
  where
    write : Option (ℕ → ℕ) → ℕ → ℕ → Option (ℕ → ℕ)
    write none = map.pts
    write (some table) = put2 map.pts i j (some (put table k word))

-- The table of the slot, made if the word of the directory is not present.
unfoldable pub with_table : Bytes → Space → (pdptidx pdidx : ℕ) → Bytes × Space
with_table bmp map i j = if is_present (map.pds i j) then (bmp, map) else mktable bmp map i j

unfoldable pub mmu_map : Bytes → Space → (virt phys flags : ℕ) → Bytes × Space
mmu_map bmp map virt phys flags =
    let made = with_table bmp map (pdpt_idx virt) (pd_idx virt) in
    (
      made.0,
      set_entry made.1 (pdpt_idx virt) (pd_idx virt) (pt_idx virt)
          (bit_or (bit_or phys flags) page_usr),
    )

-- the entry of a slot, which stands for no page if there is no table
unfoldable pub table_entry : Bool → Option (ℕ → ℕ) → ℕ → ℕ
table_entry true (some table) k = table k
table_entry true none k = 0
table_entry false table k = 0

unfoldable pub virt2phys : Space → (virt : ℕ) → ℕ
virt2phys map virt =
    let (i, j) : ℕ × ℕ = (pdpt_idx virt, pd_idx virt) in
    if pml4_idx virt == 0
    then frame (table_entry (is_present (map.pds i j)) (map.pts i j) (pt_idx virt))
    else 0
