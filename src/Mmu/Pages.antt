-- ===== src/Mmu/Pages.antt =====
-- The virtual pages of the kernel, kernel/arch/amd64/amd64/mmu.c: `kheap_dir` and `kheap_tbls`. Where the
-- linker puts a table is a parameter, by the number of the table.
pub mod Runs
pub mod TakesRun
use Prim.Native.Nat.{bit_or}
use micro.Prelude.{
  ℕ, zero, suc, ◌+◌, ◌-◌, ◌*◌, ◌/◌, ◌%◌, ◌^◌, Bool, true, false, not, ◌&&◌, ◌||◌, if◌then◌else◌,
  leb, ◌==◌, put, put2,
}
use micro.Bitmap.{Bytes}
use micro.Mmu.Words.{frame, is_present}
use micro.Mmu.Frames.{alloc_phys, free_phys}
use micro.Mmu.Tables.{pml4_idx, pdpt_idx, pd_idx, pt_idx}

pub record KernelHeap : Type 0 where
  pub dir : ℕ → ℕ
  pub tbls : ℕ → ℕ → ℕ

abbrev pub heapbase : ℕ
heapbase = 0xffffffffc0000000

-- A directory word that stands for no table of pages.
unfoldable pub no_table : ℕ → Bool
no_table e = not (is_present e) || (e / 128 % 2 == 1)

-- What a search has when it ends, or when it goes on: the count of free pages and where they start.
pub data Scan : Type 0 where
  taken : (counter pdidx ptidx : ℕ) → Scan
  going : (counter pdidx ptidx : ℕ) → Scan

-- The inner loop of `mmu_kalloc` from the page `j` on, with `left` pages to go.
unfoldable pub scan_table : KernelHeap → (n i left j counter pdidx ptidx : ℕ) → Scan
scan_table k n i zero j counter pdidx ptidx = going counter pdidx ptidx
scan_table k n i (suc left) j counter pdidx ptidx =
    let used = scan_table k n i left (suc j) 0 i (j + 1) in
    let free = scan_table k n i left (suc j) (counter + 1) pdidx ptidx in
    if is_present (k.tbls i j)
    then used
    else if leb n (counter + 1)
    then taken (counter + 1) pdidx ptidx
    else free

-- The loop over the tables that are there already.
unfoldable pub scan_dir : KernelHeap → (n left i : ℕ) → Scan → Scan
scan_dir k n left i (taken c p t) = taken c p t
scan_dir k n zero i (going c p t) = going c p t
scan_dir k n (suc left) i (going c p t) =
    let skip = scan_dir k n left (suc i) (going 0 (i + 1) 0) in
    let next = scan_dir k n left (suc i) (scan_table k n i 512 0 c p t) in
    if no_table (k.dir i) then skip else next

-- The loop over the tables that are to be made.
unfoldable pub scan_new : KernelHeap → (n left i counter pdidx : ℕ) → Scan
scan_new k n zero i counter pdidx = going counter pdidx 0
scan_new k n (suc left) i counter pdidx =
    let skip = scan_new k n left (suc i) 0 (i + 1) in
    let next = scan_new k n left (suc i) (counter + 512) pdidx in
    if is_present (k.dir i)
    then skip
    else if leb n (counter + 512)
    then taken (counter + 512) pdidx 0
    else next

-- "Allocate the pages"
unfoldable pub fill : KernelHeap → (cnt pdidx ptidx : ℕ) → KernelHeap
fill k zero pdidx ptidx = k
fill k (suc cnt) pdidx ptidx =
    if leb 512 ptidx
    then fill (record k { tbls = put2 k.tbls (pdidx + 1) 0 1 }) cnt (pdidx + 1) 1
    else fill (record k { tbls = put2 k.tbls pdidx ptidx 1 }) cnt pdidx (ptidx + 1)

-- "Assure page-alignment", and the count of pages
unfoldable pub pages_of : (size : ℕ) → ℕ
pages_of size = (if size % 4096 == 0 then size else size + (4096 - size % 4096)) / 4096

module _ (table_at : ℕ → ℕ) where
  unfoldable pub new_table : KernelHeap → (pdidx : ℕ) → KernelHeap
  new_table k pdidx = record k { dir = put k.dir pdidx (bit_or (bit_or (table_at pdidx) 1) 2) }

  unfoldable pub fill_new : KernelHeap → (cnt pdidx ptidx : ℕ) → KernelHeap
  fill_new k zero pdidx ptidx = k
  fill_new k (suc cnt) pdidx ptidx =
      let made = new_table k (pdidx + 1) in
      if leb 512 ptidx
      then fill_new (record made { tbls = put2 made.tbls (pdidx + 1) 0 1 }) cnt (pdidx + 1) 1
      else fill_new (record k { tbls = put2 k.tbls pdidx ptidx 1 }) cnt pdidx (ptidx + 1)

  -- The address, 0 when there is no room, and the tables.
  unfoldable pub take_new : KernelHeap → (n : ℕ) → Scan → ℕ × KernelHeap
  take_new k n (taken c pdidx ptidx) =
      (heapbase + (pdidx * 2 ^ 21 + ptidx * 4096), fill_new (new_table k pdidx) n pdidx ptidx)
  take_new k n (going c pdidx ptidx) = (0, k)

  unfoldable pub take_old : KernelHeap → (n : ℕ) → Scan → ℕ × KernelHeap
  take_old k n (taken c pdidx ptidx) =
      (heapbase + (pdidx * 2 ^ 21 + ptidx * 4096), fill k c pdidx ptidx)
  take_old k n (going c pdidx ptidx) = take_new k n (scan_new k n 512 0 0 0)

  unfoldable pub mmu_kalloc : KernelHeap → (n : ℕ) → ℕ × KernelHeap
  mmu_kalloc k n = take_old k n (scan_dir k n 512 0 (going 0 0 0))

  unfoldable pub mmu_kmap : KernelHeap → (virt phys flags : ℕ) → KernelHeap
  mmu_kmap k virt phys flags = record k {
    tbls = put2 k.tbls (pd_idx virt) (pt_idx virt) (bit_or (frame phys) flags);
  }

  unfoldable pub map_mmio : KernelHeap → (v mmio i cnt : ℕ) → KernelHeap
  map_mmio k v mmio i zero = k
  map_mmio k v mmio i (suc cnt) = map_mmio (mmu_kmap k (v + i * 4096) mmio 27) v mmio (suc i) cnt

  unfoldable pub mmu_map_mmio : KernelHeap → (mmio cnt : ℕ) → ℕ × KernelHeap
  mmu_map_mmio k mmio cnt =
      let got = mmu_kalloc k cnt in (got.0 + mmio % 4096, map_mmio got.1 got.0 mmio 0 cnt)

  unfoldable pub map_frames : Bytes → KernelHeap → (v i cnt : ℕ) → Bytes × KernelHeap
  map_frames bmp k v i zero = (bmp, k)
  map_frames bmp k v i (suc cnt) =
      let got = alloc_phys bmp in map_frames got.1 (mmu_kmap k (v + i * 4096) got.0 3) v (suc i) cnt

  unfoldable pub mmu_map_module : Bytes → KernelHeap → (size : ℕ) → ℕ × Bytes × KernelHeap
  mmu_map_module bmp k size =
      let got = mmu_kalloc k (pages_of size) in
      let mapped = map_frames bmp got.1 got.0 0 (pages_of size) in (got.0, mapped.0, mapped.1)

unfoldable pub mmu_kfree : KernelHeap → (ptr n : ℕ) → KernelHeap
mmu_kfree k ptr zero = k
mmu_kfree k ptr (suc n) =
    mmu_kfree (record k { tbls = put2 k.tbls (pd_idx ptr) (pt_idx ptr) 0 }) (ptr + 4096) n

unfoldable pub mmu_kvirt2phys : KernelHeap → (virt : ℕ) → ℕ
mmu_kvirt2phys k virt =
    if not (pml4_idx virt == 511) || not (pdpt_idx virt == 511)
    then 0
    else frame (k.tbls (pd_idx virt) (pt_idx virt))

unfoldable pub free_frames : Bytes → KernelHeap → (base i cnt : ℕ) → Bytes
free_frames bmp k base i zero = bmp
free_frames bmp k base i (suc cnt) =
    free_frames (free_phys bmp (mmu_kvirt2phys k (base + i * 4096)) 1) k base (suc i) cnt

unfoldable pub mmu_unmap_module : Bytes → KernelHeap → (base size : ℕ) → Bytes × KernelHeap
mmu_unmap_module bmp k base size =
    let cnt = pages_of size in (free_frames bmp k base 0 cnt, mmu_kfree k base cnt)
