-- ===== src/Mmu/Frames.antt =====
-- The physical page frames, kernel/arch/amd64/amd64/mmu.c: `phys_bmp` is the bitmap, and a bit that is
-- set is a frame in use. The code's `BUF_SZ` is the length of the list, 200000 after `phys_init`.
pub mod Lowest
pub mod Pool
use micro.Prelude.{
  ℕ, zero, suc, ◌+◌, ◌*◌, ◌/◌, ◌≤◌, ◌<◌, Bool, true, false, Option, none, some, List, [], ◌∷◌,
  if◌then◌else◌, replicate, ◌==◌, length,
}
use micro.Bitmap.{test_bit, Bytes, get_bit, set_bit, clear_bit}
use micro.Bitmap.First.{first_false}

abbrev pub page : ℕ
page = 4096

abbrev pub phys_init : Bytes
phys_init = replicate 200000 255

-- The loops over a run of frames. A frame number past the end of the bitmap changes nothing here.
unfoldable pub mark : (it cnt : ℕ) → Bytes → Bytes
mark it zero map = map
mark it (suc cnt) map = mark (suc it) cnt (set_bit map it)

unfoldable pub unmark : (it cnt : ℕ) → Bytes → Bytes
unmark it zero map = map
unmark it (suc cnt) map = unmark (suc it) cnt (clear_bit map it)

unfoldable pub alloc_phys_at : Bytes → (p cnt : ℕ) → ℕ × Bytes
alloc_phys_at map p cnt = (p, mark (p / page) cnt map)

-- The search: a byte that is 0xff has no free frame.
unfoldable pub find_frame : (i : ℕ) → Bytes → Option ℕ
find_frame i [] = none
find_frame i (x ∷ xs) =
    let rest = find_frame (suc i) xs in
    if x == 255 then rest else in_byte i (first_false (test_bit x) 0 8) rest
  where
    in_byte : ℕ → Option ℕ → Option ℕ → Option ℕ
    in_byte i none rest = rest
    in_byte i (some j) rest = some (i * 8 + j)

-- The address 0 stands for no memory.
unfoldable pub alloc_phys : Bytes → ℕ × Bytes
alloc_phys map = take_frame (find_frame 0 map)
  where
    take_frame : Option ℕ → ℕ × Bytes
    take_frame none = (0, map)
    take_frame (some n) = alloc_phys_at map (n * page) 1

unfoldable pub free_phys : Bytes → (p cnt : ℕ) → Bytes
free_phys map p cnt = unmark (p / page) cnt map
