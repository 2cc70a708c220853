-- ===== src/Bitmap.antt =====
-- Bitmaps: `map[i / 8] & (1 << (i % 8))`, as kernel/arch/amd64/amd64/mmu.c keeps page frames and
-- kernel/dev/ext2/ext2.c blocks and inodes.
pub mod Bytes
pub mod First
use Prim.Native.Nat.{bit_and, bit_or}
use micro.Prelude.{
  ℕ, zero, suc, ◌+◌, ◌-◌, ◌*◌, ◌/◌, ◌%◌, ◌^◌, ◌≤◌, ◌<◌, Bool, true, false, not, ◌==◌, ltb,
  if◌then◌else◌, List, [], ◌∷◌, get_or, set, length,
}

-- `byte & (1 << j)`, as a condition
abbrev pub test_bit : (byte j : ℕ) → Bool
test_bit byte j = not (bit_and byte (2 ^ j) == 0)

-- `byte | (1 << j)` and `byte & ~(1 << j)`, in eight bits
abbrev pub with_bit : (byte j : ℕ) → ℕ
with_bit byte j = bit_or byte (2 ^ j)

abbrev pub without_bit : (byte j : ℕ) → ℕ
without_bit byte j = bit_and byte (255 - 2 ^ j)

abbrev pub Bytes : Type 0
Bytes = List ℕ

unfoldable pub get_bit : Bytes → ℕ → Bool
get_bit map i = test_bit (get_or map (i / 8) 0) (i % 8)

unfoldable pub set_bit : Bytes → ℕ → Bytes
set_bit map i = set map (i / 8) (with_bit (get_or map (i / 8) 0) (i % 8))

unfoldable pub clear_bit : Bytes → ℕ → Bytes
clear_bit map i = set map (i / 8) (without_bit (get_or map (i / 8) 0) (i % 8))
