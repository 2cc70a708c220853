-- ===== src/Vfs/Inode.antt =====
-- `struct inode` and the file modes of kernel/include/micro/vfs.h.
use Prim.Native.Nat.{bit_and}
use micro.Prelude.{ℕ, Bool, not, ◌==◌}

-- `struct inode`. A table of function pointers is named by a number, which `Driver.antt` resolves.
pub record Inode : Type 0 where
  pub mode : ℕ
  pub size : ℕ
  pub rdev : ℕ
  pub nlink : ℕ
  pub atime : ℕ
  pub mtime : ℕ
  pub ctime : ℕ
  pub uid : ℕ
  pub gid : ℕ
  pub blksize : ℕ
  pub blocks : ℕ
  pub inode : ℕ
  pub priv : ℕ
  pub ops : ℕ
  pub fops : ℕ

abbrev pub s_ifmt : ℕ
s_ifmt = 0xf000

abbrev pub s_ifdir : ℕ
s_ifdir = 0x4000

abbrev pub s_ifreg : ℕ
s_ifreg = 0x8000

abbrev pub s_iflnk : ℕ
s_iflnk = 0xa000

unfoldable pub is_dir : ℕ → Bool
is_dir m = bit_and m s_ifmt == s_ifdir

unfoldable pub is_reg : ℕ → Bool
is_reg m = bit_and m s_ifmt == s_ifreg

unfoldable pub is_lnk : ℕ → Bool
is_lnk m = bit_and m s_ifmt == s_iflnk

-- `m & mask`, as a condition
unfoldable pub test_bits : ℕ → ℕ → Bool
test_bits m mask = not (bit_and m mask == 0)
