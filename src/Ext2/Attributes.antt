-- ===== src/Ext2/Attributes.antt =====
-- The members of an inode that the calls on ext2 files read and set, kernel/dev/ext2/ext2.c.
pub mod Symlink
use Prim.Native.Nat.{bit_and, bit_or}
use micro.Prelude.{
  ℕ, ◌+◌, ◌-◌, ◌*◌, ◌/◌, ◌%◌, ◌^◌, List, [], ◌∷◌, if◌then◌else◌, ltb, ◌==◌, replicate, length,
  Option, none, some,
}
use micro.Bitmap.{Bytes}
use micro.Ext2.{Inode, Volume, read_inode, write_inode}
use micro.Ext2.Codec.{splice, slice, encode, decode}
use micro.Vfs.Inode.{s_ifmt, is_lnk}
use micro.Vfs.Inode

abbrev pub s_perms : ℕ
s_perms = 0x0fff

-- `INOSIZE(ino)`
unfoldable pub inosize : Inode → ℕ
inosize ino = ino.size_u * 2 ^ 32 + ino.size

-- The volume, and `atime` of the inode in memory.
unfoldable pub ext2_set_atime : Volume → (num atime : ℕ) → Volume × ℕ
ext2_set_atime vol num atime =
    (write_inode vol num (record (read_inode vol num) { atime = atime % 2 ^ 32 }), atime)

-- The volume, and `atime` of the inode in memory, which the function sets.
unfoldable pub ext2_set_mtime : Volume → (num mtime : ℕ) → Volume × ℕ
ext2_set_mtime vol num mtime =
    (write_inode vol num (record (read_inode vol num) { mtime = mtime % 2 ^ 32 }), mtime)

unfoldable pub ext2_chmod : Volume → (num mode : ℕ) → Volume
ext2_chmod vol num mode =
    let ino = read_inode vol num in
    write_inode vol num
      (record ino { mode = bit_or (bit_and ino.mode s_ifmt) (bit_and mode s_perms) })

-- `x != -1` of 32 bits, and the member of 16 bits that is set
unfoldable pub set_id : (x id : ℕ) → ℕ
set_id x id = if x == 2 ^ 32 - 1 then id else x % 2 ^ 16

unfoldable pub ext2_chown : Volume → (num uid gid : ℕ) → Volume
ext2_chown vol num uid gid =
    let ino = read_inode vol num in
    write_inode vol num (record ino { uid = set_id uid ino.uid; gid = set_id gid ino.gid })

-- The inode of a new file; `now` is what the clock gives.
unfoldable pub ext2_init_inode : (now : ℕ) → Inode.Inode → Inode
ext2_init_inode now file = record {
  mode = file.mode % 2 ^ 16;
  uid = file.uid % 2 ^ 16;
  size = file.size % 2 ^ 32;
  atime = now % 2 ^ 32;
  ctime = now % 2 ^ 32;
  mtime = now % 2 ^ 32;
  dtime = 0;
  gid = file.gid % 2 ^ 16;
  nlink = 1;
  sectors = 0;
  flags = 0;
  os_spec1 = 0;
  blocks = replicate 15 0;
  gen_num = 0;
  file_acl = 0;
  size_u = 0;
  frag_addr = 0;
  os_spec2 = replicate 12 0;
}

-- The inode in memory; the tables of the driver and the volume are named by numbers.
unfoldable pub inode2file :
    (ops fops priv : ℕ) → Volume → (num : ℕ) → Inode → Inode.Inode → Inode.Inode
inode2file ops fops priv vol num ino file = record file {
  ops = ops;
  fops = fops;
  inode = num;
  size = inosize ino;
  priv = priv;
  nlink = ino.nlink;
  atime = ino.atime;
  ctime = ino.ctime;
  mtime = ino.mtime;
  mode = ino.mode;
  uid = ino.uid;
  gid = ino.gid;
  blksize = vol.blksize;
  blocks = ino.sectors * (vol.blksize / 512);
}

abbrev pub block_widths : List ℕ
block_widths = replicate 15 4

-- The array of blocks as bytes, which hold the text of a symbolic link.
unfoldable pub link_bytes : Inode → Bytes
link_bytes ino = encode block_widths ino.blocks

-- The bytes copied, none for `-EINVAL`; `mode` is that of the inode in memory.
unfoldable pub ext2_readlink : Volume → (num mode n : ℕ) → Option (ℕ × Bytes)
ext2_readlink vol num mode n =
    let ino = read_inode vol num in
    let n' = if ltb (inosize ino) n then inosize ino else n in
    if is_lnk mode then some (n', slice (link_bytes ino) 0 n') else none

-- The volume, and the size of the inode in memory. A text longer than the array is not modelled: the copy
-- writes behind it.
unfoldable pub ext2_symlink : Volume → (num : ℕ) → (link : Bytes) → Volume × ℕ
ext2_symlink vol num link =
    let ino = read_inode vol num in
    let ino' = record ino {
      blocks = decode block_widths (splice (link_bytes ino) 0 link);
      size = length link % 2 ^ 32;
    } in
    (write_inode vol num ino', inosize ino')
