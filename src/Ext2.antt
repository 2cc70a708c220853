-- ===== src/Ext2.antt =====
-- The ext2 file system: kernel/dev/ext2/ext2.c and ext2.h. The device keeps the blocks that are written to
-- it; a `Disk` is its blocks by number. `vol->groups` and the superblock are members of the volume.
pub mod Codec
mod Tests
pub mod Inodes
pub mod Alloc
pub mod Map
pub mod File
pub mod Dir
pub mod Attributes
use micro.Prelude.{
  ℕ, zero, suc, ◌+◌, ◌-◌, ◌*◌, ◌/◌, ◌%◌, ◌^◌, Bool, true, false, Option, none, some, List, [], ◌∷◌,
  ◌++◌, take, drop, get_or, set, replicate, if◌then◌else◌, ltb, ◌==◌, put, length,
}
use micro.Bitmap.{Bytes}
use micro.Ext2.Codec.{encode, decode, splice, slice, le_number, le_bytes}

-- `struct ext2_inode`; the upper half of the size shares its place with `dir_acl`
pub record Inode : Type 0 where
  pub mode : ℕ
  pub uid : ℕ
  pub size : ℕ
  pub atime : ℕ
  pub ctime : ℕ
  pub mtime : ℕ
  pub dtime : ℕ
  pub gid : ℕ
  pub nlink : ℕ
  pub sectors : ℕ
  pub flags : ℕ
  pub os_spec1 : ℕ
  pub blocks : List ℕ
  pub gen_num : ℕ
  pub file_acl : ℕ
  pub size_u : ℕ
  pub frag_addr : ℕ
  pub os_spec2 : List ℕ

-- the widths of the members of an inode up to `blocks`, of those after it, and of all
abbrev pub head_widths : List ℕ
head_widths = 2 ∷ 2 ∷ 4 ∷ 4 ∷ 4 ∷ 4 ∷ 4 ∷ 2 ∷ 2 ∷ 4 ∷ 4 ∷ 4 ∷ []

abbrev pub inode_widths : List ℕ
inode_widths = head_widths ++ (replicate 15 4 ++ (4 ∷ 4 ∷ 4 ∷ 4 ∷ replicate 12 1))

abbrev pub inode_size : ℕ
inode_size = 128

unfoldable pub inode_members : Inode → List ℕ
inode_members ino =
    ino.mode
    ∷ ino.uid
    ∷ ino.size
    ∷ ino.atime
    ∷ ino.ctime
    ∷ ino.mtime
    ∷ ino.dtime
    ∷ ino.gid
    ∷ ino.nlink
    ∷ ino.sectors
    ∷ ino.flags
    ∷ ino.os_spec1
    ∷ (ino.blocks ++ (ino.gen_num ∷ ino.file_acl ∷ ino.size_u ∷ ino.frag_addr ∷ ino.os_spec2))

unfoldable pub to_inode : List ℕ → Inode
to_inode vs = record {
  mode = get_or vs 0 0;
  uid = get_or vs 1 0;
  size = get_or vs 2 0;
  atime = get_or vs 3 0;
  ctime = get_or vs 4 0;
  mtime = get_or vs 5 0;
  dtime = get_or vs 6 0;
  gid = get_or vs 7 0;
  nlink = get_or vs 8 0;
  sectors = get_or vs 9 0;
  flags = get_or vs 10 0;
  os_spec1 = get_or vs 11 0;
  blocks = slice vs 12 15;
  gen_num = get_or (drop 27 vs) 0 0;
  file_acl = get_or (drop 27 vs) 1 0;
  size_u = get_or (drop 27 vs) 2 0;
  frag_addr = get_or (drop 27 vs) 3 0;
  os_spec2 = drop 4 (drop 27 vs);
}

-- `struct ext2_bgd`
pub record Group : Type 0 where
  pub block_bmp : ℕ
  pub inode_bmp : ℕ
  pub inode_tbl : ℕ
  pub free_blocks : ℕ
  pub free_inodes : ℕ
  pub dir_cnt : ℕ
  pub padding : ℕ
  pub res : List ℕ

unfoldable pub group_bytes : Group → Bytes
group_bytes g = encode (4 ∷ 4 ∷ 4 ∷ 2 ∷ 2 ∷ 2 ∷ 2 ∷ replicate 12 1) (
    g.block_bmp ∷ g.inode_bmp ∷ g.inode_tbl ∷ g.free_blocks ∷ g.free_inodes ∷ g.dir_cnt ∷ g.padding
    ∷ g.res)

unfoldable pub groups_bytes : List Group → Bytes
groups_bytes [] = []
groups_bytes (g ∷ gs) = group_bytes g ++ groups_bytes gs

abbrev pub Disk : Type 0
Disk = ℕ → Bytes

-- `struct ext2_volume`: the members of the superblock that the code reads after the mount
pub record Volume : Type 0 where
  pub blksize : ℕ
  pub inodes_per_grp : ℕ
  pub blks_per_grp : ℕ
  pub inode_sz : ℕ
  pub groups : List Group
  pub disk : Disk

abbrev pub no_group : Group
no_group = record {
  block_bmp = 0;
  inode_bmp = 0;
  inode_tbl = 0;
  free_blocks = 0;
  free_inodes = 0;
  dir_cnt = 0;
  padding = 0;
  res = [];
}

unfoldable pub write_block : Volume → (blk : ℕ) → Bytes → Volume
write_block vol blk buf = record vol { disk = put vol.disk blk buf }

abbrev pub bgds_blk : ℕ
bgds_blk = 2

unfoldable pub rewrite_bgds : Volume → Volume
rewrite_bgds vol = write_block vol bgds_blk (splice (vol.disk bgds_blk) 0 (groups_bytes vol.groups))

-- The place of an inode in the table of its group; `num - 1` is of 32 bits.
unfoldable pub inode_off : Volume → (num : ℕ) → ℕ
inode_off vol num = (num + 2 ^ 32 - 1) % 2 ^ 32 % vol.inodes_per_grp * vol.inode_sz

unfoldable pub inode_blk_num : Volume → (num : ℕ) → ℕ
inode_blk_num vol num =
    let group = get_or vol.groups ((num + 2 ^ 32 - 1) % 2 ^ 32 / vol.inodes_per_grp) no_group in
    (group.inode_tbl * vol.blksize + inode_off vol num) / vol.blksize

unfoldable pub read_inode : Volume → (num : ℕ) → Inode
read_inode vol num =
    let buf = vol.disk (inode_blk_num vol num) in
    to_inode (decode inode_widths (slice buf (inode_off vol num % vol.blksize) inode_size))

unfoldable pub write_inode : Volume → (num : ℕ) → Inode → Volume
write_inode vol num ino =
    let blk = inode_blk_num vol num in
    write_block vol blk (
      splice (vol.disk blk) (inode_off vol num % vol.blksize)
        (encode inode_widths (inode_members ino)))
