-- ===== src/Ext2/Dir/Append.antt =====
-- New entries of directories: `ext2_append_dirent` and the calls that end in it, `ext2_mkentry`,
-- `ext2_mkdir`, `ext2_mknod` and `ext2_link` of kernel/dev/ext2/ext2.c.
pub mod Room
pub mod Appends
use Prim.Native.Nat.{bit_and, bit_or}
use micro.Prelude.{
  ℕ, ◌+◌, ◌-◌, ◌*◌, ◌/◌, ◌%◌, ◌^◌, Bool, ◌&&◌, List, [], ◌∷◌, ◌++◌, if◌then◌else◌, ltb, leb, ◌==◌,
  length, replicate, take,
}
use micro.Bitmap.{Bytes}
use micro.Path.{Text}
use micro.Ext2.{Inode, Volume, read_inode, write_inode, write_block}
use micro.Ext2.Codec.{splice, encode}
use micro.Ext2.Alloc.{alloc_blk, alloc_inode}
use micro.Ext2.Attributes.{ext2_init_inode, s_perms}
use micro.Ext2.Map.{inode_blk, set_inode_blk}
use micro.Ext2.Dir.{dirent_widths, dirent, Found, found, missing, spins, find_entry}
use micro.Vfs.Inode.{s_ifmt, s_ifdir}
use micro.Vfs.Inode

unfoldable pub ext2_dirent_type : ℕ → ℕ
ext2_dirent_type type =
    let t = bit_and type s_ifmt in
    if t == 0x8000
    then 1
    else if t == 0x4000
    then 2
    else if t == 0x2000
    then 3
    else if t == 0x6000
    then 4
    else if t == 0x1000
    then 5
    else if t == 0xc000
    then 6
    else if t == 0xa000
    then 7
    else 0

-- The entry that is put into a directory: `dirent->size` is of 16 bits.
pub record NewEntry : Type 0 where
  pub inum : ℕ
  pub kind : ℕ
  pub name : Text

unfoldable pub new_size : NewEntry → ℕ
new_size new = (8 + length new.name) % 2 ^ 16

-- The first `dirent->size` bytes of it, after a new size is put into it.
unfoldable pub new_bytes : NewEntry → (size : ℕ) → Bytes
new_bytes new size =
    take (new_size new)
      (encode dirent_widths (new.inum ∷ size ∷ length new.name ∷ new.kind ∷ []) ++ new.name)

-- `expect`: what an entry needs, "4-byte alignment"
unfoldable pub expected : (name_len : ℕ) → ℕ
expected name_len = (8 + name_len) / 4 * 4 + 4

unfoldable pub has_room : NewEntry → Bytes → (offset : ℕ) → Bool
has_room new buf offset =
    let size = dirent buf offset 1 in
    let expect = expected (dirent buf offset 2) in
    ltb expect size && leb (new_size new) (size - expect)

unfoldable pub put_entry : NewEntry → Bytes → (offset : ℕ) → Bytes
put_entry new buf offset =
    let size = dirent buf offset 1 in
    let expect = expected (dirent buf offset 2) in
    splice (splice buf (offset + expect) (new_bytes new (size - expect))) (offset + 4)
      (encode (2 ∷ []) (expect ∷ []))

-- The block for an entry of its own, and the entry in it: `blk` is where the loop stopped.
unfoldable pub put_block : Volume → (dir : ℕ) → Inode → NewEntry → (blk : ℕ) → Volume
put_block vol dir pino new blk =
    let got = alloc_blk vol in
    let r = set_inode_blk got.1 pino (pino.sectors / (vol.blksize / 512)) got.0 in
    let buf = splice (replicate vol.blksize 0) 0 (new_bytes new (new_size new)) in
    let full = splice buf 4 (encode (2 ∷ []) (vol.blksize ∷ [])) in
    write_inode (write_block r.0 (inode_blk r.0 r.1 blk) full) dir r.1

unfoldable pub appended : Volume → (dir : ℕ) → Inode → NewEntry → Found → Volume
appended vol dir pino new (found blk offset) =
    let num = inode_blk vol pino blk in write_block vol num (put_entry new (vol.disk num) offset)
appended vol dir pino new (missing blk) = put_block vol dir pino new blk
appended vol dir pino new spins = vol

unfoldable pub ext2_append_dirent : (fuel : ℕ) → Volume → (dir : ℕ) → NewEntry → Volume
ext2_append_dirent fuel vol dir new =
    let pino = read_inode vol dir in
    appended vol dir pino new (find_entry fuel vol pino (has_room new) 0 0)

-- The volume, and the inode in memory with its number.
unfoldable pub ext2_mkentry :
    (fuel now : ℕ) → Volume → (dir : ℕ) → Inode.Inode → Text → Volume × Inode.Inode
ext2_mkentry fuel now vol dir file name =
    let got = alloc_inode vol in
    let made = write_inode got.1 got.0 (ext2_init_inode now file) in
    let new : NewEntry = record { inum = got.0; kind = ext2_dirent_type file.mode; name = name } in
    (ext2_append_dirent fuel made dir new, record file { inode = got.0 })

abbrev pub zero_file : Inode.Inode
zero_file = record {
  mode = 0;
  size = 0;
  rdev = 0;
  nlink = 0;
  atime = 0;
  mtime = 0;
  ctime = 0;
  uid = 0;
  gid = 0;
  blksize = 0;
  blocks = 0;
  inode = 0;
  priv = 0;
  ops = 0;
  fops = 0;
}

-- The entries `.` and `..`: the second has the size of the rest of the block. Its copy reads on behind the
-- entry, `behind`, up to that size.
unfoldable pub dot_entries : (blksize num dir : ℕ) → (behind : Bytes) → Bytes
dot_entries blksize num dir behind =
    encode dirent_widths (num ∷ 9 ∷ 1 ∷ 2 ∷ [])
    ++ (b'.' ∷ [])
    ++ take ((blksize - 9) % 2 ^ 16) (
        encode dirent_widths (dir ∷ (blksize - 9) % 2 ^ 16 ∷ 2 ∷ 2 ∷ [])
        ++ (b'.' ∷ b'.' ∷ [])
        ++ behind)

unfoldable pub ext2_mkdir :
    (fuel now : ℕ) → (behind : Bytes) → Volume → (dir : ℕ) → Text → (mode uid gid : ℕ) → Volume
ext2_mkdir fuel now behind vol dir name mode uid gid =
    let file = record zero_file {
      mode = bit_or (bit_and mode s_perms) s_ifdir;
      uid = uid;
      gid = gid;
      size = 1024;
    } in
    let made = ext2_mkentry fuel now vol dir file name in
    let ino = read_inode made.0 made.1.inode in
    let blk = inode_blk made.0 ino 0 in
    write_block made.0 blk
      (splice (made.0.disk blk) 0 (dot_entries vol.blksize made.1.inode dir behind))

unfoldable pub ext2_mknod :
    (fuel now : ℕ) → Volume → (dir : ℕ) → Text → (mode dev uid gid : ℕ) → Volume
ext2_mknod fuel now vol dir name mode dev uid gid =
    (ext2_mkentry fuel now vol dir
      (record zero_file { mode = mode; uid = uid; gid = gid; rdev = dev }) name).0

-- `old` is the number of the inode and `mode` its mode in memory.
unfoldable pub ext2_link : (fuel : ℕ) → Volume → (old mode : ℕ) → Text → (dir : ℕ) → Volume
ext2_link fuel vol old mode name dir =
    ext2_append_dirent fuel vol dir
      (record { inum = old; kind = ext2_dirent_type mode; name = name })
