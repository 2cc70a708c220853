-- ===== src/Ext2/Dir/Tests.antt =====
-- Runs on a directory of one block, kernel/dev/ext2/ext2.c.
use micro.Prelude.{
  ℕ, zero, suc, ◌<◌, ◌≡◌, refl, ap, List, [], ◌∷◌, ◌++◌, some, arith, replicate, length,
  if◌then◌else◌, ◌==◌,
}
use micro.Ext2.{
  Inode, Group, Volume, Disk, read_inode, inode_off, inode_blk_num, inode_members, inode_widths,
  to_inode,
}
use micro.Ext2.Codec.{encode, decode, slice, le_bytes, le_number, IsRow, Fits}
use micro.Ext2.Map.{inode_blk}
use micro.Path.{strcmp}
use micro.Ext2.Dir.{dir_bytes, ext2_lookup, ext2_unlink}
use micro.Ext2.Dir.Entries.{
  Entry, entry_size, members, entry_bytes, entries_bytes, IsEntry, AreEntries,
}
use micro.Ext2.Dir.Search.{IsDirectory, all_entries, first_named, first_entry}
use micro.Ext2.Dir.Results.{inode_of, Unlinks, ext2_lookup-first_named, ext2_unlink-Unlinks}
use micro.Ext2.Dir.Append.{NewEntry}
use micro.Ext2.Dir.Append.Appends.{Appends}

abbrev group : Group
group = record {
  block_bmp = 3;
  inode_bmp = 4;
  inode_tbl = 5;
  free_blocks = 1;
  free_inodes = 2;
  dir_cnt = 0;
  padding = 0;
  res = [];
}

abbrev dir : Inode
dir = record {
  mode = 16877;
  uid = 0;
  size = 512;
  atime = 1;
  ctime = 2;
  mtime = 3;
  dtime = 0;
  gid = 0;
  nlink = 1;
  sectors = 1;
  flags = 0;
  os_spec1 = 0;
  blocks = 20 ∷ replicate 14 0;
  gen_num = 0;
  file_acl = 0;
  size_u = 0;
  frag_addr = 0;
  os_spec2 = replicate 12 0;
}

abbrev dot : Entry
dot = record { inum = 2; kind = 2; name = b'.' ∷ []; pad = replicate 3 0 }

abbrev one : Entry
one = record { inum = 7; kind = 1; name = b'a' ∷ []; pad = replicate 491 0 }

abbrev entries : ℕ → List Entry
entries i = dot ∷ one ∷ []

abbrev blocks : Disk
blocks = λ b.
    if b == 20
    then entries_bytes (entries 0)
    else replicate 128 0 ++ (encode inode_widths (inode_members dir) ++ replicate 256 0)

abbrev volume : Volume
volume = record {
  blksize = 512;
  inodes_per_grp = 8;
  blks_per_grp = 64;
  inode_sz = 128;
  groups = group ∷ [];
  disk = blocks;
}

volume-inode : read_inode volume 2 ≡ dir
unfolding read_inode inode_blk_num inode_off decode encode le_number le_bytes to_inode slice
    inode_members
volume-inode = refl

volume-block :
    (i : ℕ)
    → i < 1
    → volume.disk (inode_blk volume (read_inode volume 2) i) ≡ entries_bytes (entries i)
unfolding inode_blk
volume-block zero h = ap (λ ino. volume.disk (inode_blk volume ino 0)) volume-inode
volume-block (suc i) h = absurd (omega arith)

volume-bytes : dir_bytes (read_inode volume 2) ≡ 512
unfolding dir_bytes
volume-bytes = ap dir_bytes volume-inode

entries-size : length (entries_bytes (entries 0)) ≡ 512
unfolding entries_bytes entry_bytes encode le_bytes members entry_size
entries-size = refl

entries-AreEntries : AreEntries (entries 0)
unfolding AreEntries IsEntry members entry_size IsRow Fits
entries-AreEntries = ((refl, (refl, (refl, (refl, tt)))), ((refl, (refl, (refl, (refl, tt)))), tt))

volume-IsDirectory : IsDirectory volume (read_inode volume 2) 1 entries
volume-IsDirectory = record {
  sized = omega arith;
  stored = volume-block;
  entries = λ i h. entries-AreEntries;
  full = λ i h. entries-size;
  counted = volume-bytes;
}

enough : dir_bytes (read_inode volume 2) < 600
enough = omega (arith, volume-bytes)

ext2_lookup-first_named_example :
    ext2_lookup 600 volume 2 (b'a' ∷ []) ≡ some (7, read_inode volume 7)
unfolding first_named first_entry all_entries inode_of strcmp
ext2_lookup-first_named_example =
    ext2_lookup-first_named volume 2 1 entries (b'a' ∷ []) volume-IsDirectory 600 enough

ext2_unlink-Unlinks_example :
    Unlinks volume (read_inode volume 2) (some one) (ext2_unlink 600 volume 2 (b'a' ∷ []))
unfolding first_named first_entry all_entries strcmp
ext2_unlink-Unlinks_example =
    ext2_unlink-Unlinks volume 2 1 entries (b'a' ∷ []) volume-IsDirectory 600 enough

abbrev new : NewEntry
new = record { inum = 9; kind = 1; name = b'b' ∷ [] }
