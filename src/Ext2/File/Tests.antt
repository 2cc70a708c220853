-- ===== src/Ext2/File/Tests.antt =====
-- Runs of `ext2_write` of kernel/dev/ext2/ext2.c on a small disk.
use micro.Prelude.{
  ℕ, zero, suc, ◌<◌, ◌≡◌, ◌≢◌, refl, ap, [], ◌∷◌, arith, replicate, if◌then◌else◌, ◌==◌, Bool-cases,
  inl, inr,
}
use micro.Bitmap.{Bytes}
use micro.Ext2.{
  Inode, Group, Volume, Disk, read_inode, inode_off, inode_blk_num, inode_members, inode_widths,
  to_inode,
}
use micro.Ext2.Codec.{encode, decode, slice, le_bytes, le_number}
use micro.Ext2.Map.{inode_blk}
use micro.Ext2.File.{ext2_write, ext2_read}
use micro.Ext2.File.Read.{IsSized}
use micro.Ext2.File.Write.Disk.{
  IsMapped, IsOutside, on, Written, ext2_write-Written, ext2_write-ext2_read,
}

abbrev group : Group
group = record {
  block_bmp = 3;
  inode_bmp = 4;
  inode_tbl = 5;
  free_blocks = 1;
  free_inodes = 2;
  dir_cnt = 0;
  padding = 0;
  res = [];
}

-- a file of two blocks, 20 and 21
abbrev file : Inode
file = record {
  mode = 33188;
  uid = 0;
  size = 200;
  atime = 1;
  ctime = 2;
  mtime = 3;
  dtime = 0;
  gid = 0;
  nlink = 1;
  sectors = 2;
  flags = 0;
  os_spec1 = 0;
  blocks = 20 ∷ 21 ∷ replicate 13 0;
  gen_num = 0;
  file_acl = 0;
  size_u = 0;
  frag_addr = 0;
  os_spec2 = replicate 12 0;
}

abbrev blocks : Disk
blocks = λ b. if b == 6 then encode inode_widths (inode_members file) else replicate 128 7

abbrev volume : Volume
volume = record {
  blksize = 128;
  inodes_per_grp = 8;
  blks_per_grp = 64;
  inode_sz = 128;
  groups = group ∷ [];
  disk = blocks;
}

volume-IsSized : IsSized volume
unfolding IsSized encode inode_members le_bytes
volume-IsSized =
    (omega arith, λ b. elim (Bool-cases (b == 6)) [ inl e ↦ rw (e) refl | inr e ↦ rw (e) refl ])

abbrev numbers : ℕ → ℕ
numbers zero = 20
numbers (suc i) = 21

numbers_apart : (i j : ℕ) → i < 2 → j < 2 → numbers i ≡ numbers j → i ≡ j
numbers_apart zero zero h k e = refl
numbers_apart zero (suc j) h k e = absurd (omega arith)
numbers_apart (suc i) zero h k e = absurd (omega arith)
numbers_apart (suc i) (suc j) h k e = omega arith

numbers_ne : (i : ℕ) → numbers i ≢ 6
numbers_ne zero e = absurd (omega arith)
numbers_ne (suc i) e = absurd (omega arith)

numbers_map :
    (d : Disk) (i : ℕ) → i < 2 → inode_blk (on volume d) (read_inode volume 2) i ≡ numbers i
unfolding inode_blk on read_inode inode_blk_num inode_off decode encode le_number le_bytes to_inode
    slice inode_members
numbers_map d zero h = refl
numbers_map d (suc zero) h = refl
numbers_map d (suc (suc i)) h = absurd (omega arith)

volume-IsMapped : IsMapped volume 2 2 numbers
unfolding read_inode on inode_blk_num inode_off IsOutside
volume-IsMapped = record {
  apart = numbers_apart;
  inode_kept =
      λ d o. ap (λ b. to_inode (decode inode_widths (slice b 0 128))) (o 6 (λ j h. numbers_ne j));
  map_kept = λ d i o h. numbers_map d i h;
}

-- 100 bytes across the border of the two blocks
abbrev bytes : Bytes
bytes = replicate 100 9

ext2_write-Written_example :
    let r = ext2_write volume 2 200 50 bytes in
    (r.0 ≡ 100)
    × (r.2 ≡ 200)
    × Written volume 2 50 2 numbers bytes volume-IsSized volume-IsMapped
        (omega arith)
        (omega arith)
        r.1
ext2_write-Written_example =
    ext2_write-Written volume 2 50 2 numbers bytes volume-IsSized volume-IsMapped (omega arith)
      (omega arith) 200 (omega arith) (omega arith)

ext2_write-ext2_read_example :
    ext2_read (ext2_write volume 2 200 50 bytes).1 2 200 50 100 ≡ (100, bytes)
ext2_write-ext2_read_example =
    ext2_write-ext2_read volume 2 50 2 numbers bytes volume-IsSized volume-IsMapped (omega arith)
      (omega arith) 200 (omega arith) (omega arith)
