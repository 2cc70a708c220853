-- ===== src/Ext2/Tests.antt =====
-- Runs of kernel/dev/ext2/ext2.c on small disks.
use micro.Prelude.{◌≡◌, refl, [], ◌∷◌, arith, replicate, take, drop, some, put, sym, ap, subst}
use micro.Bitmap.Bytes.{AreBytes}
use micro.Ext2.{
  Inode, Group, Volume, read_inode, write_inode, inode_off, inode_blk_num, inode_members,
  write_block,
}
use micro.Ext2.Codec.{IsRow, Fits, splice, encode, le_bytes}
use micro.Ext2.Inodes.{IsInode, read_inode-write_inode}
use micro.Vfs.Inode.{is_lnk}
use micro.Ext2.Attributes.{ext2_readlink, ext2_symlink}
use micro.Ext2.Attributes.Symlink.{ext2_symlink-ext2_readlink}
use micro.Ext2.File.{ext2_read}
use micro.Ext2.File.Read.{IsSized, file_bytes, ext2_read-take}

abbrev group : Group
group = record {
  block_bmp = 3;
  inode_bmp = 4;
  inode_tbl = 5;
  free_blocks = 1;
  free_inodes = 2;
  dir_cnt = 0;
  padding = 0;
  res = [];
}

-- blocks of 128 bytes, of which each has the bits 0 and 2 set
abbrev volume : Volume
volume = record {
  blksize = 128;
  inodes_per_grp = 8;
  blks_per_grp = 64;
  inode_sz = 128;
  groups = group ∷ [];
  disk = λ b. 5 ∷ replicate 127 0;
}

abbrev empty_file : Inode
empty_file = record {
  mode = 33188;
  uid = 0;
  size = 300;
  atime = 1;
  ctime = 2;
  mtime = 3;
  dtime = 0;
  gid = 0;
  nlink = 1;
  sectors = 8;
  flags = 0;
  os_spec1 = 0;
  blocks = 70 ∷ replicate 14 0;
  gen_num = 0;
  file_acl = 0;
  size_u = 0;
  frag_addr = 0;
  os_spec2 = replicate 12 0;
}

empty_file-IsInode : IsInode empty_file
unfolding IsInode IsRow Fits inode_members
empty_file-IsInode = (
  refl,
  refl,
  (
    refl,
    (
      refl,
      (
        refl,
        (
          refl,
          (
            refl,
            (
              refl,
              (
                refl,
                (
                  refl,
                  (
                    refl,
                    (
                      refl,
                      (
                        refl,
                        (
                          refl,
                          (
                            refl,
                            (
                              refl,
                              (
                                refl,
                                (
                                  refl,
                                  (
                                    refl,
                                    (
                                      refl,
                                      (
                                        refl,
                                        (
                                          refl,
                                          (
                                            refl,
                                            (
                                              refl,
                                              (
                                                refl,
                                                (
                                                  refl,
                                                  (
                                                    refl,
                                                    (
                                                      refl,
                                                      (
                                                        refl,
                                                        (
                                                          refl,
                                                          (
                                                            refl,
                                                            (
                                                            refl,
                                                            (
                                                            refl,
                                                            (
                                                            refl,
                                                            (
                                                            refl,
                                                            (
                                                            refl,
                                                            (
                                                            refl,
                                                            (
                                                            refl,
                                                            (
                                                            refl,
                                                            (
                                                            refl,
                                                            (
                                                            refl,
                                                            (refl, (refl, (refl, (refl, tt)))),
                                                            ),
                                                            ),
                                                            ),
                                                            ),
                                                            ),
                                                            ),
                                                            ),
                                                            ),
                                                            ),
                                                            ),
                                                          ),
                                                        ),
                                                      ),
                                                    ),
                                                  ),
                                                ),
                                              ),
                                            ),
                                          ),
                                        ),
                                      ),
                                    ),
                                  ),
                                ),
                              ),
                            ),
                          ),
                        ),
                      ),
                    ),
                  ),
                ),
              ),
            ),
          ),
        ),
      ),
    ),
  ),
)

filled_again : read_inode (write_inode volume 2 empty_file) 2 ≡ empty_file
unfolding inode_off inode_blk_num
filled_again = read_inode-write_inode volume 2 empty_file empty_file-IsInode (omega arith)

abbrev bitmaps : Volume
bitmaps = record volume { blksize = 1; disk = λ b. 5 ∷ [] }

volume-IsSized : IsSized volume
unfolding IsSized
volume-IsSized = (omega arith, λ b. refl)

ext2_read-take_example :
    ext2_read volume 2 300 250 100 ≡ (50, take 50 (drop 250 (file_bytes volume 2 3)))
ext2_read-take_example =
    ext2_read-take volume 2 250 volume-IsSized 300 100 3 (omega arith) (omega arith) (omega arith)

abbrev filled : Volume
filled = write_inode volume 2 empty_file

filled_inode : read_inode filled 2 ≡ empty_file
filled_inode = filled_again

ext2_symlink-ext2_readlink_example :
    ext2_readlink (ext2_symlink filled 2 (b'/' ∷ b'x' ∷ [])).0 2 0xa1ff 59
    ≡ some (2, b'/' ∷ b'x' ∷ [])
unfolding AreBytes inode_off inode_blk_num write_inode write_block splice encode inode_members
    le_bytes put is_lnk
ext2_symlink-ext2_readlink_example =
    ext2_symlink-ext2_readlink filled 2 (b'/' ∷ b'x' ∷ []) (omega arith, (omega arith, tt))
      (omega arith) (subst IsInode (sym filled_inode) empty_file-IsInode) 0xa1ff 59
      (ap (λ ino. ino.size_u) filled_inode) (omega arith) refl (omega arith)
