-- ===== src/Ext2/Attributes/Symlink.antt =====
-- Symbolic links, `ext2_symlink` and `ext2_readlink` of kernel/dev/ext2/ext2.c.
use micro.Prelude.{
  ℕ, suc, ◌+◌, ◌%◌, ◌^◌, ◌≤◌, ◌≡◌, refl, ap, ◌∙◌, true, ltb, if◌then◌else◌, some, List, [], ◌∷◌,
  ◌++◌, take, drop, replicate, length, arith,
}
use micro.Bitmap.{Bytes}
use micro.Bitmap.Bytes.{AreBytes}
use micro.Vfs.Inode.{is_lnk}
use micro.Ext2.{
  Inode, Volume, inode_members, inode_size, inode_off, inode_blk_num, read_inode, write_inode,
}
use micro.Ext2.Inodes.{IsInode, read_inode-write_inode}
use micro.Ext2.Codec.{Fits, decode, IsRow, total, length-encode, take-length, splice, slice}
use micro.Ext2.Codec.Rows.{
  AreBytes-append, AreBytes-drop, AreBytes-encode, encode-decode, decode-IsRow, IsRow-split,
  IsRow-append, Fits-small,
}
use micro.Ext2.Codec.Splice.{length-splice}
use micro.Ext2.Attributes.{inosize, block_widths, link_bytes, ext2_readlink, ext2_symlink}

length-decode : (ws : List ℕ) (bs : Bytes) → length (decode ws bs) ≡ length ws
unfolding decode
length-decode [] bs = refl
length-decode (w ∷ ws) bs = ap suc (length-decode ws (drop w bs))

-- An inode with another text in its array, of another size.
IsInode-blocks :
    (ino : Inode) (blocks : List ℕ) (size : ℕ)
    → IsInode ino
    → length blocks ≡ 15
    → IsRow block_widths blocks
    → Fits 4 size
    → IsInode (record ino { blocks = blocks; size = size })
unfolding IsInode inode_members IsRow
IsInode-blocks ino blocks size
      (
        n,
        o,
        (
          mode,
          (
            uid,
            (
              s,
              (atime, (ctime, (mtime, (dtime, (gid, (nlink, (sectors, (flags, (spec, rest))))))))),
            ),
          ),
        ),
      )
      l row f =
    let tail = ino.gen_num ∷ ino.file_acl ∷ ino.size_u ∷ ino.frag_addr ∷ ino.os_spec2 in
    let (old, kept) =
      IsRow-split block_widths (4 ∷ 4 ∷ 4 ∷ 4 ∷ replicate 12 1) ino.blocks tail n rest in
    (
      l,
      o,
      (
        mode,
        (
          uid,
          (
            f,
            (
              atime,
              (
                ctime,
                (
                  mtime,
                  (
                    dtime,
                    (
                      gid,
                      (
                        nlink,
                        (
                          sectors,
                          (
                            flags,
                            (
                              spec,
                              IsRow-append block_widths (4 ∷ 4 ∷ 4 ∷ 4 ∷ replicate 12 1) blocks tail
                                  row kept,
                            ),
                          ),
                        ),
                      ),
                    ),
                  ),
                ),
              ),
            ),
          ),
        ),
      ),
    )

module _ (vol : Volume) (num : ℕ) (link : Bytes) (bytes : AreBytes link) (short : length link ≤ 60)
    (is : IsInode (read_inode vol num)) where
  area : Bytes
  area = splice (link_bytes (read_inode vol num)) 0 link

  linked : Inode
  linked = record (read_inode vol num) {
    blocks = decode block_widths area;
    size = length link % 2 ^ 32;
  }

  length-link_bytes : length (link_bytes (read_inode vol num)) ≡ 60
  unfolding link_bytes IsInode inode_members IsRow total
  length-link_bytes =
      let ino = read_inode vol num in
      let (n, o, (a, (b, (c, (d, (e, (f, (g, (h, (i, (j, (k, (l, rest))))))))))))) = is in
      let tail = ino.gen_num ∷ ino.file_acl ∷ ino.size_u ∷ ino.frag_addr ∷ ino.os_spec2 in
      length-encode block_widths ino.blocks
        (IsRow-split block_widths (4 ∷ 4 ∷ 4 ∷ 4 ∷ replicate 12 1) ino.blocks tail n rest).0

  length-area : length area ≡ 60
  unfolding area
  length-area =
      length-splice (link_bytes (read_inode vol num)) link 0 (omega (arith, length-link_bytes))
      ∙ length-link_bytes

  area-AreBytes : AreBytes area
  unfolding area splice link_bytes
  area-AreBytes =
      let old = link_bytes (read_inode vol num) in
      AreBytes-append link (drop (0 + length link) old) bytes (
        AreBytes-drop (0 + length link) old
          (AreBytes-encode block_widths (read_inode vol num).blocks))

  linked-IsInode : IsInode linked
  unfolding linked total
  linked-IsInode =
      IsInode-blocks (read_inode vol num) (decode block_widths area) (length link % 2 ^ 32) is
        (length-decode block_widths area) (decode-IsRow block_widths area area-AreBytes length-area)
        (Fits-small (length link % 2 ^ 32) (omega arith))

  linked_bytes : link_bytes linked ≡ link ++ drop (length link) (link_bytes (read_inode vol num))
  unfolding link_bytes linked area splice total
  linked_bytes =
      let n : 0 + length link ≡ length link = omega arith in
      encode-decode block_widths area area-AreBytes length-area
      ∙ ap (λ n. link ++ drop n (link_bytes (read_inode vol num))) n

  -- The text of a symbolic link, of at most 60 bytes, is read back with its length into a buffer that has
  -- room for it. The inode is one that the disk can hold, its size has no upper half, the block of its table
  -- has room for it, and the inode in memory is that of a link.
  pub ext2_symlink-ext2_readlink :
      (mode n : ℕ)
      → (read_inode vol num).size_u ≡ 0
      → inode_off vol num % vol.blksize + inode_size ≤ length (vol.disk (inode_blk_num vol num))
      → is_lnk mode ≡ true
      → length link ≤ n
      → ext2_readlink (ext2_symlink vol num link).0 num mode n ≡ some (length link, link)
  unfolding ext2_symlink ext2_readlink linked area inosize slice
  ext2_symlink-ext2_readlink mode n upper room lnk fits =
      let back : read_inode (write_inode vol num linked) num ≡ linked =
        read_inode-write_inode vol num linked linked-IsInode room in
      let size : inosize linked ≡ length link = omega (arith, upper) in
      let least : (if ltb (length link) n then length link else n) ≡ length link = ground arith in
      let text : take (length link) (link_bytes linked) ≡ link =
        ap (take (length link)) linked_bytes
        ∙ take-length link (drop (length link) (link_bytes (read_inode vol num))) in
      rw (back, lnk, size, least, text) refl
