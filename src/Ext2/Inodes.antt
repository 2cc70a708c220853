-- ===== src/Ext2/Inodes.antt =====
-- Inodes in the table on the disk: `ext2_read_inode` and `ext2_write_inode` of kernel/dev/ext2/ext2.c.
use micro.Prelude.{
  ℕ, ◌+◌, ◌%◌, ◌≤◌, ◌≡◌, refl, sym, ap, ◌∙◌, List, [], ◌∷◌, ◌++◌, take, drop, length, arith,
  put_self, append-nil,
}
use micro.Ext2.Codec.{
  encode, decode, splice, slice, slice-splice, IsRow, decode-encode, total, length-encode,
  take-length, drop-length,
}
use micro.Ext2.{
  Inode, Volume, inode_members, to_inode, inode_widths, inode_size, write_block, inode_off,
  inode_blk_num, read_inode, write_inode,
}

-- An inode as the disk can hold it: its arrays have their lengths, and its members fit their widths.
unfoldable pub IsInode : Inode → Type 0
IsInode ino =
    (length ino.blocks ≡ 15) × (length ino.os_spec2 ≡ 12) × IsRow inode_widths (inode_members ino)

-- The members after the array of blocks stand where `to_inode` reads them.
after_blocks :
    (blocks rest : List ℕ)
    → length blocks ≡ 15
    → (take 15 (blocks ++ rest) ≡ blocks) × (drop 15 (blocks ++ rest) ≡ rest)
after_blocks blocks rest h = (
  ap (λ n. take n (blocks ++ rest)) (sym h) ∙ take-length blocks rest,
  ap (λ n. drop n (blocks ++ rest)) (sym h) ∙ drop-length blocks rest,
)

to_inode-inode_members : (ino : Inode) → length ino.blocks ≡ 15 → to_inode (inode_members ino) ≡ ino
unfolding to_inode inode_members slice
to_inode-inode_members ino h =
    let (a, b) =
      after_blocks ino.blocks
        (ino.gen_num ∷ ino.file_acl ∷ ino.size_u ∷ ino.frag_addr ∷ ino.os_spec2) h in
    rw (a, b) refl

-- The inode that was written, with members that fit their widths, is read back, if the block has room for it at its place.
pub read_inode-write_inode :
    (vol : Volume) (num : ℕ) (ino : Inode)
    → IsInode ino
    → inode_off vol num % vol.blksize + inode_size ≤ length (vol.disk (inode_blk_num vol num))
    → read_inode (write_inode vol num ino) num ≡ ino
unfolding read_inode write_inode write_block IsInode inode_blk_num inode_off total
read_inode-write_inode vol num ino (h, k, row) fits =
    let blk = inode_blk_num vol num in
    let off = inode_off vol num % vol.blksize in
    let bytes = encode inode_widths (inode_members ino) in
    let n : length bytes ≡ 128 = length-encode inode_widths (inode_members ino) row in
    ap (λ b. to_inode (decode inode_widths (slice b off 128)))
      (put_self vol.disk blk (splice (vol.disk blk) off bytes))
    ∙ ap (λ m. to_inode (decode inode_widths (slice (splice (vol.disk blk) off bytes) off m)))
        (sym n)
    ∙ ap (λ b. to_inode (decode inode_widths b))
        (slice-splice (vol.disk blk) bytes off (omega arith) ∙ sym (append-nil bytes))
    ∙ ap to_inode (decode-encode inode_widths (inode_members ino) [] row)
    ∙ to_inode-inode_members ino h
