-- ===== src/Ext2/File.antt =====
-- Reading and writing files, `ext2_read` and `ext2_write` of kernel/dev/ext2/ext2.c.
pub mod Contents
pub mod Read
pub mod Blocks
pub mod Write
mod Tests
use micro.Prelude.{
  ℕ, zero, suc, ◌+◌, ◌-◌, ◌*◌, ◌/◌, ◌%◌, ◌^◌, List, [], ◌∷◌, ◌++◌, if◌then◌else◌, ltb, ◌==◌,
  add_size, sub_size, length,
}
use micro.Bitmap.{Bytes}
use micro.Ext2.Codec.{slice, splice}
use micro.Ext2.{Inode, Volume, read_inode, write_inode, write_block}
use micro.Ext2.Alloc.{alloc_blk}
use micro.Ext2.Map.{inode_blk, set_inode_blk}

-- The loop of `ext2_read` from block `i` on with `left` blocks after it, from the blocks that `block` reads.
module _ (block : ℕ → Bytes) (blksize startblk modoff endblk modend size : ℕ) where
  unfoldable pub read_chunk : (i : ℕ) → Bytes
  read_chunk i =
      let start = if i == startblk then modoff else 0 in
      let whole = if i == startblk then blksize - modoff else blksize in
      let bytes = if i == endblk then (if ltb modend size then modend else size) else whole in
      slice (block i) start bytes

  unfoldable pub read_loop : (i left : ℕ) → Bytes
  read_loop i zero = read_chunk i
  read_loop i (suc left) = read_chunk i ++ read_loop (suc i) left

-- The read of `size` bytes of a file, whose size lies in the inode in memory, from `off` on: what is
-- returned, and the bytes in the buffer. The numbers of blocks are of 32 bits.
unfoldable pub read_bytes : Volume → (num off size : ℕ) → Bytes
read_bytes vol num off size =
    let ino = read_inode vol num in
    let startblk = off / vol.blksize % 2 ^ 32 in
    let endblk = (size + off) / vol.blksize % 2 ^ 32 in
    if ltb endblk startblk
    then []
    else read_loop (λ i. vol.disk (inode_blk vol ino i)) vol.blksize startblk (off % vol.blksize)
        endblk ((size + off) % vol.blksize) size startblk (endblk - startblk)

unfoldable pub ext2_read : Volume → (num file_size off size : ℕ) → ℕ × Bytes
ext2_read vol num file_size off size =
    if ltb file_size off
    then (0, [])
    else if ltb file_size (add_size off size)
    then (if file_size - off == 0
        then (0, [])
        else (file_size - off, read_bytes vol num off (file_size - off)))
    else (size, read_bytes vol num off size)

-- The loop of `ext2_write`: `ptroff` bytes of `buf` are written already.
module _ (blksize startblk modoff endblk modend : ℕ) (buf : Bytes) where
  unfoldable pub write_start : (i : ℕ) → ℕ
  write_start i = if i == startblk then modoff else 0

  unfoldable pub write_size : (i : ℕ) → ℕ
  write_size i =
      let wsize = if i == startblk then blksize - modoff else blksize in
      if i == endblk then wsize - (blksize - modend) else wsize

  unfoldable pub write_chunk : (i ptroff : ℕ) → Bytes → Bytes
  write_chunk i ptroff fullbuf = splice fullbuf (write_start i) (slice buf ptroff (write_size i))

  unfoldable pub write_loop : Volume → Inode → (i cnt ptroff : ℕ) → Volume
  write_loop vol ino i zero ptroff = vol
  write_loop vol ino i (suc cnt) ptroff =
      let blk = inode_blk vol ino i in
      let vol' = write_block vol blk (write_chunk i ptroff (vol.disk blk)) in
      write_loop vol' ino (suc i) cnt (ptroff + write_size i)

-- The part of `ext2_write` after the resize.
unfoldable pub write_bytes : Volume → (num off : ℕ) → Bytes → Volume
write_bytes vol num off buf =
    let size = length buf in
    let startblk = off / vol.blksize % 2 ^ 32 in
    let endblk = (size + off) / vol.blksize % 2 ^ 32 in
    write_loop vol.blksize startblk (off % vol.blksize) endblk ((size + off) % vol.blksize) buf vol
      (read_inode vol num) startblk (endblk + 1 - startblk) 0

-- The loop of `ext2_resize`: blocks are put behind those that the inode counts.
unfoldable pub grow : Volume → Inode → (cnt : ℕ) → Volume × Inode
grow vol ino zero = (vol, ino)
grow vol ino (suc cnt) =
    let got = alloc_blk vol in
    let r = set_inode_blk got.1 ino (ino.sectors / (vol.blksize / 512)) got.0 in grow r.0 r.1 cnt

-- The volume, and the size of the inode in memory. `size - file->size` wraps.
unfoldable pub ext2_resize : Volume → (num file_size size : ℕ) → Volume × ℕ
ext2_resize vol num file_size size =
    let diff = sub_size size file_size in
    let cnt = if diff % vol.blksize == 0 then diff / vol.blksize else diff / vol.blksize + 1 in
    let r = grow vol (read_inode vol num) cnt in
    (write_inode r.0 num (record r.1 { size = size % 2 ^ 32; size_u = size / 2 ^ 32 }), size)

-- The bytes written, the volume, and the size of the inode in memory.
unfoldable pub ext2_write : Volume → (num file_size off : ℕ) → Bytes → ℕ × Volume × ℕ
ext2_write vol num file_size off buf =
    let end = add_size off (length buf) in
    let r = if ltb file_size end then ext2_resize vol num file_size end else (vol, file_size) in
    (length buf, write_bytes r.0 num off buf, r.1)
