-- ===== src/Ext2/Map.antt =====
-- The blocks of a file, `ext2_inode_blk` and `ext2_set_inode_blk` of kernel/dev/ext2/ext2.c.
pub mod Words
use micro.Prelude.{ℕ, ◌+◌, ◌-◌, ◌*◌, ◌/◌, ◌%◌, ◌^◌, get_or, set, if◌then◌else◌, ltb}
use micro.Bitmap.{Bytes}
use micro.Ext2.Codec.{splice, slice, le_number, le_bytes}
use micro.Ext2.{Inode, Volume, write_block}

-- `buf[k]` of an array of `uint32_t`
unfoldable pub get_word : Bytes → ℕ → ℕ
get_word buf k = le_number (slice buf (4 * k) 4)

unfoldable pub set_word : Bytes → (k v : ℕ) → Bytes
set_word buf k v = splice buf (4 * k) (le_bytes 4 v)

-- blocks per pointer block, and where the doubly and the triply indirect blocks start
unfoldable pub bpp : Volume → ℕ
bpp vol = vol.blksize / 4

unfoldable pub dind : Volume → ℕ
dind vol = 12 + bpp vol

unfoldable pub tind : Volume → ℕ
tind vol = dind vol + bpp vol * bpp vol

unfoldable pub inode_blk : Volume → Inode → (i : ℕ) → ℕ
inode_blk vol ino i =
    let at : ℕ → ℕ → ℕ = λ blk k. get_word (vol.disk blk) k in
    if ltb i 12
    then get_or ino.blocks i 0
    else if ltb i (dind vol)
    then at (get_or ino.blocks 12 0) (i - 12)
    else if ltb i (tind vol)
    then at (at (get_or ino.blocks 13 0) ((i - dind vol) / bpp vol)) ((i - dind vol) % bpp vol)
    else at (at (at (get_or ino.blocks 14 0) ((i - dind vol) / bpp vol)) ((i - tind vol) / bpp vol))
        ((i - tind vol) % bpp vol)

-- The doubly and the triply indirect blocks are not set.
unfoldable pub set_inode_blk : Volume → Inode → (i blk : ℕ) → Volume × Inode
set_inode_blk vol ino i blk =
    let buf = vol.disk (get_or ino.blocks 12 0) in
    if ltb i 12
    then (
      vol,
      record ino {
        blocks = set ino.blocks i blk;
        sectors = (ino.sectors + vol.blksize / 512) % 2 ^ 32;
      },
    )
    else if ltb i (dind vol)
    then (write_block vol (get_or ino.blocks 12 0) (set_word buf (i - 12) blk), ino)
    else (vol, ino)
