-- ===== src/Ext2/Dir.antt =====
-- Directories of the ext2 file system: the search for a name in `ext2_lookup` and `ext2_unlink` of
-- kernel/dev/ext2/ext2.c, and what they do with the entry that they find.
pub mod Entries
pub mod Search
pub mod Results
pub mod Append
mod Tests
use micro.Prelude.{
  ℕ, zero, suc, ◌+◌, ◌-◌, ◌*◌, ◌/◌, ◌%◌, ◌^◌, Bool, true, false, ◌&&◌, Option, none, some, List, [],
  ◌∷◌, ◌++◌, if◌then◌else◌, ltb, leb, ◌==◌, length, get_or, drop, replicate,
}
use micro.Bitmap.{Bytes}
use micro.Path.{Text, strcmp}
use micro.Ext2.Codec.{slice, splice, encode, decode}
use micro.Ext2.{Inode, Volume, read_inode, write_block}
use micro.Ext2.Map.{inode_blk}

-- `struct ext2_dirent` up to its name: the inode, the size of the entry, the length of its name and its type
abbrev pub dirent_widths : List ℕ
dirent_widths = 4 ∷ 2 ∷ 1 ∷ 1 ∷ []

-- The member `k` of the entry at a place of the buffer, and its name.
unfoldable pub dirent : Bytes → (offset k : ℕ) → ℕ
dirent buf offset k = get_or (decode dirent_widths (drop offset buf)) k 0

unfoldable pub dirent_name : Bytes → (offset : ℕ) → Text
dirent_name buf offset = slice buf (offset + 8) (dirent buf offset 2)

-- `strlen(name) == dirent->name_len && !strncmp(name, dirent->name, dirent->name_len)`
unfoldable pub is_named : Text → Bytes → (offset : ℕ) → Bool
is_named name buf offset =
    (length name == dirent buf offset 2) && strcmp name (dirent_name buf offset)

-- How the loop ends: at an entry, by its block and its place there, behind the last, in that block, or not
-- within the rounds.
pub data Found : Type 0 where
  found : (blk offset : ℕ) → Found
  missing : (blk : ℕ) → Found
  spins : Found

-- The bytes of the directory: the loops take them from the count of sectors, in 32 bits.
unfoldable pub dir_bytes : Inode → ℕ
dir_bytes ino = ino.sectors * 512 % 2 ^ 32

-- The loop over the entries, up to the first that passes the test.
unfoldable pub find_entry :
    (fuel : ℕ) → Volume → Inode → (test : Bytes → ℕ → Bool) → (offset blk : ℕ) → Found
find_entry zero vol ino test offset blk = spins
find_entry (suc fuel) vol ino test offset blk =
    let buf = vol.disk (inode_blk vol ino blk) in
    let offset' = offset + dirent buf offset 1 in
    let over = find_entry fuel vol ino test 0 (blk + 1) in
    let next = find_entry fuel vol ino test offset' blk in
    if ltb (offset + blk * vol.blksize) (dir_bytes ino)
    then (if test buf offset
        then found blk offset
        else if leb vol.blksize offset'
        then over
        else next)
    else missing blk

-- The number of the inode and the inode, none for `-ENOENT`.
unfoldable pub looked_up : Volume → Inode → Found → Option (ℕ × Inode)
looked_up vol ino (found blk offset) =
    let num = dirent (vol.disk (inode_blk vol ino blk)) offset 0 in some (num, read_inode vol num)
looked_up vol ino (missing blk) = none
looked_up vol ino spins = none

-- What `ext2_lookup` does with the disk.
unfoldable pub ext2_lookup : (fuel : ℕ) → Volume → (dir : ℕ) → Text → Option (ℕ × Inode)
ext2_lookup fuel vol dir name =
    looked_up vol (read_inode vol dir)
      (find_entry fuel vol (read_inode vol dir) (is_named name) 0 0)

-- "Zero the dirent, leaving 'size' untouched"
unfoldable pub zero_entry : Bytes → (offset : ℕ) → Bytes
zero_entry buf offset =
    let size = dirent buf offset 1 in
    let zeroed = splice buf offset (replicate size 0) in
    splice zeroed (offset + 4) (encode (2 ∷ []) (size ∷ []))

-- Whether the name was there, and the volume.
unfoldable pub unlinked : Volume → Inode → Found → Bool × Volume
unlinked vol ino (found blk offset) =
    let num = inode_blk vol ino blk in
    (true, write_block vol num (zero_entry (vol.disk num) offset))
unlinked vol ino (missing blk) = (false, vol)
unlinked vol ino spins = (false, vol)

unfoldable pub ext2_unlink : (fuel : ℕ) → Volume → (dir : ℕ) → Text → Bool × Volume
ext2_unlink fuel vol dir name =
    unlinked vol (read_inode vol dir) (find_entry fuel vol (read_inode vol dir) (is_named name) 0 0)
