-- ===== src/Ext2/Dir/Append/Appends.antt =====
-- What `ext2_append_dirent` of kernel/dev/ext2/ext2.c does to a directory.
use micro.Prelude.{ℕ, ◌≡◌, ◌≢◌, Option, none, some, ◌++◌}
use micro.Bitmap.{Bytes}
use micro.Ext2.{Inode, Volume, read_inode}
use micro.Ext2.Map.{inode_blk}
use micro.Ext2.Dir.Entries.{Entry, entry_bytes}
use micro.Ext2.Dir.Append.{NewEntry, put_block}
use micro.Ext2.Dir.Append.Room.{shrunk, grown}

-- A block of the directory and no other differs, and in it two entries stand in the place of one.
pub record Appends (vol : Volume) (ino : Inode) (e first second : Entry) (vol' : Volume)
    : Type 0 where
  pub blk : ℕ
  pub before : Bytes
  pub after : Bytes
  pub was : vol.disk (inode_blk vol ino blk) ≡ before ++ (entry_bytes e ++ after)
  pub becomes :
      vol'.disk (inode_blk vol ino blk)
      ≡ before ++ (entry_bytes first ++ (entry_bytes second ++ after))
  pub others : (b : ℕ) → inode_blk vol ino blk ≢ b → vol'.disk b ≡ vol.disk b

-- What the call does, from the first entry that has room.
unfoldable pub AppendsAny : Volume → (dir n : ℕ) → NewEntry → Option Entry → Volume → Type 0
AppendsAny vol dir n new none vol' = vol' ≡ put_block vol dir (read_inode vol dir) new n
AppendsAny vol dir n new (some e) vol' =
    Appends vol (read_inode vol dir) e (shrunk e) (grown e new) vol'
