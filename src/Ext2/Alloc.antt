-- ===== src/Ext2/Alloc.antt =====
-- The allocation of blocks and inodes from the bitmaps of the groups, kernel/dev/ext2/ext2.c.
pub mod Lowest
use micro.Prelude.{
  ℕ, zero, suc, ◌+◌, ◌-◌, ◌*◌, ◌%◌, ◌^◌, Bool, true, false, Option, none, some, List, [], ◌∷◌,
  get_or, set, if◌then◌else◌, ◌==◌,
}
use micro.Bitmap.{get_bit, set_bit}
use micro.Bitmap.First.{first_false}
use micro.Ext2.{Group, Volume, no_group, write_block, rewrite_bgds}

-- The two functions have the same body, up to the members of a group that they use.
module _ (free bmp : Group → ℕ) where
  -- The loop over the groups: the group and the bit, if there is one.
  unfoldable pub search : Volume → (i : ℕ) → List Group → Option (ℕ × ℕ)
  search vol i [] = none
  search vol i (g ∷ gs) =
      let rest = search vol (suc i) gs in
      if free g == 0
      then rest
      else or_next (first_false (get_bit (vol.disk (bmp g))) 0 (vol.blksize * 8)) rest
    where
      or_next : Option ℕ → Option (ℕ × ℕ) → Option (ℕ × ℕ)
      or_next none rest = rest
      or_next (some j) rest = some (i, j)

  -- "Set it and return"
  unfoldable pub take_bit :
      (use_one : Group → Group) → (per_grp : ℕ) → Volume → Option (ℕ × ℕ) → ℕ × Volume
  take_bit use_one per_grp vol none = (0, vol)
  take_bit use_one per_grp vol (some (i, j)) =
      let g = get_or vol.groups i no_group in
      let written = write_block vol (bmp g) (set_bit (vol.disk (bmp g)) j) in
      (
        (i * per_grp + j + 1) % 2 ^ 32,
        rewrite_bgds (record written { groups = set vol.groups i (use_one g) }),
      )

unfoldable pub use_block : Group → Group
use_block g = record g { free_blocks = g.free_blocks - 1 }

unfoldable pub use_inode : Group → Group
use_inode g = record g { free_inodes = g.free_inodes - 1 }

unfoldable pub alloc_blk : Volume → ℕ × Volume
alloc_blk vol =
    take_bit (λ g. g.free_blocks) (λ g. g.block_bmp) use_block vol.blks_per_grp vol
      (search (λ g. g.free_blocks) (λ g. g.block_bmp) vol 0 vol.groups)

unfoldable pub alloc_inode : Volume → ℕ × Volume
alloc_inode vol =
    take_bit (λ g. g.free_inodes) (λ g. g.inode_bmp) use_inode vol.inodes_per_grp vol
      (search (λ g. g.free_inodes) (λ g. g.inode_bmp) vol 0 vol.groups)
