-- ===== src/Vfs/Names.antt =====
-- Operations on path names in kernel/kern/fs/vfs.c, over path resolution.
pub mod Access
pub mod Effect
use micro.Prelude.{ℕ, Bool, true, false, not, Option, none, some, if◌then◌else◌}
use micro.Errno.{enoent, eexist, eisdir, eacces}
use micro.Path.{Text}
use micro.Vfs.Inode.{Inode, is_dir, test_bits}
use micro.Vfs.Perm.{Cred, vfs_checkperm}
use micro.Vfs.Driver.{
  Outcome, done, error, fault, Op, pure, throw, dropped, attempt, ◌>>=◌, ◌>>◌, Drivers,
}
use micro.Vfs.Resolve.{Env, iops, vfs_resolve, get_parent_dir}

abbrev pub o_nofollow : ℕ
o_nofollow = 0x20000

abbrev pub s_iflnk_all : ℕ
s_iflnk_all = 0xa1ff

-- What `vfs_open` fills in: the inode, and the fields of `struct file`. The offset is 0.
pub record Opened : Type 0 where
  pub inode : Inode
  pub flags : ℕ
  pub ops : ℕ

module _ {W : Type 0} (env : Env W) where
  unfoldable pub vfs_open : Text → ℕ → Op W Opened
  vfs_open path flags = do
    node ← vfs_resolve env path (not (test_bits flags o_nofollow))
    ops ← (λ w. elim (env.drivers.file_ops node.fops).open_file [
      | none ↦ done node.fops w
      | some open_file ↦ open_file node node.fops w
    ])
    pure (record { inode = node; flags = flags; ops = ops })

  -- `CHECK_RPERM` and its kind: the check is made only if it is asked for
  unfoldable pub check : Bool → Inode → ℕ → Op W (Unit {0})
  check wanted node mask =
      if not wanted
      then pure tt
      else if vfs_checkperm env.cred node mask
      then pure tt
      else throw eacces

  unfoldable pub vfs_access : Text → ℕ → Op W (Unit {0})
  unfolding check
  vfs_access path mode = do
    file ← vfs_open path 0
    _ ← check (test_bits mode 1) file.inode 4
    _ ← check (test_bits mode 2) file.inode 2
    check (test_bits mode 4) file.inode 1

  pub vfs_mkdir : Text → (mode uid gid : ℕ) → Op W (Unit {0})
  vfs_mkdir path mode uid gid = do
    (dir, name) ← get_parent_dir env path
    λ w. elim (iops env dir).mkdir [
      | none ↦ done tt w
      | some mkdir ↦ dropped (mkdir dir name mode uid gid) w
    ]

  pub vfs_mknod : Text → (mode dev uid gid : ℕ) → Op W (Unit {0})
  vfs_mknod path mode dev uid gid = do
    (dir, name) ← get_parent_dir env path
    λ w. elim (iops env dir).mknod [
      | none ↦ done tt w
      | some mknod ↦ dropped (mknod dir name mode dev uid gid) w
    ]

  -- `vfs_do_unlink`
  unfoldable pub vfs_do_unlink : Inode → Text → Op W (Unit {0})
  vfs_do_unlink dir name w = elim (iops env dir).unlink [
    | none ↦ done tt w
    | some unlink ↦ dropped (unlink dir name) w
  ]

  unfoldable pub vfs_unlink : Text → Op W (Unit {0})
  unfolding vfs_do_unlink
  vfs_unlink path = do
    (dir, name) ← get_parent_dir env path
    file ← vfs_resolve env path true
    if is_dir file.mode then throw eisdir else vfs_do_unlink dir name

  pub vfs_symlink : Text → Text → (euid egid : ℕ) → Op W (Unit {0})
  unfolding vfs_access vfs_mknod
  vfs_symlink target link euid egid = do
    there ← attempt (vfs_access link 0)
    elim there [
      | some _ ↦ throw eexist
      | none ↦ do
        _ ← dropped (vfs_mknod link s_iflnk_all 0 euid egid)
        file ← vfs_resolve env link false
        λ w. elim (iops env file).symlink [
          | none ↦ error enoent w
          | some symlink ↦ symlink file target w
        ]
    ]

  pub vfs_link : Text → Text → Op W (Unit {0})
  vfs_link old new = do
    file ← vfs_resolve env old true
    (dir, name) ← get_parent_dir env new
    λ w. elim (iops env file).link [ none ↦ error enoent w | some link ↦ link file name dir w ]

  pub vfs_rename : Text → Text → Op W (Unit {0})
  unfolding vfs_link vfs_do_unlink
  vfs_rename old new = do
    _ ← vfs_link old new
    (dir, name) ← get_parent_dir env old
    vfs_do_unlink dir name

  pub vfs_rmdir : Text → Op W (Unit {0})
  unfolding vfs_do_unlink
  vfs_rmdir path = do (dir, name) ← get_parent_dir env path; vfs_do_unlink dir name
