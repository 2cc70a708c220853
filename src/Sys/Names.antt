-- ===== src/Sys/Names.antt =====
-- The system calls on path names of kernel/kern/fs/open.c and link.c.
pub mod Workd
use Prim.Native.Nat.{bit_and, bit_or}
use micro.Prelude.{
  ℕ, zero, suc, ◌+◌, Bool, true, false, not, ◌&&◌, ◌||◌, Option, none, some, List, [], ◌∷◌, ◌==◌,
  ltb, if◌then◌else◌, length,
}
use micro.Errno.{eperm, enoent, eexist, enotdir, einval, erange}
use micro.Path.{Text, vfs_mkcanon}
use micro.Vfs.Inode.{Inode, is_dir, test_bits}
use micro.Vfs.Driver.{Outcome, done, error, fault, Op, pure, throw, attempt, ◌>>=◌, ◌>>◌, Drivers}
use micro.Vfs.File
use micro.Vfs.File.{File}
use micro.Vfs.Names.{
  Opened, vfs_open, vfs_access, vfs_mkdir, vfs_mknod, vfs_unlink, vfs_symlink, vfs_link, vfs_rename,
  vfs_rmdir,
}
use micro.Sys.{System, Task, env_of, lift, ptr_valid, file_of, deref_file, deref_inode}
use micro.Sys.Desc.{set_inode}
use micro.Sys.Open.{unmask}

-- A user's path: its text, and whether its page is mapped.
pub record UserPath : Type 0 where
  pub text : Text
  pub mapped : Bool

-- `O_PATH | O_NOFOLLOW`
abbrev pub o_path_nofollow : ℕ
o_path_nofollow = 0x220000

-- the bytes of `char workd[64]`, the 0 at the end included
abbrev pub workd_size : ℕ
workd_size = 64

-- `struct file` of an opened name, which stands on the kernel stack
abbrev file_on : Opened → File
file_on o = record { inode = 0; off = 0; flags = o.flags; ops = o.ops }

module _ {W : Type 0} (drivers : Drivers W) where
  abbrev canon : System W → Text → Text
  canon s path = vfs_mkcanon path (some s.task.workd)

  pub sys_access : UserPath → (mode : ℕ) → Op (System W) (Unit {0})
  sys_access path mode = do
    _ ← ptr_valid path.mapped
    λ s. lift (vfs_access (env_of drivers s) (canon s path.text) mode) s

  -- A path that does not fit `workd` runs over the members of `struct task` behind it: a fault.
  unfoldable pub sys_chdir : UserPath → Op (System W) (Unit {0})
  sys_chdir path = do
    _ ← ptr_valid path.mapped
    o ← (λ s. lift (vfs_open (env_of drivers s) (canon s path.text) 0) s)
    if not (is_dir o.inode.mode) then throw enotdir else (λ s.
        if ltb (length (canon s path.text)) workd_size
        then done tt (record s { task = record (s.task) { workd = canon s path.text } })
        else fault)

  -- What is written to `buf`.
  pub sys_getcwd : (mapped : Bool) (size : ℕ) → Op (System W) Text
  sys_getcwd mapped size = do
    _ ← ptr_valid mapped
    if size == 0 then throw einval else (λ s.
        if ltb size (length s.task.workd + 1) then error erange s else done (s.task.workd) s)

  -- The new inode of a name is not kept: its `struct file` stands on the stack.
  pub sys_chmod : UserPath → (mode : ℕ) → Op (System W) (Unit {0})
  sys_chmod path mode = do
    _ ← ptr_valid path.mapped
    o ← (λ s. lift (vfs_open (env_of drivers s) (canon s path.text) 0) s)
    λ s.
        if not (s.task.euid == 0) && not (o.inode.uid == s.task.euid)
        then error eperm s
        else (lift (File.vfs_chmod drivers (file_on o) o.inode mode) >>= λ _. pure tt) s

  pub sys_fchmod : (fd mode : ℕ) → Op (System W) (Unit {0})
  sys_fchmod fd mode = do
    p ← file_of fd
    file ← deref_file p
    node ← deref_inode file.inode
    λ s.
        if not (s.task.euid == 0) && not (node.uid == s.task.euid)
        then error eperm s
        else (do node' ← lift (File.vfs_chmod drivers file node mode); set_inode file.inode node') s

  -- `do_chown`, for `chown` and `lchown`
  pub do_chown : Text → (uid gid : ℕ) (symlinks : Bool) → Op (System W) (Unit {0})
  do_chown path uid gid symlinks = do
    o ← (λ s.
        lift (vfs_open (env_of drivers s) (canon s path) (if symlinks then 0 else o_path_nofollow))
          s)
    λ s.
        if not (s.task.euid == 0)
        then error eperm s
        else (lift (File.vfs_chown drivers (file_on o) o.inode uid gid) >>= λ _. pure tt) s

  pub sys_chown : UserPath → (uid gid : ℕ) → Op (System W) (Unit {0})
  unfolding do_chown
  sys_chown path uid gid = do _ ← ptr_valid path.mapped; do_chown path.text uid gid true

  pub sys_lchown : UserPath → (uid gid : ℕ) → Op (System W) (Unit {0})
  unfolding do_chown
  sys_lchown path uid gid = do _ ← ptr_valid path.mapped; do_chown path.text uid gid false

  pub sys_fchown : (fd uid gid : ℕ) → Op (System W) (Unit {0})
  sys_fchown fd uid gid = do
    p ← file_of fd
    file ← deref_file p
    node ← deref_inode file.inode
    λ s.
        if not (s.task.euid == 0)
        then error eperm s
        else (do
          node' ← lift (File.vfs_chown drivers file node uid gid)
          set_inode file.inode node')
            s

  -- Any failure of the access test lets the directory be made.
  pub sys_mkdir : UserPath → (mode : ℕ) → Op (System W) (Unit {0})
  unfolding sys_access
  sys_mkdir path mode = do
    _ ← ptr_valid path.mapped
    λ s. elim (canon s path.text) [
      | [] ↦ error enoent s
      | x ∷ xs ↦
          (do
            there ← attempt (sys_access (record { text = x ∷ xs; mapped = true }) 0)
            λ s'. elim there [
              | some _ ↦ error eexist s'
              | none ↦
                  lift
                    (vfs_mkdir (env_of drivers s) (x ∷ xs) (unmask mode s.task.umask) s.task.euid
                      s.task.egid)
                    s'
            ])
            s
    ]

  pub sys_unlink : UserPath → Op (System W) (Unit {0})
  sys_unlink path = do
    _ ← ptr_valid path.mapped
    λ s. lift (vfs_unlink (env_of drivers s) (canon s path.text)) s

  pub sys_symlink : (target linkpath : UserPath) → Op (System W) (Unit {0})
  sys_symlink target linkpath = do
    _ ← ptr_valid target.mapped
    _ ← ptr_valid linkpath.mapped
    λ s.
        lift
          (vfs_symlink (env_of drivers s) target.text (canon s linkpath.text) s.task.euid
            s.task.egid)
          s

  pub sys_link : (old new : UserPath) → Op (System W) (Unit {0})
  sys_link old new = do
    _ ← ptr_valid old.mapped
    _ ← ptr_valid new.mapped
    λ s. lift (vfs_link (env_of drivers s) (canon s old.text) (canon s new.text)) s

  pub sys_rename : (old new : UserPath) → Op (System W) (Unit {0})
  sys_rename old new = do
    _ ← ptr_valid old.mapped
    _ ← ptr_valid new.mapped
    λ s. lift (vfs_rename (env_of drivers s) (canon s old.text) (canon s new.text)) s

  pub sys_rmdir : UserPath → Op (System W) (Unit {0})
  sys_rmdir path = do
    _ ← ptr_valid path.mapped
    λ s. lift (vfs_rmdir (env_of drivers s) (canon s path.text)) s

  -- The path is not made canonical, nor is the mode masked.
  pub sys_mknod : UserPath → (mode dev : ℕ) → Op (System W) (Unit {0})
  sys_mknod path mode dev = do
    _ ← ptr_valid path.mapped
    λ s. lift (vfs_mknod (env_of drivers s) path.text mode dev s.task.euid s.task.egid) s
