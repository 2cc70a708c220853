-- ===== src/Vfs/File.antt =====
-- Operations on an open file in kernel/kern/fs/vfs.c.
pub mod Offset
use micro.Prelude.{
  ℕ, ◌+◌, ◌-◌, ◌%◌, ◌^◌, Bool, true, false, not, ◌&&◌, Option, none, some, List, [], length,
  if◌then◌else◌,
}
use micro.Errno.{Errno, Ret, ret, fail, code, enotdir, enotty, enoent}
use micro.Path.{Text}
use micro.Vfs.Inode.{Inode, is_dir}
use micro.Vfs.Driver.{Outcome, done, error, fault, Op, ◌>>=◌, pure, dropped, FileOps, Drivers}

-- `struct file`: `inode` points into the table of inodes, and `ops` names the driver's operations.
pub record File : Type 0 where
  pub inode : ℕ
  pub off : ℕ
  pub flags : ℕ
  pub ops : ℕ

-- `off += n` on `off_t`, by its bit pattern, for a `ssize_t` result
pub add_off : ℕ → Ret → ℕ
add_off off (ret n) = (off + n) % 2 ^ 64
add_off off (fail e) = (off + 2 ^ 64 - code e) % 2 ^ 64

-- The result of a driver's operation as a `ssize_t`, beside what it returns otherwise.
pub settle : {W A : Type 0} → (A → ℕ) → A → Op W A → Op W (Ret × A)
settle count default m w = elim (m w) [
  | done a w' ↦ done (ret (count a), a) w'
  | error e w' ↦ done (fail e, default) w'
  | fault ↦ fault
]

module _ {W : Type 0} (drivers : Drivers W) where
  abbrev pub fops : File → FileOps W
  fops f = drivers.file_ops f.ops

  -- `vfs_pread`: the result, the bytes read, and the inode.
  pub vfs_pread : File → Inode → ℕ → ℕ → Op W (Ret × (Text × Inode))
  unfolding settle
  vfs_pread f node size off w = elim (fops f).read [
    | none ↦ done (ret 0, ([], node)) w
    | some read ↦ settle (λ (a : Text × Inode). length a.0) ([], node) (read node off size) w
  ]

  -- `vfs_read`
  pub vfs_read : File → Inode → ℕ → Op W (Ret × (Text × Inode) × File)
  unfolding add_off vfs_pread
  vfs_read f node size w = elim (fops f).read [
    | none ↦ done (ret 0, ([], node), f) w
    | some read ↦
        (vfs_pread f node size f.off >>= λ (n, a). pure (n, a, record f { off = add_off f.off n }))
          w
  ]

  -- `vfs_pwrite`
  pub vfs_pwrite : File → Inode → Text → ℕ → Op W (Ret × (ℕ × Inode))
  unfolding settle
  vfs_pwrite f node bytes off w = elim (fops f).write [
    | none ↦ done (ret 0, (0, node)) w
    | some write ↦ settle (λ (a : ℕ × Inode). a.0) (0, node) (write node bytes off) w
  ]

  -- `vfs_write`
  pub vfs_write : File → Inode → Text → Op W (Ret × (ℕ × Inode) × File)
  unfolding add_off vfs_pwrite
  vfs_write f node bytes w = elim (fops f).write [
    | none ↦ done (ret 0, (0, node), f) w
    | some write ↦
        (vfs_pwrite f node bytes f.off >>= λ (n, a).
        pure (n, a, record f { off = add_off f.off n }))
          w
  ]

  -- `vfs_ioctl`
  pub vfs_ioctl : File → Inode → ℕ → ℕ → Op W ℕ
  vfs_ioctl f node req arg w = elim (fops f).ioctl [
    | none ↦ error enotty w
    | some ioctl ↦ ioctl node req arg w
  ]

  -- `vfs_getdents`
  pub vfs_getdents : Inode → ℕ → ℕ → Op W (List Text)
  vfs_getdents dir off n w =
      if is_dir dir.mode
      then (elim (drivers.inode_ops dir.ops).getdents [
        | none ↦ error enotdir w
        | some getdents ↦ getdents dir off n w
      ])
      else error enotdir w

  -- `vfs_close`
  unfoldable pub vfs_close : File → Inode → Op W (Unit {0})
  vfs_close f node w = elim (fops f).release [
    | none ↦ done tt w
    | some release ↦ dropped (release node) w
  ]

  -- `vfs_chmod`
  pub vfs_chmod : File → Inode → ℕ → Op W Inode
  vfs_chmod f node mode w = elim (fops f).chmod [
    | none ↦ error enoent w
    | some chmod ↦ chmod node mode w
  ]

  -- `vfs_chown`
  pub vfs_chown : File → Inode → ℕ → ℕ → Op W Inode
  vfs_chown f node uid gid w = elim (fops f).chown [
    | none ↦ error enoent w
    | some chown ↦ chown node uid gid w
  ]
