-- ===== src/Sys/Desc.antt =====
-- The system calls on descriptors of kernel/kern/fs/fcntl.c, readwr.c, readdir.c, ioctl.c and
-- pipe.c, and `close` of open.c.
pub mod Table
pub mod Sharing
use Prim.Native.Nat.{bit_and}
use micro.Prelude.{
  ℕ, zero, suc, ◌+◌, ◌%◌, ◌^◌, Bool, true, false, ◌||◌, Option, none, some, List, [], ◌∷◌, ◌==◌,
  leb, ltb, if◌then◌else◌, set, length,
}
use micro.Errno.{Errno, Ret, ret, fail, ebadf, einval, emfile, enotdir, enotty}
use micro.Path.{Text}
use micro.Vfs.Inode.{Inode, is_dir, is_reg, test_bits}
use micro.Vfs.Driver.{Outcome, done, error, fault, Op, pure, throw, ◌>>=◌, ◌>>◌, Drivers}
use micro.Vfs.File
use micro.Vfs.File.{File}
use micro.Sys.{
  System, Task, out_of_range, fd_valid, lift, file_of, deref_file, deref_inode, ptr_valid,
}
use micro.Sys.Slots.{Fds, free_slot}

abbrev pub o_append : ℕ
o_append = 0x400

module _ {W : Type 0} where
  -- `task->fds[fd] = p`
  abbrev pub set_slot : ℕ → Option ℕ → Op (System W) (Unit {0})
  set_slot fd p s = done tt (record s { task = record (s.task) { fds = set s.task.fds fd p } })

  abbrev pub set_file : ℕ → File → Op (System W) (Unit {0})
  set_file p f s = done tt (record s { files = set s.files p f })

  abbrev pub set_inode : ℕ → Inode → Op (System W) (Unit {0})
  set_inode p node s = done tt (record s { inodes = set s.inodes p node })

  -- a `ssize_t` result, as a system call returns it
  abbrev pub settled : Ret → Op (System W) ℕ
  settled (ret n) = pure n
  settled (fail e) = throw e

  -- `fcntl`, for F_GETFD, F_GETFL, F_SETFD and the other commands
  pub sys_fcntl : (fd cmd : ℕ) → Op (System W) ℕ
  sys_fcntl fd cmd = do
    p ← file_of fd
    f ← deref_file p
    if cmd == 2
        then pure 0
        else if cmd == 4
        then pure f.flags
        else if cmd == 3
        then pure 0
        else throw einval

  unfoldable pub sys_dup : ℕ → Op (System W) ℕ
  sys_dup oldfd = do
    p ← file_of oldfd
    λ s. elim (free_slot s.task.fds) [
      | none ↦ error emfile s
      | some i ↦ (set_slot i (some p) >> pure i) s
    ]

  pub sys_dup2 : (oldfd newfd : ℕ) → Op (System W) ℕ
  sys_dup2 oldfd newfd = do
    p ← file_of oldfd
    if out_of_range newfd then throw ebadf else (set_slot newfd (some p) >> pure newfd)

  -- `lseek`, on the bit pattern of `off_t`
  pub sys_lseek : (fd offset whence : ℕ) → Op (System W) ℕ
  sys_lseek fd offset whence = do
    p ← file_of fd
    f ← deref_file p
    node ← deref_inode f.inode
    let moved = λ (off : ℕ). (set_file p (record f { off = off }) >> pure off)
    if whence == 0
        then moved ((if test_bits f.flags o_append then offset + node.size else offset) % 2 ^ 64)
        else if whence == 2
        then moved ((node.size + offset) % 2 ^ 64)
        else if whence == 1
        then moved ((f.off + offset) % 2 ^ 64)
        else throw einval

module _ {W : Type 0} (drivers : Drivers W) where
  pub sys_close : ℕ → Op (System W) ℕ
  sys_close fd = do
    p ← file_of fd
    f ← deref_file p
    node ← deref_inode f.inode
    _ ← lift (File.vfs_close drivers f node)
    set_slot fd none
    pure 0

  -- `read`: the bytes go to the user's buffer.
  pub sys_read : (fd : ℕ) (mapped : Bool) (size : ℕ) → Op (System W) (ℕ × Text)
  sys_read fd mapped size = do
    p ← file_of fd
    _ ← ptr_valid mapped
    f ← deref_file p
    node ← deref_inode f.inode
    (n, (bytes, node'), f') ← lift (File.vfs_read drivers f node size)
    _ ← set_inode f.inode node'
    _ ← set_file p f'
    count ← settled n
    pure (count, bytes)

  pub sys_write : (fd : ℕ) (mapped : Bool) (bytes : Text) → Op (System W) ℕ
  sys_write fd mapped bytes = do
    p ← file_of fd
    _ ← ptr_valid mapped
    f ← deref_file p
    node ← deref_inode f.inode
    let f₁ = (if test_bits f.flags o_append then record f { off = node.size } else f)
    (n, (_, node'), f') ← lift (File.vfs_write drivers f₁ node bytes)
    _ ← set_inode f.inode node'
    _ ← set_file p f'
    settled n

  pub sys_pread : (fd : ℕ) (mapped : Bool) (size off : ℕ) → Op (System W) (ℕ × Text)
  sys_pread fd mapped size off = do
    p ← file_of fd
    _ ← ptr_valid mapped
    f ← deref_file p
    node ← deref_inode f.inode
    (n, (bytes, node')) ← lift (File.vfs_pread drivers f node size off)
    _ ← set_inode f.inode node'
    count ← settled n
    pure (count, bytes)

  pub sys_pwrite : (fd : ℕ) (mapped : Bool) (bytes : Text) (off : ℕ) → Op (System W) ℕ
  sys_pwrite fd mapped bytes off = do
    _ ← ptr_valid mapped
    p ← file_of fd
    f ← deref_file p
    node ← deref_inode f.inode
    (n, (_, node')) ← lift (File.vfs_pwrite drivers f node bytes off)
    _ ← set_inode f.inode node'
    settled n

  -- `readdir.c`: the entries read start at the offset, which then goes up by one.
  pub sys_getdents : (fd : ℕ) (mapped : Bool) (n : ℕ) → Op (System W) (List Text)
  sys_getdents fd mapped n = do
    _ ← ptr_valid mapped
    p ← file_of fd
    f ← deref_file p
    node ← deref_inode f.inode
    if is_dir node.mode
        then (set_file p (record f { off = (f.off + 1) % 2 ^ 64 })
            >> lift (File.vfs_getdents drivers node f.off n))
        else throw enotdir

  -- `ioctl`: `argp` is null, or its page is mapped.
  pub sys_ioctl : (fd req argp : ℕ) (mapped : Bool) → Op (System W) ℕ
  sys_ioctl fd req argp mapped = do
    p ← file_of fd
    _ ← ptr_valid ((argp == 0) || mapped)
    f ← deref_file p
    node ← deref_inode f.inode
    if is_reg node.mode || is_dir node.mode
        then throw enotty
        else lift (File.vfs_ioctl drivers f node req argp)
