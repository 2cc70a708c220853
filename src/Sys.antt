-- ===== src/Sys.antt =====
-- System calls on files: the state they work on, and the checks of kernel/include/micro/sys.h.
pub mod Slots
pub mod Desc
pub mod Open
pub mod Names
pub mod Tests
use micro.Prelude.{
  ℕ, zero, suc, ◌+◌, ◌^◌, Bool, true, false, not, ◌&&◌, ◌||◌, Option, none, some, List, [], ◌∷◌,
  leb, ltb, if◌then◌else◌, get_or, get_elem?,
}
use micro.Errno.{Errno, ebadf, efault}
use micro.Path.{Text}
use micro.Vfs.Inode.{Inode}
use micro.Vfs.Perm.{Cred}
use micro.Vfs.Mount.{Mount}
use micro.Vfs.Driver.{Outcome, done, error, fault, Op, pure, throw, ◌>>=◌, Drivers}
use micro.Vfs.Resolve.{Env}
use micro.Vfs.File.{File}

abbrev pub fd_max : ℕ
fd_max = 256

-- The fields of `struct task` that the system calls on files use; `groupcnt` is the length of `groups`.
pub record Task : Type 0 where
  pub fds : List (Option ℕ)
  pub workd : Text
  pub euid : ℕ
  pub egid : ℕ
  pub groups : List ℕ
  pub umask : ℕ

-- The running task, the `struct file` and `struct inode` objects on the kernel heap, to which
-- pointers are indices, the mount table, and the state of the drivers.
pub record System (W : Type 0) : Type 0 where
  pub task : Task
  pub files : List File
  pub inodes : List Inode
  pub mounts : List Mount
  pub fs : W

-- an `int` descriptor, by its bit pattern, is negative or at least `FD_MAX`
abbrev pub out_of_range : ℕ → Bool
out_of_range fd = leb (2 ^ 31) fd || leb fd_max fd

-- `FDVALID`: the pointer in the slot.
pub fd_valid : List (Option ℕ) → ℕ → Option ℕ
fd_valid fds fd = if out_of_range fd then none else get_or fds fd none

abbrev pub cred_of : Task → Cred
cred_of t = record { euid = t.euid; egid = t.egid; groups = t.groups }

module _ {W : Type 0} where
  abbrev pub env_of : Drivers W → System W → Env W
  env_of drivers s = record { drivers = drivers; mounts = s.mounts; cred = some (cred_of s.task) }

  -- a call of the virtual file system from a system call
  pub lift : {A : Type 0} → Op W A → Op (System W) A
  lift m s = elim (m s.fs) [
    | done a w ↦ done a (record s { fs = w })
    | error e w ↦ error e (record s { fs = w })
    | fault ↦ fault
  ]

  -- `FDVALID(fd); struct file* file = task_curr()->fds[fd];`
  pub file_of : ℕ → Op (System W) ℕ
  file_of fd s = elim (fd_valid s.task.fds fd) [ none ↦ error ebadf s | some p ↦ done p s ]

  -- a dereferenced pointer; a dangling one is a fault
  pub deref_file : ℕ → Op (System W) File
  deref_file p s = elim (get_elem? s.files p) [ none ↦ fault | some f ↦ done f s ]

  pub deref_inode : ℕ → Op (System W) Inode
  deref_inode p s = elim (get_elem? s.inodes p) [ none ↦ fault | some f ↦ done f s ]

  -- `PTRVALID`: whether the page of a user pointer is mapped is an argument of the call.
  pub ptr_valid : Bool → Op (System W) (Unit {0})
  ptr_valid mapped = if mapped then pure tt else throw efault
