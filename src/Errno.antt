-- ===== src/Errno.antt =====
-- The error numbers of kernel/include/uapi/micro/errno.h that the modelled code returns, and the
-- results of system calls.
use micro.Prelude.{ℕ}

pub data Errno : Type 0 where
  eperm enoent esrch eintr ebadf echild eacces efault eexist enodev enotdir eisdir einval emfile :
      Errno
  enotty erange enosys eloop enoexec : Errno

-- the number of an error
unfoldable pub code : Errno → ℕ
code eperm = 1
code enoent = 2
code esrch = 3
code eintr = 4
code ebadf = 9
code echild = 10
code eacces = 13
code efault = 14
code eexist = 17
code enodev = 19
code enotdir = 20
code eisdir = 21
code einval = 22
code emfile = 24
code enotty = 25
code erange = 34
code enosys = 38
code eloop = 40
code enoexec = 8

-- A `long` result: a value, or the negated error number.
pub data Ret : Type 0 where
  ret : ℕ → Ret
  fail : Errno → Ret
