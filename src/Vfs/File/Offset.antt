-- ===== src/Vfs/File/Offset.antt =====
-- The offset of a file in `vfs_read` of kernel/kern/fs/vfs.c.
use micro.Prelude.{ℕ, ◌+◌, ◌-◌, ◌^◌, ◌≤◌, ◌<◌, ◌≡◌, some, [], length, arith, ap}
use micro.Errno.{Errno, ret, fail, code}
use micro.Path.{Text}
use micro.Vfs.Inode.{Inode}
use micro.Vfs.Driver.{done, error, Op, Drivers}
use micro.Vfs.File.{File, settle, vfs_read, vfs_pread}

module _ {W : Type 0} (drivers : Drivers W) (f : File) (node : Inode) (size : ℕ) (w : W)
    (read : Inode → ℕ → ℕ → Op W (Text × Inode))
    (has_read : (drivers.file_ops f.ops).read ≡ some read) where
  pread_done :
      (bytes : Text) (node' : Inode) (w' : W)
      → read node f.off size w ≡ done (bytes, node') w'
      → vfs_pread drivers f node size f.off w ≡ done (ret (length bytes), (bytes, node')) w'
  unfolding vfs_pread
  pread_done bytes node' w' e = rw (has_read, vfs_pread, e, settle)

  pread_error :
      (e : Errno) (w' : W)
      → read node f.off size w ≡ error e w'
      → vfs_pread drivers f node size f.off w ≡ done (fail e, ([], node)) w'
  unfolding vfs_pread
  pread_error e w' q = rw (has_read, vfs_pread, q, settle)

  -- A read that gives bytes moves the offset by their number, where that does not wrap.
  pub read_advances :
      (bytes : Text) (node' : Inode) (w' : W)
      → read node f.off size w ≡ done (bytes, node') w'
      → f.off + length bytes < 2 ^ 64
      → vfs_read drivers f node size w
        ≡ done (ret (length bytes), (bytes, node'), record f { off = f.off + length bytes }) w'
  unfolding vfs_read
  read_advances bytes node' w' e h =
      rw (has_read, vfs_read, pread_done bytes node' w' e)
        (ap (λ o. done (ret (length bytes), (bytes, node'), record f { off = o }) w') (omega arith))

  -- A read that fails moves the offset too, where it is at least the number of the error: back, by
  -- that number.
  pub read_error_moves :
      (e : Errno) (w' : W)
      → read node f.off size w ≡ error e w'
      → code e ≤ f.off
      → f.off < 2 ^ 64
      → vfs_read drivers f node size w
        ≡ done (fail e, ([], node), record f { off = f.off - code e }) w'
  unfolding vfs_read
  read_error_moves e w' q h l =
      rw (has_read, vfs_read, pread_error e w' q)
        (ap (λ o. done (fail e, ([], node), record f { off = o }) w') (omega arith))
