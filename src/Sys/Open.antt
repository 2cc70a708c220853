-- ===== src/Sys/Open.antt =====
-- `open` of kernel/kern/fs/open.c, and `pipe` of kernel/kern/fs/pipe.c, up to the pipe itself.
pub mod Result
pub mod Exclusive
use Prim.Native.Nat.{bit_and, bit_or}
use micro.Prelude.{
  ℕ, zero, suc, ◌+◌, ◌-◌, ◌%◌, ◌^◌, Bool, true, false, not, ◌&&◌, ◌||◌, Option, none, some, List,
  [], ◌∷◌, ◌++◌, ◌==◌, leb, ltb, if◌then◌else◌, set, length,
}
use micro.Errno.{Errno, code, ebadf, einval, enoent, eexist, emfile, eacces}
use micro.Path.{Text, vfs_mkcanon}
use micro.Vfs.Inode.{Inode, is_dir, is_reg, test_bits, s_ifreg}
use micro.Vfs.Driver.{Outcome, done, error, fault, Op, pure, throw, ◌>>=◌, ◌>>◌, Drivers}
use micro.Vfs.File.{File}
use micro.Vfs.Names.{Opened, vfs_open, vfs_mknod, check}
use micro.Sys.{System, Task, env_of, lift, ptr_valid}
use micro.Sys.Slots.{free_slot_from_three, find_slots}
use micro.Sys.Desc.{set_slot}

abbrev pub o_creat : ℕ
o_creat = 0x40

abbrev pub o_excl : ℕ
o_excl = 0x80

-- `mode & ~umask`, on 32-bit words
abbrev pub unmask : (mode umask : ℕ) → ℕ
unmask mode umask = mode - bit_and mode umask

-- `(flags & 3) == O_RDONLY || (flags & 3) == O_RDWR`, and the same for writing
abbrev pub for_reading : ℕ → Bool
for_reading flags = (flags % 4 == 0) || (flags % 4 == 2)

abbrev pub for_writing : ℕ → Bool
for_writing flags = (flags % 4 == 1) || (flags % 4 == 2)

module _ {W : Type 0} where
  -- The new inode goes on the heap, and the result is its place; then the file.
  unfoldable pub alloc_file : Opened → Op (System W) ℕ
  alloc_file o s = done (length s.files) (record s {
    inodes = s.inodes ++ o.inode ∷ [];
    files =
        s.files ++ record { inode = length s.inodes; off = 0; flags = o.flags; ops = o.ops } ∷ [];
  })

module _ {W : Type 0} (drivers : Drivers W) where
  -- `vfs_open` and the tests of its result `e`, up to `if (e) return e;`. A file that is made is
  -- opened again, and the result of that is not tested: a failure, which leaves `file` unset, is a fault.
  unfoldable pub open_or_create : (path : Text) (flags mode : ℕ) → Op (System W) Opened
  open_or_create path flags mode s = elim (vfs_open (env_of drivers s) path flags s.fs) [
    | done o w ↦
        if test_bits flags o_excl
        then error eexist (record s { fs = w })
        else done o (record s { fs = w })
    | fault ↦ fault
    | error e w ↦
        if code e == code enoent
        then (if not (test_bits flags o_creat)
            then error e (record s { fs = w })
            else elim (vfs_mknod (env_of drivers s) path (bit_or (unmask mode s.task.umask) s_ifreg)
                0 s.task.euid s.task.egid w) [
                  | error e' w' ↦ error e' (record s { fs = w' })
                  | fault ↦ fault
                  | done _ w' ↦ elim (vfs_open (env_of drivers s) path flags w') [
                    | done o w'' ↦ done o (record s { fs = w'' })
                    | error e'' w'' ↦ fault
                    | fault ↦ fault
                  ]
                ])
        else if test_bits flags o_excl
        then error eexist (record s { fs = w })
        else error e (record s { fs = w })
  ]

  -- `CHECK_RPERM` and `CHECK_WPERM` of the opened inode
  unfoldable pub check_opened : (flags : ℕ) → Opened → Op (System W) (Unit {0})
  check_opened flags o s =
      lift
        (check (env_of drivers s) (for_reading flags) o.inode 4 >>= λ _.
          check (env_of drivers s) (for_writing flags) o.inode 2)
        s

  unfoldable pub do_sys_open : (path : Text) (flags mode : ℕ) → Op (System W) ℕ
  unfolding open_or_create check_opened alloc_file
  do_sys_open path flags mode s = elim (free_slot_from_three s.task.fds) [
    | none ↦ error emfile s
    | some i ↦
        (do
          o ← open_or_create path flags mode
          _ ← check_opened flags o
          p ← alloc_file o
          _ ← set_slot i (some p)
          pure i)
          s
  ]

  pub sys_open : (path : Text) (mapped : Bool) (flags mode : ℕ) → Op (System W) ℕ
  unfolding do_sys_open
  sys_open path mapped flags mode = do
    _ ← ptr_valid mapped
    if ltb 2 (flags % 4)
        then throw einval
        else (λ s. do_sys_open (vfs_mkcanon path (some s.task.workd)) flags mode s)

-- `O_RDONLY` and `O_WRONLY` files of the two inodes of a new pipe, at free slots of the table. The
-- inodes are those of `pipe_create`, and stay behind when no slots are free.
pub sys_pipe : {W : Type 0} → (ends : Inode × Inode) → Op (System W) (ℕ × ℕ)
sys_pipe (reader, writer) s =
    let files = length s.files in
    let inodes = length s.inodes in
    let made = record s { inodes = s.inodes ++ reader ∷ writer ∷ [] } in
    elim (find_slots s.task.fds) [
      | none ↦ error emfile made
      | some ab ↦ done ab (record made {
        files =
            s.files
            ++ record { inode = inodes; off = 0; flags = 0; ops = reader.fops }
              ∷ record { inode = inodes + 1; off = 0; flags = 1; ops = writer.fops }
              ∷ [];
        task = record (s.task) {
          fds = set (set s.task.fds ab.0 (some files)) ab.1 (some (files + 1));
        };
      })
    ]
