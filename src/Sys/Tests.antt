-- ===== src/Sys/Tests.antt =====
-- Runs of the theorems on the system calls, over the file system of the tests of the virtual one.
use micro.Prelude.{
  ℕ, ◌≡◌, refl, true, Option, none, some, List, [], ◌∷◌, replicate, set, length, ◌<◌,
}
use micro.Path.{
  tokens, token_loop, strtok_r, strspn, strcspn, strcmp, render, absolute, vfs_mkcanon,
}
use micro.Vfs.Inode.{is_dir, is_lnk, test_bits}
use micro.Vfs.Perm.{vfs_checkperm}
use micro.Vfs.Mount.{vfs_getmnt}
use micro.Vfs.Driver.{done}
use micro.Vfs.Resolve.{enter, call_lookup, walk, do_vfs_resolve, vfs_resolve}
use micro.Vfs.File.{File}
use micro.Vfs.Names.{Opened, vfs_open, check}
use micro.Vfs.Tests.{inode_of, top, leaf, at_root, path_a, drivers_to, root_mount}
use micro.Sys.{System, fd_valid, env_of, lift, ptr_valid}
use micro.Sys.Slots.{free_slot_from_three, scan}
use micro.Sys.Desc.Table.{IsTable}
use micro.Sys.Desc.Sharing.{Refers}
use micro.Sys.Open.{do_sys_open}
use micro.Sys.Open.Exclusive.{IsExclusive, open_excl-IsExclusive}
use micro.Sys.Names.{UserPath, sys_chdir}
use micro.Sys.Names.Workd.{IsCanonical, chdir-IsCanonical}

-- A table of 256 slots in which the descriptors 0 and 3 refer to the same open file.
abbrev fds : List (Option ℕ)
fds = some 0 ∷ none ∷ none ∷ some 0 ∷ replicate 252 none

abbrev file : File
file = record { inode = 0; off = 5; flags = 0; ops = 0 }

abbrev system : System ℕ
system = record {
  task = record { fds = fds; workd = at_root; euid = 0; egid = 0; groups = []; umask = 18 };
  files = file ∷ [];
  inodes = leaf ∷ [];
  mounts = root_mount ∷ [];
  fs = 0;
}

fds-IsTable : IsTable fds
fds-IsTable = refl

third-Refers : Refers system 3 0 file leaf
unfolding fd_valid
third-Refers = record { slot = refl; file = refl; inode = refl }

abbrev opened : Opened
opened = record { inode = leaf; flags = 0; ops = 0 }

abbrev after_open : System ℕ
after_open = record system {
  task = record (system.task) { fds = set fds 4 (some 1) };
  files = file ∷ record { inode = 1; off = 0; flags = 0; ops = 0 } ∷ [];
  inodes = leaf ∷ leaf ∷ [];
}

-- A caller that may not read the root directory.
abbrev stranger : System ℕ
stranger = record system {
  task = record (system.task) { euid = 5; egid = 5 };
  mounts = record { path = at_root; file = inode_of 0x41c0 0 } ∷ [];
}

open_excl-IsExclusive_example :
    IsExclusive
      (drivers_to leaf)
      path_a
      128
      0
      system
      (vfs_open (env_of (drivers_to leaf) system) path_a 128 0)
      (do_sys_open (drivers_to leaf) path_a 128 0 system)
unfolding free_slot_from_three scan test_bits
open_excl-IsExclusive_example =
    open_excl-IsExclusive (drivers_to leaf) path_a 128 0 4 system refl refl

abbrev here_path : UserPath
here_path = record { text = at_root; mapped = true }

abbrev small_system : System ℕ
small_system = record system { task = record (system.task) { fds = [] } }

chdir-IsCanonical_example :
    (o : Opened) × (w : ℕ) × (vfs_open
        (env_of (drivers_to top) small_system)
        (vfs_mkcanon at_root (some at_root))
        0
        0
      ≡ done o w)
    × (is_dir o.inode.mode ≡ true)
    × (length at_root < 64)
    × IsCanonical at_root
    × (small_system ≡ record small_system {
      task = record (small_system.task) { workd = vfs_mkcanon at_root (some at_root) };
      fs = w;
    })
unfolding sys_chdir vfs_mkcanon render absolute ptr_valid vfs_open vfs_resolve check test_bits
    vfs_getmnt strcmp tokens token_loop strtok_r strspn strcspn do_vfs_resolve walk enter is_dir
    is_lnk vfs_checkperm call_lookup lift
chdir-IsCanonical_example =
    chdir-IsCanonical (drivers_to top) small_system here_path tt small_system refl
