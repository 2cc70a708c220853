-- ===== src/Vfs/Tests.antt =====
-- Runs of the theorems on the virtual file system, over a file system with one directory.
use micro.Prelude.{
  ℕ, suc, ◌≤◌, ◌<◌, ◌≡◌, ◌≢◌, ◌↔◌, refl, true, none, some, [], ◌∷◌, ◌++◌, ◌==◌, if◌then◌else◌,
  arith, length,
}
use micro.Errno.{eacces}
use micro.Path.{Text, tokens, token_loop, strtok_r, strspn, strcspn, strcmp}
use micro.Path.Canon.{All}
use micro.Vfs.Inode.{Inode, is_dir, is_lnk, test_bits}
use micro.Vfs.Perm.{Cred, vfs_checkperm, class_of, allows, checkperm-allows}
use micro.Vfs.Mount.{Mount, vfs_getmnt, In, IsPrefix, getmnt_longest}
use micro.Vfs.Driver.{done, error, fault, Op, InodeOps, FileOps, Drivers}
use micro.Vfs.Resolve.{
  Env, enter, call_lookup, vfs_readlink, read_target, walk, do_vfs_resolve, vfs_resolve,
}
use micro.Vfs.Resolve.Trail.{Resolves, Loops, resolve-Trail}
use micro.Vfs.Resolve.Safe.{IsSound, resolve-safe}
use micro.Vfs.File.{File}
use micro.Vfs.Names.{Opened, vfs_open, vfs_access, check}
use micro.Vfs.Names.Access.{Permits, access-Permits}

-- An inode of the owner 1000, whose operations are those of the table `ops`.
abbrev pub inode_of : (mode ops : ℕ) → Inode
inode_of mode ops = record {
  mode = mode;
  size = 0;
  rdev = 0;
  nlink = 1;
  atime = 0;
  mtime = 0;
  ctime = 0;
  uid = 1000;
  gid = 100;
  blksize = 0;
  blocks = 0;
  inode = 1;
  priv = 0;
  ops = ops;
  fops = 0;
}

abbrev pub top : Inode
top = inode_of 0x41ed 0

abbrev pub leaf : Inode
leaf = inode_of 0x81a4 0

abbrev loop : Inode
loop = inode_of 0xa1ff 0

-- "/", "a" and "/a"
abbrev pub at_root : Text
at_root = 47 ∷ []

abbrev name_a : Text
name_a = 97 ∷ []

abbrev pub path_a : Text
path_a = 47 ∷ 97 ∷ []

-- Every name leads to the inode `found`, and every link to "/a"; directories cannot be made, and
-- the state counts what was unlinked.
abbrev pub inode_ops_to : Inode → InodeOps ℕ
inode_ops_to found = record {
  lookup = some (λ dir name w. done found w);
  mknod = none;
  mkdir = some (λ dir name mode uid gid w. error eacces w);
  getdents = none;
  unlink = some (λ dir name w. done tt (suc w));
  readlink = some (λ link n w. done path_a w);
  symlink = none;
  link = none;
  set_atime = none;
  set_mtime = none;
}

-- A read gives two bytes from the start of a file, and fails elsewhere.
abbrev read_two : Inode → ℕ → ℕ → Op ℕ (Text × Inode)
read_two node off size w = if off == 0 then done (104 ∷ 105 ∷ [], node) w else error eacces w

abbrev pub two_bytes : FileOps ℕ
two_bytes = record {
  open_file = none;
  release = none;
  read = some read_two;
  write = none;
  ioctl = none;
  chmod = none;
  chown = none;
}

abbrev pub drivers_to : Inode → Drivers ℕ
drivers_to found = record { inode_ops = λ _. inode_ops_to found; file_ops = λ _. two_bytes }

abbrev pub root_mount : Mount
root_mount = record { path = at_root; file = top }

abbrev env_to : Inode → Env ℕ
env_to found = record { drivers = drivers_to found; mounts = root_mount ∷ []; cred = none }

abbrev group_member : Cred
group_member = record { euid = 5; egid = 6; groups = 100 ∷ [] }

checkperm-allows_example :
    vfs_checkperm (some group_member) leaf 2 ≡ allows (class_of group_member leaf) 0x81a4 2
checkperm-allows_example = checkperm-allows group_member leaf 2

getmnt_longest_example :
    (m : Mount) × In m (root_mount ∷ [])
    × (top ≡ m.file)
    × (path_a ≡ m.path ++ name_a)
    × (0 < length m.path)
    × All (λ m'. IsPrefix m'.path path_a → length m'.path ≤ length m.path) (root_mount ∷ [])
unfolding vfs_getmnt strcmp
getmnt_longest_example = getmnt_longest (root_mount ∷ []) path_a top name_a refl

resolve-Trail_example :
    (vfs_resolve (env_to leaf) path_a true 0 ≡ done leaf 0)
    ↔ Resolves (env_to leaf) leaf 0 7 true path_a 0
resolve-Trail_example = resolve-Trail (env_to leaf) path_a true 0 leaf 0

loop-Loops : Loops (env_to loop) path_a 0
unfolding vfs_getmnt strcmp tokens token_loop strtok_r strspn strcspn is_dir is_lnk vfs_checkperm
    call_lookup read_target vfs_readlink
loop-Loops = record {
  root = top;
  relat = name_a;
  first = name_a;
  rest = [];
  link = loop;
  mounted = refl;
  parts = refl;
  enters = record { directory = refl; readable = refl; found = refl };
  symbolic = refl;
  target = refl;
}

loop-IsSound : IsSound (env_to loop)
unfolding call_lookup vfs_readlink
loop-IsSound = record {
  searches = λ f t w d e. cc;
  short = λ f w l. (path_a, w, refl, omega arith);
}

resolve-safe_example : vfs_resolve (env_to loop) path_a true 0 ≢ fault
resolve-safe_example = resolve-safe (env_to loop) loop-IsSound path_a true 0

abbrev file_at : ℕ → File
file_at off = record { inode = 0; off = off; flags = 0; ops = 0 }

access-Permits_example :
    (f : Opened) × (vfs_open (env_to leaf) path_a 0 3 ≡ done f 3) × Permits (env_to leaf) f.inode 1
unfolding vfs_access vfs_open vfs_resolve check test_bits vfs_getmnt strcmp tokens token_loop
    strtok_r strspn strcspn do_vfs_resolve walk enter is_dir is_lnk vfs_checkperm call_lookup
access-Permits_example = access-Permits (env_to leaf) path_a 1 3 3 tt refl
