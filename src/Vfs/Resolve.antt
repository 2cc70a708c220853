-- ===== src/Vfs/Resolve.antt =====
-- Path resolution in kernel/kern/fs/vfs.c: `do_vfs_resolve`, `vfs_resolve` and `get_parent_dir`.
pub mod Trail
pub mod Safe
use micro.Prelude.{
  ℕ, zero, suc, Bool, true, false, not, ◌&&◌, Option, none, some, List, [], ◌∷◌, ltb, if◌then◌else◌,
  length,
}
use micro.Errno.{enoent, enotdir, eacces, eloop, einval}
use micro.Path.{Text, tokens}
use micro.Vfs.Inode.{Inode, is_dir, is_lnk}
use micro.Vfs.Perm.{Cred, vfs_checkperm}
use micro.Vfs.Mount.{Mount, vfs_getmnt}
use micro.Vfs.Driver.{Outcome, done, error, fault, Op, pure, throw, ◌>>=◌, ◌>>◌, InodeOps, Drivers}

-- The drivers, the mount table, and the credentials of the caller.
pub record Env (W : Type 0) : Type 0 where
  pub drivers : Drivers W
  pub mounts : List Mount
  pub cred : Option Cred

module _ {W : Type 0} (env : Env W) where
  abbrev pub iops : Inode → InodeOps W
  iops f = env.drivers.inode_ops f.ops

  -- `if (!S_ISDIR(file->mode)) return -ENOTDIR; CHECK_RPERM(file);`
  unfoldable pub enter : Inode → Op W (Unit {0})
  enter f =
      if not (is_dir f.mode)
      then throw enotdir
      else if vfs_checkperm env.cred f 4
      then pure tt
      else throw eacces

  -- `file->ops.lookup(file, token, &dentry)`, through a pointer that is not tested
  unfoldable pub call_lookup : Inode → Text → Op W Inode
  call_lookup f token w = elim (iops f).lookup [ none ↦ fault | some lookup ↦ lookup f token w ]

  -- `vfs_readlink`
  unfoldable pub vfs_readlink : Inode → ℕ → Op W Text
  vfs_readlink f n w = elim (iops f).readlink [
    | none ↦ error einval w
    | some readlink ↦ readlink f n w
  ]

  -- `ssize_t n = vfs_readlink(file, link, 60); link[n] = 0;` where `link` has 60 bytes
  unfoldable pub read_target : Inode → Op W Text
  unfolding vfs_readlink
  read_target f w = elim (vfs_readlink f 60 w) [
    | done link w' ↦ if ltb (length link) 60 then done link w' else fault
    | error e w' ↦ fault
    | fault ↦ fault
  ]

  -- The token loop of `do_vfs_resolve`. `again` resolves the path in a symbolic link.
  unfoldable pub walk : Bool → (Text → Op W Inode) → Inode → List Text → Op W Inode
  unfolding enter call_lookup read_target
  walk symlinks again file [] = pure file
  walk symlinks again file (token ∷ rest) = enter file >>= λ _. call_lookup file token >>= λ next.
      if is_lnk next.mode && symlinks
      then read_target next >>= again
      else walk symlinks again next rest

  -- `do_vfs_resolve`, by the number of calls that `depth` still allows.
  unfoldable pub do_vfs_resolve : ℕ → Text → Bool → Op W Inode
  unfolding walk
  do_vfs_resolve zero path symlinks = throw eloop
  do_vfs_resolve (suc calls) path symlinks = elim (vfs_getmnt env.mounts path) [
    | none ↦ throw enoent
    | some (file, relat) ↦
        walk symlinks (λ link. do_vfs_resolve calls link true) file (tokens relat)
  ]

  unfoldable pub vfs_resolve : Text → Bool → Op W Inode
  unfolding do_vfs_resolve
  vfs_resolve path symlinks = do_vfs_resolve 8 path symlinks

  -- The loop of `get_parent_dir`, with its variables `file`, `token`, and the tokens from `next` on.
  unfoldable pub parent_walk : Inode → Text → List Text → Op W (Inode × Text)
  unfolding enter call_lookup
  parent_walk file token [] = if not (is_dir file.mode) then throw enotdir else pure (file, token)
  parent_walk file token (next ∷ rest) =
      enter file >>= λ _. call_lookup file token >>= λ dir. parent_walk dir next rest

  -- the first token is there, or the path has no parent
  unfoldable pub parent_start : Inode → List Text → Op W (Inode × Text)
  unfolding parent_walk
  parent_start file [] = throw enoent
  parent_start file (token ∷ rest) = parent_walk file token rest

  unfoldable pub get_parent_dir : Text → Op W (Inode × Text)
  unfolding parent_start
  get_parent_dir path = elim (vfs_getmnt env.mounts path) [
    | none ↦ throw enoent
    | some (file, relat) ↦ parent_start file (tokens relat)
  ]
