-- ===== src/Vfs/Names/Effect.antt =====
-- `vfs_mkdir`, `vfs_unlink` and `vfs_rename` of kernel/kern/fs/vfs.c and the answers of drivers.
use micro.Prelude.{ℕ, true, false, ◌≡◌, some, Bool-cases, inl, inr}
use micro.Errno.{Errno}
use micro.Path.{Text}
use micro.Vfs.Inode.{Inode, is_dir}
use micro.Vfs.Driver.{done, error, Op, bind, dropped}
use micro.Vfs.Resolve.{Env, iops, vfs_resolve, get_parent_dir}
use micro.Vfs.Resolve.Trail.{bind-done}
use micro.Vfs.Names.{vfs_mkdir, vfs_unlink, vfs_do_unlink, vfs_link, vfs_rename}

module _ {W : Type 0} (env : Env W) where
  -- `vfs_mkdir` returns 0 although the driver refused to make the directory.
  pub mkdir_drops_error :
      (path name : Text) (mode uid gid : ℕ) (w w₁ w₂ : W) (dir : Inode) (e : Errno)
      (mkdir : Inode → Text → ℕ → ℕ → ℕ → Op W (Unit {0}))
      → get_parent_dir env path w ≡ done (dir, name) w₁
      → (iops env dir).mkdir ≡ some mkdir
      → mkdir dir name mode uid gid w₁ ≡ error e w₂
      → vfs_mkdir env path mode uid gid w ≡ done tt w₂
  unfolding vfs_mkdir
  mkdir_drops_error path name mode uid gid w w₁ w₂ dir e mkdir parent has_mkdir refused =
      rw (parent, bind) (rw (has_mkdir, refused, dropped))

  -- `vfs_unlink` succeeds only on a path that resolves to something else than a directory, in a
  -- parent directory that was found, and then calls the driver once, on that parent and name.
  pub unlink_not_dir :
      (path : Text) (w w' : W) (u : Unit {0})
      → vfs_unlink env path w ≡ done u w'
      → (dir : Inode) × (name : Text) × (w₁ : W) × (file : Inode) × (w₂ : W) × (get_parent_dir env
            path w
          ≡ done (dir, name) w₁)
        × (vfs_resolve env path true w₁ ≡ done file w₂)
        × (is_dir file.mode ≡ false)
        × (vfs_do_unlink env dir name w₂ ≡ done u w')
  unfolding vfs_unlink
  unlink_not_dir path w w' u h =
      let ((dir, name), w₁, e₁, h₁) = bind-done (get_parent_dir env path w) _ h in
      let (file, w₂, e₂, h₂) = bind-done (vfs_resolve env path true w₁) _ h₁ in
      elim (Bool-cases (is_dir file.mode)) [
        | inl d ↦ let h' = rw d at h₂ in cc
        | inr d ↦ (dir, name, w₁, file, w₂, e₁, e₂, d, rw d at h₂)
      ]

  -- `vfs_rename` unlinks the old name only after the link to the new one was made: an error of
  -- `vfs_link` is its own error, in the state that `vfs_link` left.
  pub rename_keeps_on_error :
      (old new : Text) (w w' : W) (e : Errno)
      → vfs_link env old new w ≡ error e w'
      → vfs_rename env old new w ≡ error e w'
  unfolding vfs_rename
  rename_keeps_on_error old new w w' e h = rw h
