-- ===== src/Vfs/Names/Access.antt =====
-- `vfs_access` of kernel/kern/fs/vfs.c and the permissions it asks for.
use micro.Prelude.{ℕ, Bool, true, ◌≡◌, arith, ap, ◌∙◌}
use micro.Path.{Text}
use micro.Vfs.Inode.{Inode, test_bits}
use micro.Vfs.Perm.{vfs_checkperm}
use micro.Vfs.Driver.{done}
use micro.Vfs.Resolve.{Env}
use micro.Vfs.Resolve.Trail.{bind-done}
use micro.Vfs.Names.{Opened, vfs_open, vfs_access, check}

module _ {W : Type 0} (env : Env W) where
  -- The access bits asked for are allowed on the inode.
  pub record Permits (node : Inode) (mode : ℕ) : Type 0 where
    pub reads : test_bits mode 1 ≡ true → vfs_checkperm env.cred node 4 ≡ true
    pub writes : test_bits mode 2 ≡ true → vfs_checkperm env.cred node 2 ≡ true
    pub runs : test_bits mode 4 ≡ true → vfs_checkperm env.cred node 1 ≡ true

  pub check-done :
      (wanted : Bool) (node : Inode) (mask : ℕ) (w : W) (u : Unit {0}) (w' : W)
      → check env wanted node mask w ≡ done u w'
      → (wanted ≡ true → vfs_checkperm env.cred node mask ≡ true) × (w ≡ w')
  unfolding check
  check-done wanted node mask w u w' h = ground arith

  -- `vfs_access` succeeds only if the path opens and every access asked for is allowed, and then
  -- changes nothing beyond the opening.
  pub access-Permits :
      (path : Text) (mode : ℕ) (w w' : W) (u : Unit {0})
      → vfs_access env path mode w ≡ done u w'
      → (f : Opened) × (vfs_open env path 0 w ≡ done f w') × Permits f.inode mode
  unfolding vfs_access
  access-Permits path mode w w' u h =
      let (f, w₁, e, h₁) = bind-done (vfs_open env path 0 w) _ h in
      let (u₂, w₂, e₂, h₂) = bind-done (check env (test_bits mode 1) f.inode 4 w₁) _ h₁ in
      let (u₃, w₃, e₃, h₃) = bind-done (check env (test_bits mode 2) f.inode 2 w₂) _ h₂ in
      let (r, p) = check-done (test_bits mode 1) f.inode 4 w₁ u₂ w₂ e₂ in
      let (a, q) = check-done (test_bits mode 2) f.inode 2 w₂ u₃ w₃ e₃ in
      let (x, s) = check-done (test_bits mode 4) f.inode 1 w₃ u w' h₃ in
      (f, e ∙ ap (done f) (p ∙ q ∙ s), record { reads = r; writes = a; runs = x })
