-- ===== src/Vfs/Resolve/Safe.antt =====
-- Undefined behaviour in the path resolution of kernel/kern/fs/vfs.c.
use micro.Prelude.{
  ℕ, zero, suc, ◌<◌, Bool, true, ◌&&◌, Option, none, some, List, [], ◌∷◌, ◌≡◌, ◌≢◌, refl, arith,
  Bool-cases, inl, inr, length, lt→ltb,
}
use micro.Path.{Text, tokens}
use micro.Vfs.Inode.{Inode, is_dir, is_lnk}
use micro.Vfs.Mount.{vfs_getmnt}
use micro.Vfs.Driver.{Outcome, done, error, fault, Op, bind}
use micro.Vfs.Resolve.{
  Env, enter, call_lookup, read_target, vfs_readlink, walk, do_vfs_resolve, vfs_resolve,
}

-- What the resolution needs of the drivers.
pub record IsSound {W : Type 0} (env : Env W) : Type 0 where
  pub searches :
      (f : Inode) (t : Text) (w : W) → is_dir f.mode ≡ true → call_lookup env f t w ≢ fault
  pub short :
      (f : Inode) (w : W)
      → is_lnk f.mode ≡ true
      → (link : Text) × (w' : W) × (vfs_readlink env f 60 w ≡ done link w') × (length link < 60)

bind-safe :
    {W A B : Type 0} (o : Outcome W A) (k : A → Op W B)
    → o ≢ fault
    → ((a : A) (w : W) → o ≡ done a w → k a w ≢ fault)
    → bind o k ≢ fault
bind-safe (done a w) k h g = g a w refl
bind-safe (error e w) k h g = λ p. cc
bind-safe fault k h g = absurd (h refl)

module _ {W : Type 0} (env : Env W) (sound : IsSound env) where
  enter-safe : (f : Inode) (w : W) → enter env f w ≢ fault
  unfolding enter
  enter-safe f w = ground arith

  enter-dir :
      (f : Inode) (w w' : W) (u : Unit {0}) → enter env f w ≡ done u w' → is_dir f.mode ≡ true
  unfolding enter
  enter-dir f w w' u h = ground arith

  target-safe : (f : Inode) (w : W) → is_lnk f.mode ≡ true → read_target env f w ≢ fault
  unfolding read_target
  target-safe f w l =
      let (link, w', e, s) = sound.short f w l in
      rw (e, lt→ltb (length link) 60 s, read_target) (λ p. cc)

  walk-safe :
      (symlinks : Bool) (again : Text → Op W Inode)
      → ((link : Text) (w : W) → again link w ≢ fault)
      → (f : Inode) (ts : List Text) (w : W) → walk env symlinks again f ts w ≢ fault
  unfolding walk
  walk-safe symlinks again ok f [] w = λ p. cc
  walk-safe symlinks again ok f (t ∷ ts) w = bind-safe (enter env f w) _ (enter-safe f w) λ u w₀ e.
      bind-safe (call_lookup env f t w₀) _ (sound.searches f t w₀ (enter-dir f w w₀ u e)) λ n w₁ _.
        elim (Bool-cases (is_lnk n.mode && symlinks)) [
          | inl l ↦ rw l (
              bind-safe (read_target env n w₁) again (target-safe n w₁ (ground arith))
                (λ link w₂ _. ok link w₂))
          | inr l ↦ rw l (walk-safe symlinks again ok n ts w₁)
        ]

  calls-safe :
      (calls : ℕ) (path : Text) (symlinks : Bool) (w : W)
      → do_vfs_resolve env calls path symlinks w ≢ fault
  unfolding do_vfs_resolve
  calls-safe zero path symlinks w = λ p. cc
  calls-safe (suc calls) path symlinks w = go (vfs_getmnt env.mounts path) refl (calls-safe calls)
    where
      go :
          (o : Option (Inode × Text))
          → vfs_getmnt env.mounts path ≡ o
          → ((path' : Text) (s : Bool) (w' : W) → do_vfs_resolve env calls path' s w' ≢ fault)
          → do_vfs_resolve env (suc calls) path symlinks w ≢ fault
      go none m ih = rw (m, do_vfs_resolve) (λ p. cc)
      go (some (root, relat)) m ih =
          rw (m, do_vfs_resolve)
            (walk-safe symlinks _ (λ link w'. ih link true w') root (tokens relat) w)

  -- If each directory has a `lookup` that behaves, and each symbolic link a target of less than 60
  -- bytes, `vfs_resolve` ends in an inode or an error for every path, and calls no null pointer and
  -- writes nothing behind its buffer.
  pub resolve-safe :
      (path : Text) (symlinks : Bool) (w : W) → vfs_resolve env path symlinks w ≢ fault
  unfolding vfs_resolve
  resolve-safe = calls-safe 8
