-- ===== src/Vfs/Resolve/Trail.antt =====
-- The path resolution of kernel/kern/fs/vfs.c, against a trail through directories.
use micro.Prelude.{
  ℕ, zero, suc, Bool, true, false, ◌&&◌, Option, none, some, List, [], ◌∷◌, ◌≡◌, refl, sym, ap,
  subst, ◌∙◌, ◌↔◌, ◌≢◌, arith, Bool-cases, inl, inr, if◌then◌else◌,
}
use micro.Errno.{eloop}
use micro.Path.{Text, tokens}
use micro.Vfs.Inode.{Inode, is_dir, is_lnk}
use micro.Vfs.Perm.{vfs_checkperm}
use micro.Vfs.Mount.{vfs_getmnt}
use micro.Vfs.Driver.{Outcome, done, error, fault, Op, bind, ◌>>=◌}
use micro.Vfs.Resolve.{Env, enter, call_lookup, read_target, walk, do_vfs_resolve, vfs_resolve}

module _ {W A B : Type 0} where
  -- the parts of a chain that succeeds
  pub bind-done :
      (o : Outcome W A) (k : A → Op W B) {b : B} {w' : W}
      → bind o k ≡ done b w'
      → (a : A) × (w : W) × (o ≡ done a w) × (k a w ≡ done b w')
  bind-done (done a w) k h = (a, w, refl, h)
  bind-done (error e w) k h = cc
  bind-done fault k h = cc

module _ {W : Type 0} (env : Env W) where
  -- A component can be entered from the directory `f` in state `w`, and leads to `n`.
  pub record Enters (f : Inode) (t : Text) (w : W) (n : Inode) (w' : W) : Type 0 where
    pub directory : is_dir f.mode ≡ true
    pub readable : vfs_checkperm env.cred f 4 ≡ true
    pub found : call_lookup env f t w ≡ done n w'

  pub enter-ok :
      (f : Inode) (w : W)
      → is_dir f.mode ≡ true
      → vfs_checkperm env.cred f 4 ≡ true
      → enter env f w ≡ done tt w
  unfolding enter
  enter-ok f w d r = rw (d, r)

  enter-done :
      (f : Inode) (w : W) (u : Unit {0}) (w' : W)
      → enter env f w ≡ done u w'
      → (is_dir f.mode ≡ true) × (vfs_checkperm env.cred f 4 ≡ true) × (w ≡ w')
  unfolding enter
  enter-done f w u w' h = ground arith

module _ {W : Type 0} (env : Env W) (g : Inode) (w' : W) where
  -- From an inode the components lead to `g`. Where a symbolic link is followed, the way goes on from the root of
  -- the mount point of its target, along the components of the target alone: those behind the link are dropped.
  -- `calls` is how many links may follow one another.
  pub data Trail : (calls : ℕ) (symlinks : Bool) → Inode → List Text → W → Type 0 where
    arrive :
        {calls : ℕ} {symlinks : Bool} {f : Inode} {w : W}
        → f ≡ g
        → w ≡ w'
        → Trail calls symlinks f [] w
    pass :
        {calls : ℕ} {symlinks : Bool} {f n : Inode} {t : Text} {ts : List Text} {w w₁ : W}
        → Enters env f t w n w₁
        → (is_lnk n.mode && symlinks) ≡ false
        → Trail calls symlinks n ts w₁
        → Trail calls symlinks f (t ∷ ts) w
    follow :
        {calls : ℕ} {symlinks : Bool} {f n root : Inode} {t link relat : Text} {ts : List Text}
        {w w₁ w₂ : W}
        → Enters env f t w n w₁
        → (is_lnk n.mode && symlinks) ≡ true
        → read_target env n w₁ ≡ done link w₂
        → vfs_getmnt env.mounts link ≡ some (root, relat)
        → Trail calls true root (tokens relat) w₂
        → Trail (suc calls) symlinks f (t ∷ ts) w

  -- What a successful resolution has gone through.
  pub record Resolves (calls : ℕ) (symlinks : Bool) (path : Text) (w : W) : Type 0 where
    pub root : Inode
    pub relat : Text
    pub mounted : vfs_getmnt env.mounts path ≡ some (root, relat)
    pub trail : Trail calls symlinks root (tokens relat) w

  -- the calls that are left for the target of a symbolic link
  abbrev later : ℕ → Text → Op W Inode
  later calls link = do_vfs_resolve env calls link true

  module _ (calls : ℕ) (symlinks : Bool)
      (into : (link : Text) (w₂ : W)
        → later calls link w₂ ≡ done g w'
        → (left : ℕ) × (calls ≡ suc left) × Resolves left true link w₂) where
    -- what `walk` does behind its call of `lookup`, and behind its checks
    after_lookup : List Text → Inode → Op W Inode
    after_lookup ts n =
        if is_lnk n.mode && symlinks
        then read_target env n >>= later calls
        else walk env symlinks (later calls) n ts

    after_enter : Inode → Text → List Text → Unit {0} → Op W Inode
    after_enter f t ts u = call_lookup env f t >>= after_lookup ts

    walk-Trail :
        (f : Inode) (ts : List Text) (w : W)
        → walk env symlinks (later calls) f ts w ≡ done g w'
        → Trail calls symlinks f ts w
    unfolding walk after_enter after_lookup
    walk-Trail f [] w h = arrive (cc) (cc)
    walk-Trail f (t ∷ ts) w h =
        let (u, w₀, entered, h₁) = bind-done (enter env f w) (after_enter f t ts) h in
        let (d, r, same) = enter-done env f w u w₀ entered in
        let (n, w₁, found, h₂) = bind-done (call_lookup env f t w₀) (after_lookup ts) h₁ in
        let e : Enters env f t w n w₁ = record {
          directory = d;
          readable = r;
          found = rw same found;
        } in
        elim (Bool-cases (is_lnk n.mode && symlinks)) [
          | inl l ↦
              let (link, w₂, read, h₃) =
                bind-done (read_target env n w₁) (later calls) (rw l at h₂) in
              let (left, one, r) = into link w₂ h₃ in
              subst (λ c. Trail c symlinks f (t ∷ ts) w) (sym one)
                (follow e l read r.mounted r.trail)
          | inr l ↦ pass e l (walk-Trail n ts w₁ (rw l at h₂))
        ]

module _ {W : Type 0} (env : Env W) where
  pub resolve_mounted :
      (calls : ℕ) (path : Text) (symlinks : Bool) (root : Inode) (relat : Text)
      → vfs_getmnt env.mounts path ≡ some (root, relat)
      → do_vfs_resolve env (suc calls) path symlinks
        ≡ walk env symlinks (λ link. do_vfs_resolve env calls link true) root (tokens relat)
  unfolding do_vfs_resolve
  resolve_mounted calls path symlinks root relat m = rw (m, do_vfs_resolve)

  resolve_unmounted :
      (calls : ℕ) (path : Text) (symlinks : Bool) (w : W) {g : Inode} {w' : W}
      → vfs_getmnt env.mounts path ≡ none
      → do_vfs_resolve env (suc calls) path symlinks w ≢ done g w'
  unfolding do_vfs_resolve
  resolve_unmounted calls path symlinks w m h = let h' = rw (m, do_vfs_resolve) at h in cc

  no_calls :
      (path : Text) (w : W) {g : Inode} {w' : W} → do_vfs_resolve env 0 path true w ≢ done g w'
  unfolding do_vfs_resolve
  no_calls path w h = cc

module _ {W : Type 0} (env : Env W) (g : Inode) (w' : W) where
  Trail-walk :
      {calls : ℕ} {symlinks : Bool} {f : Inode} {ts : List Text} {w : W}
      → Trail env g w' calls symlinks f ts w
      → walk env symlinks (λ link. do_vfs_resolve env calls link true) f ts w ≡ done g w'
  unfolding walk
  Trail-walk (arrive p q) = cc
  Trail-walk (pass {calls} {symlinks} {f} {n} {t} {ts} {w} e l rest) =
      rw (enter-ok env f w e.directory e.readable, e.found, l) (Trail-walk rest)
  Trail-walk
        (follow {calls} {symlinks} {f} {n} {root} {t} {link} {relat} {ts} {w} {w₁} {w₂} e l r m
          rest) =
      rw (enter-ok env f w e.directory e.readable, e.found, l, r)
        (ap (λ k. k w₂) (resolve_mounted env calls link true root relat m) ∙ Trail-walk rest)

  -- The parts of a resolution by its calls: `into` gives those of the calls for links.
  along :
      (calls : ℕ) (path : Text) (symlinks : Bool) (w : W)
      → ((link : Text) (w₂ : W)
          → do_vfs_resolve env calls link true w₂ ≡ done g w'
          → (left : ℕ) × (calls ≡ suc left) × Resolves env g w' left true link w₂)
      → (o : Option (Inode × Text)) → vfs_getmnt env.mounts path ≡ o
      → do_vfs_resolve env (suc calls) path symlinks w ≡ done g w'
      → Resolves env g w' calls symlinks path w
  along calls path symlinks w into none m h =
      absurd (resolve_unmounted env calls path symlinks w m h)
  along calls path symlinks w into (some (root, relat)) m h = record {
    root = root;
    relat = relat;
    mounted = m;
    trail =
        walk-Trail env g w' calls symlinks into root (tokens relat) w
          (sym (ap (λ k. k w) (resolve_mounted env calls path symlinks root relat m)) ∙ h);
  }

  into_link :
      (calls : ℕ) (link : Text) (w : W)
      → do_vfs_resolve env calls link true w ≡ done g w'
      → (left : ℕ) × (calls ≡ suc left) × Resolves env g w' left true link w
  into_link zero link w h = absurd (no_calls env link w h)
  into_link (suc calls) link w h =
      (calls, refl, along calls link true w (into_link calls) (vfs_getmnt env.mounts link) refl h)

module _ {W : Type 0} (env : Env W) where
  -- `vfs_resolve` yields an inode exactly if some mount point is found for the path, and a trail leads
  -- from its root to the inode: along the components, through directories that the caller may read, up to the end
  -- or the first symbolic link that is followed. The components behind that link are dropped, and the trail goes on
  -- in the same way from the mount point of the link's target, along the components of the target, where every link
  -- is followed. No more than seven links follow one another.
  pub resolve-Trail :
      (path : Text) (symlinks : Bool) (w : W) (g : Inode) (w' : W)
      → (vfs_resolve env path symlinks w ≡ done g w') ↔ Resolves env g w' 7 symlinks path w
  unfolding vfs_resolve
  resolve-Trail path symlinks w g w' = (
    along env g w' 7 path symlinks w (into_link env g w' 7) (vfs_getmnt env.mounts path) refl,
    λ r.
        ap (λ k. k w) (resolve_mounted env 7 path symlinks r.root r.relat r.mounted)
        ∙ Trail-walk env g w' r.trail,
  )

  -- A symbolic link whose target is the path itself.
  pub record Loops (path : Text) (w : W) : Type 0 where
    pub root : Inode
    pub relat : Text
    pub first : Text
    pub rest : List Text
    pub link : Inode
    pub mounted : vfs_getmnt env.mounts path ≡ some (root, relat)
    pub parts : tokens relat ≡ first ∷ rest
    pub enters : Enters env root first w link w
    pub symbolic : is_lnk link.mode ≡ true
    pub target : read_target env link w ≡ done path w

  loop_calls :
      (calls : ℕ) (path : Text) (w : W)
      → Loops path w
      → do_vfs_resolve env calls path true w ≡ error eloop w
  unfolding do_vfs_resolve
  loop_calls zero path w l = refl
  loop_calls (suc calls) path w l =
      ap (λ k. k w) (resolve_mounted env calls path true l.root l.relat l.mounted)
      ∙ rw
          (
            l.parts,
            enter-ok env l.root w l.enters.directory l.enters.readable,
            l.enters.found,
            l.symbolic,
            l.target,
          )
          (loop_calls calls path w l)

  -- A link to itself ends in `-ELOOP`.
  pub resolve-eloop :
      (path : Text) (w : W) → Loops path w → vfs_resolve env path true w ≡ error eloop w
  unfolding vfs_resolve
  resolve-eloop path w l = loop_calls 8 path w l
