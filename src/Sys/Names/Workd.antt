-- ===== src/Sys/Names/Workd.antt =====
-- `chdir` of kernel/kern/fs/open.c and the working directory.
use micro.Prelude.{ℕ, ltb, length, ◌<◌, ◌≡◌, refl, true, some, arith, Bool-cases, inl, inr}
use micro.Errno.{Errno, enotdir}
use micro.Path.{Text, vfs_mkcanon, render}
use micro.Path.Words.{words}
use micro.Path.Canon.{All, IsClean, mkcanon_canonical}
use micro.Vfs.Inode.{is_dir}
use micro.Vfs.Driver.{Outcome, done, error, fault, Drivers}
use micro.Vfs.Names.{Opened, vfs_open}
use micro.Vfs.Resolve.Trail.{bind-done}
use micro.Sys.{System, env_of, lift, ptr_valid}
use micro.Sys.Names.{UserPath, sys_chdir}

-- A path that is absolute, with no empty, "." or ".." component.
pub record IsCanonical (path : Text) : Type 0 where
  pub spelled : path ≡ render (words path)
  pub clean : All IsClean (words path)

fault-done : {S A : Type 0} {P : Type 0} (a : A) (s : S) → fault ≡ done a s → P
fault-done a s h = ground arith

error-done : {S A : Type 0} {P : Type 0} (e : Errno) (a : A) (s t : S) → error e t ≡ done a s → P
error-done e a s t h = ground arith

shorter : (n : ℕ) → ltb n 64 ≡ true → n < 64
shorter n h = ground arith

module _ {W A : Type 0} where
  done-state : (a b : A) (s s' : W) → done a s ≡ done b s' → s' ≡ s
  done-state a b s s' h = ground arith

  pub lift-done :
      (o : Outcome W A) (m : W → Outcome W A) (s s' : System W) (a : A)
      → m s.fs ≡ o
      → lift m s ≡ done a s'
      → (w : W) × (o ≡ done a w) × (s' ≡ record s { fs = w })
  unfolding lift
  lift-done (done b w) m s s' a e h = (w, ground arith, ground arith)
  lift-done (error x w) m s s' a e h = ground arith
  lift-done fault m s s' a e h = ground arith

module _ {W : Type 0} (drivers : Drivers W) (s : System W) where
  -- `chdir` succeeds only on a path whose canonical form opens as a directory and is shorter than the 64 bytes of
  -- `workd`, with a longer one taken as a fault. The working directory is then that form, which is canonical whatever
  -- the old one was, and nothing else of the kernel changes.
  pub chdir-IsCanonical :
      (path : UserPath) (u : Unit {0}) (s' : System W)
      → sys_chdir drivers path s ≡ done u s'
      → (o : Opened) × (w : W) × (vfs_open
            (env_of drivers s)
            (vfs_mkcanon path.text (some s.task.workd))
            0
            s.fs
          ≡ done o w)
        × (is_dir o.inode.mode ≡ true)
        × (length s'.task.workd < 64)
        × IsCanonical s'.task.workd
        × (s' ≡ record s {
          task = record (s.task) { workd = vfs_mkcanon path.text (some s.task.workd) };
          fs = w;
        })
  unfolding sys_chdir lift ptr_valid
  chdir-IsCanonical path u s' h =
      let (_, s₀, m, h₁) = bind-done (ptr_valid path.mapped s) _ h in
      let same : s₀ ≡ s = ground arith in
      let canon = vfs_mkcanon path.text (some s.task.workd) in
      let c = mkcanon_canonical path.text (some s.task.workd) in
      let h₁' = rw (same) at h₁ in
      let (o, s₁, opened, h₂) = bind-done (lift (vfs_open (env_of drivers s) canon 0) s) _ h₁' in
      let (w, e, same') =
        lift-done (vfs_open (env_of drivers s) canon 0 s.fs) (vfs_open (env_of drivers s) canon 0) s
          s₁ o refl opened in
      elim (Bool-cases (is_dir o.inode.mode)) [
        | inr d ↦ let h₃ = rw (d) at h₂ in error-done enotdir u s' s₁ h₃
        | inl d ↦
            let h₃ = rw (d, same') at h₂ in
            elim (Bool-cases (ltb (length canon) 64)) [
              | inr l ↦ let h₄ = rw (l) at h₃ in fault-done u s' h₄
              | inl l ↦
                  let h₄ = rw (l) at h₃ in
                  let new =
                    done-state tt u (record s { task = record (s.task) { workd = canon }; fs = w })
                      s' h₄ in
                  let short = shorter (length canon) l in
                  (
                    o,
                    w,
                    e,
                    d,
                    rw (new) short,
                    rw (new) (record { spelled = c.0; clean = c.1 }),
                    new,
                  )
            ]
      ]
