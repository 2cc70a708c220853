-- ===== src/Ids/Privilege.antt =====
-- The ids that calls of kernel/kern/sys.c change.
use micro.Prelude.{
  ℕ, ◌≡◌, ◌≢◌, refl, sym, ◌∙◌, [], ◌∷◌, Option, none, some, List, ◌==◌, arith, if◌then◌else◌,
}
use micro.Errno.{Ret, ret, fail, eperm}
use micro.Ids.{
  Proc, no_id, sys_setreuid, sys_setregid, sys_setuid, sys_setgid, sys_setgroups, sys_umask,
  sys_setsid,
}

-- The calls that change the ids of the running task.
pub data Change : Type 0 where
  reuid regid : ℕ → ℕ → Change
  uid gid mask : ℕ → Change
  groups : ℕ → Option (List ℕ) → Change
  session : Change

pub change : Proc → Change → Ret × Proc
unfolding sys_setreuid sys_setregid sys_setuid sys_setgid sys_umask sys_setgroups sys_setsid
change t (reuid r e) = sys_setreuid t r e
change t (regid r e) = sys_setregid t r e
change t (uid u) = sys_setuid t u
change t (gid g) = sys_setgid t g
change t (mask m) = sys_umask t m
change t (groups n l) = sys_setgroups t n l
change t session = sys_setsid t

-- Any number of calls.
pub changes : Proc → List Change → Proc
unfolding change
changes t [] = t
changes t (c ∷ cs) = changes (change t c).1 cs

module _ (t : Proc) where
  keeps_user :
      t.euid ≢ 0 → (c : Change) → ((change t c).1.ruid ≡ t.ruid) × ((change t c).1.euid ≡ t.euid)
  unfolding change sys_setreuid sys_setregid sys_setuid sys_setgid sys_umask sys_setgroups
      sys_setsid
  keeps_user h (reuid r e) = ground arith
  keeps_user h (regid r e) = ground arith
  keeps_user h (uid u) = ground arith
  keeps_user h (gid g) = ground arith
  keeps_user h (mask m) = (refl, refl)
  keeps_user h (groups n none) = (refl, refl)
  keeps_user h (groups n (some l)) = (refl, refl)
  keeps_user h session = ground arith

  keeps_group :
      t.egid ≢ 0 → (c : Change) → ((change t c).1.rgid ≡ t.rgid) × ((change t c).1.egid ≡ t.egid)
  unfolding change sys_setreuid sys_setregid sys_setuid sys_setgid sys_umask sys_setgroups
      sys_setsid
  keeps_group h (reuid r e) = ground arith
  keeps_group h (regid r e) = ground arith
  keeps_group h (uid u) = ground arith
  keeps_group h (gid g) = ground arith
  keeps_group h (mask m) = (refl, refl)
  keeps_group h (groups n none) = (refl, refl)
  keeps_group h (groups n (some l)) = (refl, refl)
  keeps_group h session = ground arith

  -- `setuid` by a task that is not root changes nothing, and returns 0.
  pub setuid_ignored :
      (u : ℕ)
      → t.euid ≢ 0
      → (sys_setreuid t no_id u ≡ (if u == no_id then ret 0 else fail eperm, t))
        × (sys_setuid t u ≡ (ret 0, t))
  unfolding sys_setuid sys_setreuid
  setuid_ignored u h = ground arith

-- No sequence of the calls that change ids lets a task whose effective user is not root change its
-- real or effective user id, nor one whose effective group is not 0 its real or effective group id.
pub changes_unprivileged :
    (cs : List Change) (t : Proc)
    → (t.euid ≢ 0 → ((changes t cs).ruid ≡ t.ruid) × ((changes t cs).euid ≡ t.euid))
      × (t.egid ≢ 0 → ((changes t cs).rgid ≡ t.rgid) × ((changes t cs).egid ≡ t.egid))
unfolding changes
changes_unprivileged [] t = ((λ h. (refl, refl)), (λ h. (refl, refl)))
changes_unprivileged (c ∷ cs) t =
    let ih = changes_unprivileged cs (change t c).1 in
    (
      (λ h.
          let k = keeps_user t h c in
          let r = ih.0 (λ z. h (sym k.1 ∙ z)) in (r.0 ∙ k.0, r.1 ∙ k.1)),
      (λ h.
          let k = keeps_group t h c in
          let r = ih.1 (λ z. h (sym k.1 ∙ z)) in (r.0 ∙ k.0, r.1 ∙ k.1)),
    )
