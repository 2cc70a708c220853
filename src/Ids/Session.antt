-- ===== src/Ids/Session.antt =====
-- Process groups of kernel/kern/sys.c, as set and as read.
use micro.Prelude.{
  ℕ, zero, suc, ◌^◌, ◌≡◌, ◌≢◌, ◌⊎◌, refl, sym, subst, ◌∙◌, Bool, true, false, not, ◌&&◌, Option,
  none, some, List, [], ◌∷◌, ◌==◌, leb, if◌then◌else◌, arith, get_elem?, set, get_elem?-set_self,
  Option-cases, inl, inr,
}
use micro.Errno.{ret}
use micro.Ids.{Proc, sched_task_fromid, child_of, sys_setpgid, sys_getpgid}

-- A change of a task that keeps its id is not seen by the search for ids.
fromid-set :
    (i : ℕ) (ts : List Proc) (k id : ℕ) (t t' : Proc)
    → get_elem? ts k ≡ some t
    → t'.pid ≡ t.pid
    → sched_task_fromid i (set ts k t') id ≡ sched_task_fromid i ts id
unfolding sched_task_fromid
fromid-set i [] k id t t' g e = refl
fromid-set i (x ∷ xs) zero id t t' g e = let same : x.pid ≡ t'.pid = ground arith in rw (same) refl
fromid-set i (x ∷ xs) (suc k) id t t' g e =
    let ih = fromid-set (suc i) xs k id t t' g e in ground arith

-- the id that a call means by `pid`
abbrev pub meant : Proc → ℕ → ℕ
meant me pid = if pid == 0 then me.pid else pid

setpgid-ret :
    (ts : List Proc) (curr : ℕ) (me : Proc) (pid pgid : ℕ) (ts' : List Proc)
    → (i : Option ℕ) → sched_task_fromid 0 ts (meant me pid) ≡ i
    → sys_setpgid ts curr me pid pgid ≡ (ret 0, ts')
    → (k : ℕ) × (t : Proc) × (sched_task_fromid 0 ts (meant me pid) ≡ some k)
      × (get_elem? ts k ≡ some t)
      × ((k ≡ curr) ⊎ (child_of t curr ≡ true))
      × (t.sid ≢ t.pid)
      × (ts' ≡ set ts k (record t { pgid = if pgid == 0 then meant me pid else pgid }))
unfolding sys_setpgid
setpgid-ret ts curr me pid pgid ts' none e h = ground arith
setpgid-ret ts curr me pid pgid ts' (some k) e h = elim (Option-cases (get_elem? ts k)) [
  | inl g ↦ ground arith
  | inr (t, g) ↦
      let low : leb (2 ^ 31) pgid ≡ false = ground arith in
      let h' = rw (low, e, g) at h in (k, t, e, g, own (ground arith), ground arith, ground arith)
]
  where
    own : {k curr : ℕ} {b : Bool} → (not (k == curr) && not b) ≡ false → (k ≡ curr) ⊎ (b ≡ true)
    own {k} {curr} {b} h = ground arith

-- A `setpgid` that succeeds is on the calling task or a child of it that leads no session, and
-- `getpgid` then tells the group that was asked for: the task's own id, where that was 0.
pub setpgid_getpgid :
    (ts : List Proc) (curr : ℕ) (me : Proc) (pid pgid : ℕ) (ts' : List Proc)
    → meant me pid ≢ 0
    → sys_setpgid ts curr me pid pgid ≡ (ret 0, ts')
    → (k : ℕ) × (t : Proc) × (sched_task_fromid 0 ts (meant me pid) ≡ some k)
      × (get_elem? ts k ≡ some t)
      × ((k ≡ curr) ⊎ (child_of t curr ≡ true))
      × (t.sid ≢ t.pid)
      × (sys_getpgid ts' me (meant me pid) ≡ ret (if pgid == 0 then meant me pid else pgid))
unfolding sys_getpgid
setpgid_getpgid ts curr me pid pgid ts' ne h =
    let (k, t, f, g, who, leader, e) =
      setpgid-ret ts curr me pid pgid ts' (sched_task_fromid 0 ts (meant me pid)) refl h in
    let t' : Proc = record t { pgid = if pgid == 0 then meant me pid else pgid } in
    let f' = fromid-set 0 ts k (meant me pid) t t' g refl ∙ f in
    let g' = get_elem?-set_self ts k t' t g in
    (
      k,
      t,
      f,
      g,
      who,
      leader,
      answer k t' (subst (λ l. sched_task_fromid 0 l (meant me pid) ≡ some k) (sym e) f')
          (subst (λ l. get_elem? l k ≡ some t') (sym e) g'),
    )
  where
    answer :
        (k : ℕ) (t : Proc)
        → sched_task_fromid 0 ts' (meant me pid) ≡ some k
        → get_elem? ts' k ≡ some t
        → sys_getpgid ts' me (meant me pid) ≡ ret t.pgid
    answer k t f g = ground arith
