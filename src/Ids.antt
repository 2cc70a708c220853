-- ===== src/Ids.antt =====
-- Identities of tasks: the system calls on process ids, process groups, sessions, users and groups
-- of kernel/kern/sys.c, and `sched_task_fromid` of kernel/kern/sched.c.
pub mod Privilege
pub mod Session
use micro.Prelude.{
  ℕ, zero, suc, ◌+◌, ◌-◌, ◌^◌, Bool, true, false, not, ◌&&◌, ◌||◌, Option, none, some, List, [],
  ◌∷◌, ◌==◌, leb, ltb, if◌then◌else◌, get_elem?, set, length, take,
}
use micro.Errno.{Errno, Ret, ret, fail, eperm, esrch, einval, efault}

-- The fields of `struct task` that these calls use. A pointer to a task is its index in the table.
-- `groups` is the memory behind the pointer, `none` when it has been freed.
pub record Proc : Type 0 where
  pub pid : ℕ
  pub pgid : ℕ
  pub sid : ℕ
  pub parent : Option ℕ
  pub ruid : ℕ
  pub euid : ℕ
  pub rgid : ℕ
  pub egid : ℕ
  pub groups : Option (List ℕ)
  pub groupcnt : ℕ
  pub umask : ℕ

-- `(uid_t)-1`
abbrev pub no_id : ℕ
no_id = 2 ^ 32 - 1

-- The second half of `setreuid`, on the other id.
abbrev set_effective : Proc → ℕ → Ret × Proc
set_effective t euid =
    if euid == no_id
    then (ret 0, t)
    else if t.euid == 0
    then (ret 0, record t { euid = euid })
    else (fail eperm, t)

pub sys_setreuid : Proc → (ruid euid : ℕ) → Ret × Proc
sys_setreuid t ruid euid =
    if ruid == no_id
    then set_effective t euid
    else if t.euid == 0
    then set_effective (record t { ruid = ruid }) euid
    else (fail eperm, t)

abbrev set_effective_group : Proc → ℕ → Ret × Proc
set_effective_group t egid =
    if egid == no_id
    then (ret 0, t)
    else if t.egid == 0
    then (ret 0, record t { egid = egid })
    else (fail eperm, t)

pub sys_setregid : Proc → (rgid egid : ℕ) → Ret × Proc
sys_setregid t rgid egid =
    if rgid == no_id
    then set_effective_group t egid
    else if t.egid == 0
    then set_effective_group (record t { rgid = rgid }) egid
    else (fail eperm, t)

-- The result of the inner call is dropped.
pub sys_setuid : Proc → ℕ → Ret × Proc
unfolding sys_setreuid
sys_setuid t uid = (ret 0, (sys_setreuid t no_id uid).1)

pub sys_setgid : Proc → ℕ → Ret × Proc
unfolding sys_setregid
sys_setgid t gid = (ret 0, (sys_setregid t no_id gid).1)

-- The result, and what goes to `list`, which holds `groupcnt` ids or the call reads freed memory:
-- then the outcome is `none`. `mapped` is `PTRVALID(list)`; `size` is an `int` by its bit pattern.
pub sys_getgroups : Proc → (mapped : Bool) (size : ℕ) → Option (Ret × List ℕ)
sys_getgroups t mapped size =
    if not mapped
    then some (fail efault, [])
    else if leb (2 ^ 31) size
    then some (fail einval, [])
    else if ltb size t.groupcnt
    then some (fail einval, [])
    else if t.groupcnt == 0
    then some (ret 0, [])
    else elim t.groups [ none ↦ none | some gs ↦ some (ret t.groupcnt, take t.groupcnt gs) ]

-- `list` is the memory behind the pointer, `none` for a null pointer; the pages of the list are mapped.
pub sys_setgroups : Proc → (size : ℕ) (list : Option (List ℕ)) → Ret × Proc
sys_setgroups t size list =
    let freed = record t { groups = none; groupcnt = size } in
    elim list [
      | none ↦ (ret 0, freed)
      | some gs ↦ (ret 0, record freed { groups = some (take size gs) })
    ]

pub sys_umask : Proc → ℕ → Ret × Proc
sys_umask t umask = (ret t.umask, record t { umask = umask })

pub sys_getpid : Proc → ℕ
sys_getpid t = t.pid

pub sys_getuid : Proc → ℕ
sys_getuid t = t.ruid

pub sys_geteuid : Proc → ℕ
sys_geteuid t = t.euid

pub sys_getgid : Proc → ℕ
sys_getgid t = t.rgid

pub sys_getegid : Proc → ℕ
sys_getegid t = t.egid

-- `sched_task_fromid`, from the task at index `i`
pub sched_task_fromid : (i : ℕ) → List Proc → ℕ → Option ℕ
sched_task_fromid i [] id = none
sched_task_fromid i (t ∷ ts) id =
    let rest = sched_task_fromid (suc i) ts id in if t.pid == id then some i else rest

-- `task->parent == task_curr()`
abbrev pub child_of : Proc → ℕ → Bool
child_of t i = elim t.parent [ none ↦ false | some j ↦ j == i ]

abbrev refuse : Errno → List Proc → Ret × List Proc
refuse e ts = (fail e, ts)

-- `pgid` is an `int` by its bit pattern.
unfoldable pub sys_setpgid : List Proc → (curr : ℕ) → Proc → (pid pgid : ℕ) → Ret × List Proc
unfolding sched_task_fromid
sys_setpgid ts curr me pid pgid =
    let id = if pid == 0 then me.pid else pid in
    if leb (2 ^ 31) pgid then refuse einval ts else elim (sched_task_fromid 0 ts id) [
      | none ↦ refuse esrch ts
      | some i ↦ elim (get_elem? ts i) [
        | none ↦ refuse esrch ts
        | some t ↦
            if not (i == curr) && not (child_of t curr)
            then refuse esrch ts
            else if t.sid == t.pid
            then refuse eperm ts
            else (ret 0, set ts i (record t { pgid = if pgid == 0 then id else pgid }))
      ]
    ]

pub sys_getpgid : List Proc → Proc → (pid : ℕ) → Ret
unfolding sched_task_fromid
sys_getpgid ts me pid = if pid == 0 then ret me.pgid else elim (sched_task_fromid 0 ts pid) [
  | none ↦ fail esrch
  | some i ↦ elim (get_elem? ts i) [ none ↦ fail esrch | some t ↦ ret t.pgid ]
]

pub sys_getsid : List Proc → (pid : ℕ) → Ret
unfolding sched_task_fromid
sys_getsid ts pid = elim (sched_task_fromid 0 ts pid) [
  | none ↦ fail esrch
  | some i ↦ elim (get_elem? ts i) [ none ↦ fail esrch | some t ↦ ret t.sid ]
]

pub sys_setsid : Proc → Ret × Proc
sys_setsid t =
    if t.pgid == t.pid then (fail eperm, t) else (ret t.pid, record t { sid = t.pid; pgid = t.pid })
