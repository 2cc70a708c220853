-- ===== src/Wait.antt =====
-- Waiting for children: kernel/kern/exit.c.
pub mod Reap
use Prim.Native.Nat.{bit_and}
use micro.Prelude.{
  ℕ, zero, suc, ◌+◌, ◌%◌, ◌^◌, Bool, true, false, not, ◌&&◌, ◌||◌, Option, none, some, List, [],
  ◌∷◌, ◌==◌, leb, ltb, if◌then◌else◌,
}
use micro.Errno.{Errno, Ret, ret, fail, einval, echild, efault}

-- `TASK_RUNNING`, `TASK_STOPPED` and `TASK_DEAD`
pub data State : Type 0 where
  running stopped dead : State

-- The fields of `struct task` that a parent reads of its child. `own` is whether `child->parent` is the task that
-- waits: it is not for a child that was taken over from a task that ended.
pub record Child : Type 0 where
  pub pid : ℕ
  pub state : State
  pub was_stop : Bool
  pub own : Bool
  pub status : ℕ

-- The answer, and the child, whose change is told once.
pub has_child_changed : Child → Bool × Child
has_child_changed c = elim c.state [
  | dead ↦ (true, c)
  | stopped ↦ if c.was_stop then (false, c) else (true, record c { was_stop = true })
  | running ↦ if c.was_stop then (true, record c { was_stop = false }) else (false, c)
]

-- `task->state == TASK_DEAD`
abbrev pub is_dead : State → Bool
is_dead dead = true
is_dead stopped = false
is_dead running = false

-- What a child tells.
pub record Report : Type 0 where
  pub pid : ℕ
  pub status : ℕ

-- `LIST_FOREACH(&task_curr()->children)`, and the list then. `task_delete` takes a dead child off the list of
-- `child->parent` and frees it: one that was taken over stays in the list that is searched, and what a later search
-- reads of it is undefined. The task that `child->parent` points to is taken to be there still.
unfoldable pub scan_children : List Child → Option Report × List Child
unfolding has_child_changed
scan_children [] = (none, [])
scan_children (c ∷ cs) =
    let rest = scan_children cs in
    let (changed, c') = has_child_changed c in
    if not changed
    then (rest.0, c' ∷ rest.1)
    else if is_dead c'.state && c'.own
    then (some (record { pid = c'.pid; status = c'.status }), cs)
    else (some (record { pid = c'.pid; status = c'.status }), c' ∷ cs)

abbrev pub wnohang : ℕ
wnohang = 1

-- How a call to wait ends: with a result, what it stores at `wstatus`, and the children. `block` is
-- `thread_block`: the children as they are when the thread runs again, or `none` if it never does.
pub record Waited : Type 0 where
  pub result : Ret
  pub stored : Option ℕ
  pub children : List Child

abbrev pub reported : Report → List Child → Waited
reported r cs = record { result = ret r.pid; stored = some r.status; children = cs }

abbrev pub quiet : Ret → List Child → Waited
quiet r cs = record { result = r; stored = none; children = cs }

-- The second loop of `wait_any_child`, and its end.
pub ask_again : List Child → Waited
unfolding scan_children
ask_again cs =
    let (found, cs') = scan_children cs in
    elim found [ some r ↦ reported r cs' | none ↦ quiet (ret 0) cs' ]

pub wait_any_child :
    (block : List Child → Option (List Child)) (options : ℕ) → List Child → Option Waited
unfolding scan_children ask_again
wait_any_child block options cs =
    let (found, cs') = scan_children cs in
    elim found [
      | some r ↦ some (reported r cs')
      | none ↦
          if not (bit_and options wnohang == 0)
          then some (quiet (ret 0) cs')
          else elim (block cs') [ none ↦ none | some woken ↦ some (ask_again woken) ]
    ]

-- `wait_child`, with the child as it is left, `none` when it is deleted. A child that was blocked for
-- is not asked again, nor is it reaped or its status stored.
pub wait_child :
    (block : Child → Option Child) (options : ℕ) → Child → Option (Ret × Option ℕ × Option Child)
unfolding has_child_changed
wait_child block options child =
    let (changed, c) = has_child_changed child in
    if changed
    then some (ret c.pid, some c.status, if is_dead c.state then none else some c)
    else if not (bit_and options wnohang == 0)
    then some (ret 0, none, some c)
    else elim (block c) [ none ↦ none | some woken ↦ some (ret c.pid, none, some woken) ]
