-- ===== src/Tasks.antt =====
-- The life of a task, kernel/kern/task.c: what `mktask`, `task_exit` and `task_change` do to the tasks by
-- their addresses. A task stands for its main thread in the queues; its address space and
-- the states of its threads are left out.
pub mod Members
pub mod Exit
mod Tests
use micro.Prelude.{
  ℕ, zero, suc, ◌+◌, ◌-◌, ◌%◌, ◌^◌, Bool, true, false, ◌||◌, Option, none, some, List, [], ◌∷◌,
  ◌++◌, if◌then◌else◌, ◌==◌, put, replicate, length, drop, ltb,
}
use micro.Path.{Text}

-- `TASK_RUNNING`, `TASK_STOPPED` and `TASK_DEAD`
pub data TaskState : Type 0 where
  task_running task_stopped task_dead : TaskState

-- `struct task`, with the signals that wait at its main thread. `child_count` is the size that the list of its
-- children keeps, `has_main` is whether `main` is set, and `waiting` is of 32 bits.
pub record Process : Type 0 where
  pub pid : ℕ
  pub parent : Option ℕ
  pub children : List ℕ
  pub child_count : ℕ
  pub has_main : Bool
  pub fds : List (Option ℕ)
  pub workd : Text
  pub umask : ℕ
  pub state : TaskState
  pub status : ℕ
  pub waiting : ℕ
  pub sigqueue : List ℕ

-- The tasks, the next number for one, the queue of threads that may run, and the files that were closed.
pub record Tasks : Type 0 where
  pub tasks : ℕ → Process
  pub next_pid : ℕ
  pub ready : List ℕ
  pub closed : List ℕ

abbrev pub sigchld : ℕ
sigchld = 3

abbrev pub any_child : ℕ
any_child = 2 ^ 32 - 1

unfoldable pub update_task : Tasks → (a : ℕ) → (Process → Process) → Tasks
update_task s a f = record s { tasks = put s.tasks a (f (s.tasks a)) }

unfoldable pub add_child : (child : ℕ) → Process → Process
add_child child p = record p {
  children = p.children ++ (child ∷ []);
  child_count = p.child_count + 1;
}

-- A task at the address that `kcalloc` gives. `fd_max` is the count of its descriptors.
unfoldable pub mktask : (fd_max : ℕ) → Tasks → (new : ℕ) → (parent : Option ℕ) → Tasks
mktask fd_max s new parent = announce parent made
  where
    task : Process
    task = record {
      pid = s.next_pid;
      parent = parent;
      children = [];
      child_count = 0;
      has_main = false;
      fds = replicate fd_max none;
      workd = b'/' ∷ [];
      umask = 18;
      state = task_running;
      status = 0;
      waiting = 0;
      sigqueue = [];
    }

    made : Tasks
    made = record s { tasks = put s.tasks new task; next_pid = (s.next_pid + 1) % 2 ^ 32 }

    announce : Option ℕ → Tasks → Tasks
    announce none s = s
    announce (some p) s = update_task s p (add_child new)

-- `list_enqueue(&init->children, child)` for each child
unfoldable pub adopt : (init : ℕ) → List ℕ → Tasks → Tasks
adopt init [] s = s
adopt init (c ∷ cs) s = adopt init cs (update_task s init (add_child c))

-- `list_clear`, where it ends
unfoldable pub no_children : Process → Process
no_children p = record p { children = drop p.child_count p.children; child_count = 0 }

-- The loop that closes the files: those that it closes, and the descriptors after it.
unfoldable pub close_all : List (Option ℕ) → List ℕ × List (Option ℕ)
close_all [] = ([], [])
close_all (none ∷ fds) = let rest = close_all fds in (rest.0, none ∷ rest.1)
close_all (some f ∷ fds) = let rest = close_all fds in (f ∷ rest.0, none ∷ rest.1)

-- the descriptors after the loop, and `task->main = NULL`
unfoldable pub clear_held : Process → Process
clear_held p = record p { fds = (close_all p.fds).1; has_main = false }

-- `list_enqueue` of a signal to another task
unfoldable pub queue_signal : (signal : ℕ) → Process → Process
queue_signal signal p = record p { sigqueue = p.sigqueue ++ (signal ∷ []) }

unfoldable pub set_state : TaskState → Process → Process
set_state state p = record p { state = state }

unfoldable pub not_waiting : Process → Process
not_waiting p = record p { waiting = 0 }

unfoldable pub set_status : (status : ℕ) → Process → Process
set_status status p = record p { status = status }

-- The parent, woken if it waits for this task or for any. None is a fault: there is no parent, or it waits and
-- has no main thread.
unfoldable pub task_change : Tasks → (task : ℕ) → TaskState → Option Tasks
task_change s task state = wake (s.tasks task).parent
  where
    marked : Tasks
    marked = update_task s task (set_state state)

    woken : ℕ → Tasks
    woken p = let t = update_task marked p not_waiting in record t { ready = t.ready ++ (p ∷ []) }

    wake : Option ℕ → Option Tasks
    wake none = none
    wake (some p) =
        let w = (marked.tasks p).waiting in
        if (w == (marked.tasks task).pid) || (w == any_child)
        then (if (s.tasks p).has_main then some (woken p) else none)
        else some marked

-- How `task_exit` goes: up to `switch_next`, to a NULL pointer, or on without an end.
pub data Ending : Type 0 where
  ends : Tasks → Ending
  faults endless : Ending

unfoldable pub finish : (task status : ℕ) → Option Tasks → Ending
finish task status none = faults
finish task status (some t) = ends (update_task t task (set_status status))

-- `init` is the task of number 1. `list_clear` takes as many children off as the list has counted, and has no end
-- where there are not so many. `task_send` puts the signal at the main thread of the parent.
unfoldable pub task_exit : Tasks → (init task status : ℕ) → Ending
task_exit s init task status =
    if ltb (length (s.tasks task).children) (s.tasks task).child_count
    then endless
    else told (s.tasks task).parent
  where
    adopted : Tasks
    adopted = update_task (adopt init (s.tasks task).children s) task no_children

    shut : Tasks
    shut =
        let t = update_task adopted task clear_held in
        record t { closed = t.closed ++ (close_all (adopted.tasks task).fds).0 }

    told : Option ℕ → Ending
    told none = finish task status (task_change shut task task_dead)
    told (some p) =
        if (shut.tasks p).has_main
        then finish task status
            (task_change (update_task shut p (queue_signal sigchld)) task task_dead)
        else faults
