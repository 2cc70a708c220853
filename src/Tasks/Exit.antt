-- ===== src/Tasks/Exit.antt =====
-- What `task_exit` of kernel/kern/task.c leaves of a task.
use micro.Prelude.{
  ℕ, ◌≡◌, Bool, false, ◌||◌, none, [], ◌∷◌, ◌++◌, map, length, ◌+◌, if◌then◌else◌, ◌==◌,
}
use micro.Tasks.{
  Tasks, task_dead, sigchld, any_child, update_task, adopt, no_children, close_all, clear_held,
  queue_signal, set_state, not_waiting, set_status,
}

-- Whether the parent waits for the task.
unfoldable pub waits : Tasks → (p task : ℕ) → Bool
waits s p task = let w = (s.tasks p).waiting in (w == (s.tasks task).pid) || (w == any_child)

-- What is left when a task of the parent `p` has ended.
pub record Exited (s : Tasks) (init task p status : ℕ) (t : Tasks) : Type 0 where
  pub orphans : (t.tasks init).children ≡ (s.tasks init).children ++ (s.tasks task).children
  pub counted :
      (t.tasks init).child_count ≡ (s.tasks init).child_count + length (s.tasks task).children
  pub alone : (t.tasks task).children ≡ []
  pub dead : (t.tasks task).state ≡ task_dead
  pub result : (t.tasks task).status ≡ status
  pub closes : t.closed ≡ s.closed ++ (close_all (s.tasks task).fds).0
  pub shuts : (t.tasks task).fds ≡ map (λ f. none) (s.tasks task).fds
  pub mainless : (t.tasks task).has_main ≡ false
  pub signalled : (t.tasks p).sigqueue ≡ (s.tasks p).sigqueue ++ (sigchld ∷ [])
  pub wakes : t.ready ≡ s.ready ++ (if waits s p task then p ∷ [] else [])

module _ (s : Tasks) (init task p status : ℕ) where
  orphaned : Tasks
  orphaned = update_task (adopt init (s.tasks task).children s) task no_children

  shut : Tasks
  shut = record (update_task orphaned task clear_held) {
    closed = orphaned.closed ++ (close_all (orphaned.tasks task).fds).0;
  }

  told : Tasks
  told = update_task shut p (queue_signal sigchld)

  marked : Tasks
  marked = update_task told task (set_state task_dead)

  after : Bool → Tasks
  after b =
      let t = update_task marked p not_waiting in
      if b then record t { ready = t.ready ++ (p ∷ []) } else marked

  ended : Bool → Tasks
  ended b = update_task (after b) task (set_status status)

  asks : Bool
  asks =
      ((marked.tasks p).waiting == (marked.tasks task).pid)
      || ((marked.tasks p).waiting == any_child)
