-- ===== src/Tasks/Tests.antt =====
-- Runs of kernel/kern/task.c on three tasks.
use micro.Prelude.{ℕ, true, length, Option, none, some, List, [], ◌∷◌, if◌then◌else◌, ◌==◌}
use micro.Tasks.{Process, Tasks, task_running, any_child}

abbrev process : (pid : ℕ) → Option ℕ → List ℕ → Process
process pid parent children = record {
  pid = pid;
  parent = parent;
  children = children;
  child_count = length children;
  has_main = true;
  fds = none ∷ some 70 ∷ some 71 ∷ [];
  workd = b'/' ∷ [];
  umask = 18;
  state = task_running;
  status = 0;
  waiting = any_child;
  sigqueue = [];
}

-- init at 100, its child at 200, whose child is at 300
abbrev three : Tasks
three = record {
  tasks = λ a.
      if a == 100
      then process 1 none (200 ∷ [])
      else if a == 200
      then process 2 (some 100) (300 ∷ [])
      else process 3 (some 200) [];
  next_pid = 4;
  ready = [];
  closed = [];
}
