-- ===== src/Sem.antt =====
-- Semaphores, kernel/kern/sem.c; `threads` are those that wait.
pub mod Holders
use micro.Prelude.{
  ℕ, zero, suc, ◌+◌, ◌-◌, ◌%◌, ◌^◌, Bool, true, false, List, [], ◌∷◌, ◌++◌, if◌then◌else◌, ltb,
}
use micro.Sched.{Sched, sched_spawnthread, thread_block}

pub record Sem : Type 0 where
  pub threads : List ℕ
  pub max : ℕ
  pub cnt : ℕ

unfoldable pub sem_create : (max : ℕ) → Sem
sem_create max = record { threads = []; max = max; cnt = 0 }

unfoldable pub sem_signal : Sem → Sched → Sem × Sched
sem_signal sem s = wake sem.threads
  where
    wake : List ℕ → Sem × Sched
    wake [] = (record sem { cnt = (sem.cnt + 2 ^ 64 - 1) % 2 ^ 64 }, s)
    wake (t ∷ ts) = (record sem { threads = ts }, sched_spawnthread s t)

-- The thread that calls is the one that runs.
unfoldable pub sem_wait : Sem → Sched → Sem × Sched
sem_wait sem s =
    if ltb sem.cnt sem.max
    then (record sem { cnt = sem.cnt + 1 }, s)
    else (record sem { threads = sem.threads ++ (s.current ∷ []) }, thread_block s)
