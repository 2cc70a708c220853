-- ===== src/Sched.antt =====
-- The scheduler on one processor, kernel/kern/sched.c and kernel/kern/thread.c: the threads are numbers, and
-- none has a signal to handle when it is switched to.
pub mod Robin
use micro.Prelude.{ℕ, zero, suc, Option, none, some, List, [], ◌∷◌, ◌++◌, put}

-- `THREAD_RUNNING`, `THREAD_READY`, `THREAD_DEAD`, `THREAD_WAITING` and `THREAD_BLOCKED`
pub data ThreadState : Type 0 where
  running : ThreadState
  ready : ThreadState
  dead : ThreadState
  waiting : ThreadState
  blocked : ThreadState

pub record Sched : Type 0 where
  pub state : ℕ → ThreadState
  pub ready_queue : List ℕ
  pub current : ℕ
  pub idle : ℕ

unfoldable pub next_ready : Sched → ℕ × Sched
next_ready s = dequeue s.ready_queue
  where
    taken : ThreadState → ℕ → List ℕ → ℕ × Sched
    taken running t ts = (s.idle, record s { ready_queue = ts ++ (t ∷ []) })
    taken ready t ts = (t, record s { ready_queue = ts })
    taken blocked t ts = (t, record s { ready_queue = ts })
    taken dead t ts = (t, record s { ready_queue = ts })
    taken waiting t ts = (t, record s { ready_queue = ts })

    dequeue : List ℕ → ℕ × Sched
    dequeue [] = (s.idle, s)
    dequeue (t ∷ ts) = taken (s.state t) t ts

-- The loop of `switch_next`, with at most `fuel` rounds, and then the switch.
unfoldable pub switch_next : (fuel : ℕ) → Sched → Option Sched
switch_next zero s = none
switch_next (suc fuel) s =
    let (t, s') = next_ready s in
    let again = switch_next fuel (record s' { current = t }) in test t s' again (s'.state t)
  where
    test : ℕ → Sched → Option Sched → ThreadState → Option Sched
    test t s' again ready = some (record s' { current = t; state = put s'.state t running })
    test t s' again running = again
    test t s' again blocked = again
    test t s' again dead = again
    test t s' again waiting = again

-- What `switch_task` does to the thread that runs; it takes the place of its registers.
unfoldable pub preempt : Sched → Sched
preempt s = stop (s.state s.current)
  where
    stop : ThreadState → Sched
    stop running = record s {
      state = put s.state s.current ready;
      ready_queue = s.ready_queue ++ (s.current ∷ []);
    }
    stop ready = s
    stop blocked = s
    stop dead = s
    stop waiting = s

unfoldable pub switch_task : (fuel : ℕ) → Sched → Option Sched
switch_task fuel s = switch_next fuel (preempt s)

unfoldable pub sched_spawnthread : Sched → ℕ → Sched
sched_spawnthread s t = record s {
  state = put s.state t ready;
  ready_queue = s.ready_queue ++ (t ∷ []);
}

unfoldable pub sched_start : Sched → (threads : List ℕ) → Sched
sched_start s [] = s
sched_start s (t ∷ ts) = sched_start (sched_spawnthread s t) ts

-- `thread_block`, without the switch that `sched_yield` asks for
unfoldable pub thread_block : Sched → Sched
thread_block s = record s { state = put s.state s.current blocked }
