-- ===== src/Sched/Robin.antt =====
-- The turns of the threads, kernel/kern/sched.c.
use micro.Prelude.{
  ℕ, zero, suc, ◌≡◌, refl, ap, ◌∙◌, Option, none, some, List, [], ◌∷◌, ◌++◌, put, put_self,
  get_elem?, subst, ◌⊎◌, inl, inr, arith, ◌==◌, Bool-cases,
}
use micro.Sched.{ThreadState, running, ready, Sched, next_ready, switch_next, preempt, switch_task}

-- Every thread in the queue is ready, or is the one that runs.
unfoldable pub AreWaiting : (ℕ → ThreadState) → ℕ → List ℕ → Type 0
AreWaiting state c [] = Unit
AreWaiting state c (t ∷ ts) = ((state t ≡ ready) ⊎ (t ≡ c)) × AreWaiting state c ts

unfoldable pub AreReady : (ℕ → ThreadState) → List ℕ → Type 0
AreReady state [] = Unit
AreReady state (t ∷ ts) = (state t ≡ ready) × AreReady state ts

put_ready :
    (state : ℕ → ThreadState) (c t : ℕ) → (state t ≡ ready) ⊎ (t ≡ c) → put state c ready t ≡ ready
unfolding put
put_ready state c t (inl h) = ground arith
put_ready state c t (inr h) = ground arith

-- Once the thread that ran is ready, all are.
AreWaiting-AreReady :
    (state : ℕ → ThreadState) (c : ℕ) (ts : List ℕ)
    → AreWaiting state c ts
    → AreReady (put state c ready) (ts ++ (c ∷ []))
unfolding AreWaiting AreReady
AreWaiting-AreReady state c [] h = (put_self state c ready, tt)
AreWaiting-AreReady state c (t ∷ ts) (a, h) =
    (put_ready state c t a, AreWaiting-AreReady state c ts h)

put_waits :
    (state : ℕ → ThreadState) (c t : ℕ)
    → state t ≡ ready
    → (put state c running t ≡ ready) ⊎ (t ≡ c)
unfolding put
put_waits state c t h = elim (Bool-cases (c == t)) [
  | inl e ↦ inr (ground arith)
  | inr e ↦ inl (rw (e) h)
]

AreReady-AreWaiting :
    (state : ℕ → ThreadState) (c : ℕ) (ts : List ℕ)
    → AreReady state ts
    → AreWaiting (put state c running) c ts
unfolding AreWaiting AreReady
AreReady-AreWaiting state c [] h = tt
AreReady-AreWaiting state c (t ∷ ts) (a, h) =
    (put_waits state c t a, AreReady-AreWaiting state c ts h)

-- A thread runs, and the threads in the queue wait for their turns.
unfoldable pub IsSched : Sched → Type 0
IsSched s = (s.state s.current ≡ running) × AreWaiting s.state s.current s.ready_queue

-- A switch goes to the thread at the head of the queue.
switch-head :
    (fuel : ℕ) (s : Sched) (t : ℕ) (ts : List ℕ)
    → AreReady s.state (t ∷ ts)
    → s.ready_queue ≡ t ∷ ts
    → switch_next (suc fuel) s
      ≡ some (record s { current = t; ready_queue = ts; state = put s.state t running })
unfolding switch_next next_ready AreReady
switch-head fuel s t ts (h, hs) e = rw (e, h) (rw (h) refl)

preempt-running :
    (s : Sched)
    → s.state s.current ≡ running
    → preempt s ≡ record s {
      state = put s.state s.current ready;
      ready_queue = s.ready_queue ++ (s.current ∷ []);
    }
unfolding preempt
preempt-running s h = rw (h) refl

tail_ready :
    (state : ℕ → ThreadState) (t : ℕ) (ts : List ℕ) → AreReady state (t ∷ ts) → AreReady state ts
unfolding AreReady
tail_ready state t ts h = h.1

-- One turn: the head of the queue runs, and the thread that ran goes to the end.
turn :
    (fuel : ℕ) (s : Sched) (t : ℕ) (ts : List ℕ)
    → IsSched s
    → s.ready_queue ≡ t ∷ ts
    → (s' : Sched) × (switch_task (suc fuel) s ≡ some s')
      × (s'.current ≡ t)
      × (s'.ready_queue ≡ ts ++ (s.current ∷ []))
      × IsSched s'
unfolding IsSched switch_task
turn fuel s t ts (h, w) e =
    let state = put s.state s.current ready in
    let more = ts ++ (s.current ∷ []) in
    let p : Sched = record s { state = state; ready_queue = s.ready_queue ++ (s.current ∷ []) } in
    let q : p.ready_queue ≡ t ∷ more = ap (λ l. l ++ (s.current ∷ [])) e in
    let all = subst (AreReady state) q (AreWaiting-AreReady s.state s.current s.ready_queue w) in
    (
      record p { current = t; ready_queue = more; state = put state t running },
      ap (switch_next (suc fuel)) (preempt-running s h) ∙ switch-head fuel p t more all q,
      refl,
      refl,
      (put_self state t running, AreReady-AreWaiting state t more (tail_ready state t more all)),
    )

-- `n` ticks of the timer
unfoldable pub ticks : (n : ℕ) → Sched → Option Sched
ticks zero s = some s
ticks (suc n) s = go_on (switch_task 1 s) (ticks n)
  where
    go_on : Option Sched → (Sched → Option Sched) → Option Sched
    go_on none rest = none
    go_on (some s') rest = rest s'

ticks_step : (n : ℕ) (s s' : Sched) → switch_task 1 s ≡ some s' → ticks (suc n) s ≡ ticks n s'
unfolding ticks
ticks_step n s s' h = rw (h) refl

get_elem?-front :
    (xs : List ℕ) (c k t : ℕ) → get_elem? xs k ≡ some t → get_elem? (xs ++ (c ∷ [])) k ≡ some t
get_elem?-front [] c k t h = cc
get_elem?-front (x ∷ xs) c zero t h = h
get_elem?-front (x ∷ xs) c (suc k) t h = get_elem?-front xs c k t h

by_queue :
    (k : ℕ) (s : Sched) (t : ℕ) (q : List ℕ)
    → s.ready_queue ≡ q
    → IsSched s
    → get_elem? q k ≡ some t
    → (s' : Sched) × (ticks (suc k) s ≡ some s') × (s'.current ≡ t) × IsSched s'
unfolding ticks
by_queue k s t [] eq h e = cc
by_queue zero s t (x ∷ xs) eq h e =
    let (s', r, c, q, i) = turn 0 s x xs h eq in (s', ticks_step 0 s s' r, ground arith, i)
by_queue (suc k) s t (x ∷ xs) eq h e =
    let (s', r, c, q, i) = turn 0 s x xs h eq in
    let (s2, r2, c2, i2) =
      by_queue k s' t (xs ++ (s.current ∷ [])) q i (get_elem?-front xs s.current k t e) in
    (s2, ticks_step (suc k) s s' r ∙ r2, c2, i2)

-- Every thread in the ready queue gets its turn: the one at place `k` runs after `k + 1` ticks, whatever
-- other threads wait, and each tick's search for a thread ends after one round; the queue holds ready threads
-- only, or the one that runs, and keeps doing so.
pub ticks-reach :
    (k : ℕ) (s : Sched) (t : ℕ)
    → IsSched s
    → get_elem? s.ready_queue k ≡ some t
    → (s' : Sched) × (ticks (suc k) s ≡ some s') × (s'.current ≡ t) × IsSched s'
ticks-reach k s t h e = by_queue k s t s.ready_queue refl h e
