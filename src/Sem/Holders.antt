-- ===== src/Sem/Holders.antt =====
-- Who holds a semaphore, over a sequence of calls of `sem_wait` and `sem_signal` (kernel/kern/sem.c).
use micro.Prelude.{
  ℕ, suc, ◌^◌, ◌≤◌, ◌<◌, ◌≡◌, refl, ap, true, false, ◌⊎◌, inl, inr, List, [], ◌∷◌, ◌++◌, ltb,
  length, arith,
}
use micro.Sched.{Sched}
use micro.Sem.{Sem, sem_create, sem_signal, sem_wait}

-- The semaphore, the processor and the threads that hold the semaphore: a thread that waits holds it at once,
-- or when a thread that holds it signals. Between the calls the scheduler does what it likes.
pub data Reach (max : ℕ) : Sem → Sched → List ℕ → Type 0 where
  start : (s : Sched) → Reach max (sem_create max) s []
  other : (sem : Sem) (s s' : Sched) (hs : List ℕ) → Reach max sem s hs → Reach max sem s' hs
  get :
      (sem : Sem) (s : Sched) (hs : List ℕ)
      → Reach max sem s hs
      → sem.cnt < sem.max
      → Reach max (sem_wait sem s).0 (sem_wait sem s).1 (s.current ∷ hs)
  wait :
      (sem : Sem) (s : Sched) (hs : List ℕ)
      → Reach max sem s hs
      → sem.max ≤ sem.cnt
      → Reach max (sem_wait sem s).0 (sem_wait sem s).1 hs
  release :
      (sem : Sem) (s : Sched) (gs : List ℕ) (h : ℕ) (hs : List ℕ)
      → Reach max sem s (gs ++ (h ∷ hs))
      → sem.threads ≡ []
      → Reach max (sem_signal sem s).0 (sem_signal sem s).1 (gs ++ hs)
  hand_over :
      (sem : Sem) (s : Sched) (gs : List ℕ) (h : ℕ) (hs : List ℕ) (t : ℕ) (ts : List ℕ)
      → Reach max sem s (gs ++ (h ∷ hs))
      → sem.threads ≡ t ∷ ts
      → Reach max (sem_signal sem s).0 (sem_signal sem s).1 (t ∷ (gs ++ hs))

-- The count is the number of holders and at most the maximum, and it is the maximum while a thread waits.
unfoldable pub IsCounted : (max : ℕ) → Sem → List ℕ → Type 0
IsCounted max sem hs =
    (sem.max ≡ max)
    × (sem.cnt ≡ length hs)
    × (length hs ≤ max)
    × ((sem.threads ≡ []) ⊎ (length hs ≡ max))

length-middle :
    (gs : List ℕ) (h : ℕ) (hs : List ℕ) → length (gs ++ (h ∷ hs)) ≡ suc (length (gs ++ hs))
length-middle [] h hs = refl
length-middle (g ∷ gs) h hs = ap suc (length-middle gs h hs)

-- However the calls of `sem_wait` and `sem_signal` follow each other, as long as only threads that hold the
-- semaphore signal it, no more than `max` threads hold it, its count is their number, and no thread waits
-- while it is less than `max`.
pub Reach-IsCounted :
    (max : ℕ) (sem : Sem) (s : Sched) (hs : List ℕ)
    → max < 2 ^ 64
    → Reach max sem s hs
    → IsCounted max sem hs
unfolding IsCounted sem_create sem_signal sem_wait
Reach-IsCounted max _ _ _ m (Reach.start s) = (refl, refl, omega arith, inl refl)
Reach-IsCounted max _ _ _ m (Reach.other sem s s' hs r) = Reach-IsCounted max sem s hs m r
Reach-IsCounted max _ _ _ m (Reach.get sem s hs r l) =
    let (a, b, c, d) = Reach-IsCounted max sem s hs m r in
    let e : ltb sem.cnt sem.max ≡ true = ground arith in
    rw (e) (a, omega arith, omega arith, ground arith)
Reach-IsCounted max _ _ _ m (Reach.wait sem s hs r l) =
    let (a, b, c, d) = Reach-IsCounted max sem s hs m r in
    let e : ltb sem.cnt sem.max ≡ false = ground arith in rw (e) (a, b, c, inr (omega arith))
Reach-IsCounted max _ _ _ m (Reach.release sem s gs h hs r e) =
    let (a, b, c, d) = Reach-IsCounted max sem s (gs ++ (h ∷ hs)) m r in
    let l = length-middle gs h hs in rw (e) (a, omega arith, omega arith, inl refl)
Reach-IsCounted max _ _ _ m (Reach.hand_over sem s gs h hs t ts r e) =
    let (a, b, c, d) = Reach-IsCounted max sem s (gs ++ (h ∷ hs)) m r in
    let l = length-middle gs h hs in rw (e) (a, omega arith, omega arith, inr (ground arith))
