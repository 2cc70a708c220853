-- ===== src/Signal/Kill.antt =====
-- `SIGKILL` and `SIGSTOP`: kernel/kern/signal.c and kernel/kern/thread.c.
use micro.Prelude.{
  ℕ, ◌^◌, ◌≡◌, ◌≢◌, refl, ◌∙◌, Bool, true, false, not, ◌||◌, ◌&&◌, Option, none, some, List, ◌∷◌,
  put_ne, leb, ◌==◌, arith, Bool-cases, inl, inr,
}
use micro.Signal.{
  Target, exits, stops, sigkill, sigstop, install, sys_sigaction, sys_sigprocmask, handle_queue,
  thread_handle_signals, task_send,
}

-- The task after some calls of `sigaction`, `sigprocmask` and `task_send`, begun with every action the
-- default.
pub data Reach : Target → Type 0 where
  start :
      (mask : ℕ) (queue : List ℕ) (tracer : Bool)
      → Reach (record { signals = λ _. 0; sigmask = mask; sigqueue = queue; tracer = tracer })
  action :
      (t : Target) (signum : ℕ) (m o : Bool) (act : Option ℕ) (old : Bool)
      → Reach t
      → Reach (sys_sigaction t signum m o act old).2
  procmask :
      (t : Target) (how : ℕ) (m o : Bool) (set : Option ℕ)
      → Reach t
      → Reach (sys_sigprocmask t how m o set).1
  send : (t : Target) (signal : ℕ) → Reach t → Reach (task_send t signal)
  handle : (t : Target) → Reach t → Reach (thread_handle_signals t).2

-- The actions that no call may change.
unfoldable pub IsFixed : Target → Type 0
IsFixed t = (t.signals sigkill ≡ 0) × (t.signals sigstop ≡ 0)

install-IsFixed :
    (t : Target) (signum : ℕ) (m : Bool) (old act : Option ℕ)
    → signum ≢ sigkill
    → signum ≢ sigstop
    → IsFixed t
    → IsFixed (install t signum m old act).2
unfolding IsFixed install
install-IsFixed t signum m old none a b h = h
install-IsFixed t signum true old (some f) a b h =
    (put_ne t.signals signum sigkill f a ∙ h.0, put_ne t.signals signum sigstop f b ∙ h.1)
install-IsFixed t signum false old (some f) a b h = h

sigaction-IsFixed :
    (t : Target) (signum : ℕ) (m o : Bool) (act : Option ℕ) (old : Bool)
    → IsFixed t
    → IsFixed (sys_sigaction t signum m o act old).2
unfolding sys_sigaction
sigaction-IsFixed t signum m o act old h =
    elim (Bool-cases
      (leb (2 ^ 31) signum || leb 32 signum || (signum == sigkill) || (signum == sigstop))) [
        | inl e ↦ rw (e) h
        | inr e ↦ elim (Bool-cases (old && not o)) [
          | inl f ↦ rw (e, f) h
          | inr f ↦
              rw (e, f) (install-IsFixed t signum m _ act (λ q. ground arith) (λ q. ground arith) h)
        ]
      ]

sigprocmask-IsFixed :
    (t : Target) (how : ℕ) (m o : Bool) (set : Option ℕ)
    → IsFixed t
    → IsFixed (sys_sigprocmask t how m o set).1
unfolding IsFixed sys_sigprocmask
sigprocmask-IsFixed t how m true none h = h
sigprocmask-IsFixed t how m false none h = h
sigprocmask-IsFixed t how false o (some set) h = h
sigprocmask-IsFixed t how true false (some set) h = h
sigprocmask-IsFixed t how true true (some set) h = elim (Bool-cases (how == 0)) [
  | inl e ↦ rw (e) h
  | inr e ↦ elim (Bool-cases (how == 1)) [
    | inl f ↦ rw (e, f) h
    | inr f ↦ elim (Bool-cases (how == 2)) [ inl g ↦ rw (e, f, g) h | inr g ↦ rw (e, f, g) h ]
  ]
]

Reach-IsFixed : (t : Target) → Reach t → IsFixed t
unfolding IsFixed task_send thread_handle_signals
Reach-IsFixed _ (Reach.start mask queue tracer) = (refl, refl)
Reach-IsFixed _ (Reach.action t signum m o act old r) =
    sigaction-IsFixed t signum m o act old (Reach-IsFixed t r)
Reach-IsFixed _ (Reach.procmask t how m o set r) =
    sigprocmask-IsFixed t how m o set (Reach-IsFixed t r)
Reach-IsFixed _ (Reach.send t signal r) = Reach-IsFixed t r
Reach-IsFixed _ (Reach.handle t r) = Reach-IsFixed t r

-- Whatever calls of `sigaction`, `sigprocmask` and `task_send` a task that is not traced makes, if `SIGKILL`
-- is the next of its signals then handling them ends the task with status 9, and if `SIGSTOP` is, it stops the task;
-- neither can be masked, ignored or caught.
pub Reach-kill :
    (t : Target) (resumed : ℕ) (more : List ℕ)
    → Reach t
    → t.tracer ≡ false
    → (handle_queue t resumed (sigkill ∷ more) ≡ (exits sigkill, resumed, more))
      × (handle_queue t resumed (sigstop ∷ more) ≡ (stops sigstop, resumed, more))
unfolding handle_queue IsFixed
Reach-kill t resumed more r h = let (a, b) = Reach-IsFixed t r in (rw (h, a) refl, rw (h, b) refl)
