-- ===== src/Signal.antt =====
-- Signals: kernel/kern/signal.c, and `thread_handle_signals` of kernel/kern/thread.c.
pub mod Kill
use Prim.Native.Nat.{bit_and, bit_or}
use micro.Prelude.{
  ℕ, zero, suc, ◌+◌, ◌-◌, ◌*◌, ◌%◌, ◌^◌, Bool, true, false, not, ◌&&◌, ◌||◌, Option, none, some,
  List, [], ◌∷◌, if◌then◌else◌, ltb, leb, ◌==◌, put, get_or,
}
use micro.Errno.{Ret, ret, fail, einval, efault}

abbrev pub sigkill : ℕ
sigkill = 9

abbrev pub sigstop : ℕ
sigstop = 15

-- `SIGDEF_TERM` and the others; an entry that the table does not name is 0
pub data Default : Type 0 where
  term ign core stop cont : Default

abbrev pub defaults : List Default
defaults =
    term ∷ term ∷ core ∷ ign ∷ cont ∷ core ∷ term ∷ core ∷ term ∷ term ∷ term ∷ term ∷ term ∷ core
    ∷ core ∷ stop ∷ stop ∷ core ∷ term ∷ core ∷ stop ∷ stop ∷ ign ∷ term ∷ term ∷ term ∷ core ∷ core
    ∷ ign ∷ core ∷ []

-- What the calls use of a task with one thread: `struct sigaction` by its handler, 0 for `SIG_DFL` and 1
-- for `SIG_IGN`.
pub record Target : Type 0 where
  pub signals : ℕ → ℕ
  pub sigmask : ℕ
  pub sigqueue : List ℕ
  pub tracer : Bool

-- What the call does with `act`, once it has the old action.
unfoldable pub install :
    Target → (signum : ℕ) (mapped : Bool) (old : Option ℕ) → Option ℕ → Ret × Option ℕ × Target
install t signum mapped old none = (ret 0, old, t)
install t signum mapped old (some handler) =
    if mapped
    then (ret 0, old, record t { signals = put t.signals signum handler })
    else (fail efault, old, t)

-- `act` and `oldact` are `none` for NULL; `mapped` and `old_mapped` are their `PTRVALID`. The old action is
-- what goes to `oldact`.
unfoldable pub sys_sigaction :
    Target
    → (signum : ℕ) (mapped old_mapped : Bool) (act : Option ℕ) (oldact : Bool)
    → Ret × Option ℕ × Target
sys_sigaction t signum mapped old_mapped act oldact =
    if leb (2 ^ 31) signum || leb 32 signum || (signum == sigkill) || (signum == sigstop)
    then (fail einval, none, t)
    else if oldact && not old_mapped
    then (fail efault, none, t)
    else install t signum mapped (if oldact then some (t.signals signum) else none) act

-- `set` is `none` for NULL; the old mask goes to `oldset`.
unfoldable pub sys_sigprocmask :
    Target → (how : ℕ) (mapped old_mapped : Bool) (set : Option ℕ) → Ret × Target
sys_sigprocmask t how mapped old_mapped none = if old_mapped then (ret 0, t) else (fail efault, t)
sys_sigprocmask t how mapped old_mapped (some set) =
    if not mapped || not old_mapped
    then (fail efault, t)
    else if how == 0
    then (ret 0, record t { sigmask = bit_or t.sigmask set })
    else if how == 1
    then (ret 0, record t { sigmask = bit_and t.sigmask (2 ^ 32 - 1 - set) })
    else if how == 2
    then (ret 0, record t { sigmask = set })
    else (fail einval, t)

-- How the thread goes on: it returns from the handling, its task exits with a status, its task is stopped
-- by a signal, or it enters the handler of a signal. Only the first comes back to the loop.
pub data Handling : Type 0 where
  returns : Handling
  exits : (status : ℕ) → Handling
  stops : (sig : ℕ) → Handling
  enters : (sig : ℕ) → Handling

-- The loop, and the signals that are left in the queue. `resumed` counts the calls of
-- `thread_handle_contsig`.
unfoldable pub handle_queue : (t : Target) → (resumed : ℕ) → List ℕ → Handling × ℕ × List ℕ
handle_queue t resumed [] = (returns, resumed, [])
handle_queue t resumed (signo ∷ more) =
    let next = handle_queue t resumed more in
    let resume = handle_queue t (resumed + 1) more in
    if t.tracer
    then (stops signo, resumed, more)
    else if not (signo == sigkill)
        && not (signo == sigstop)
        && not (bit_and t.sigmask (2 ^ signo) == 0)
    then (returns, resumed, more)
    else if t.signals signo == 0
    then by_default signo more next resume (get_or defaults signo term)
    else if t.signals signo == 1
    then next
    else (enters signo, resumed, more)
  where
    by_default :
        (signo : ℕ)
        → List ℕ
        → Handling × ℕ × List ℕ
        → Handling × ℕ × List ℕ
        → Default
        → Handling × ℕ × List ℕ
    by_default signo more next resume term = (exits signo, resumed, more)
    by_default signo more next resume core = (exits (bit_or signo 128), resumed, more)
    by_default signo more next resume stop = (stops signo, resumed, more)
    by_default signo more next resume cont = resume
    by_default signo more next resume ign = next

unfoldable pub thread_handle_signals : Target → Handling × ℕ × Target
thread_handle_signals t =
    let r = handle_queue t 0 t.sigqueue in (r.0, r.1, record t { sigqueue = r.2 })

-- `task_send`, without the yield of a task that sends itself a signal
unfoldable pub task_send : Target → (signal : ℕ) → Target
task_send t signal = record t { sigqueue = append t.sigqueue }
  where
    append : List ℕ → List ℕ
    append [] = signal ∷ []
    append (s ∷ ss) = s ∷ append ss
