-- ===== src/Tests.antt =====
-- Runs of the theorems on concrete inputs.
use micro.Sched.{Sched, running, ready}
use micro.Sched.Robin.{IsSched, AreWaiting, ticks, ticks-reach}
use micro.Sem.{sem_create, sem_wait}
use micro.Sem.Holders
use micro.Sem.Holders.{IsCounted, Reach-IsCounted}
use micro.Signal.{
  Target, exits, stops, returns, sigkill, sigstop, handle_queue, thread_handle_signals,
}
use micro.Signal.Kill
use micro.Signal.Kill.{Reach-kill}
use micro.Prelude.{
  ℕ, ◌≤◌, ◌<◌, ◌≡◌, ◌≢◌, ◌⊎◌, refl, true, false, Option, none, some, List, [], ◌∷◌, ◌++◌, arith,
  get_elem?, if◌then◌else◌, inl, ◌^◌, ◌-◌, ◌==◌,
}
use micro.Errno.{ret}
use micro.RingBuf.{RingBuf, ringbuf_create, ringbuf_write, ringbuf_size}
use micro.RingBuf.Contents.{IsValid, contents, crowd, write-crowd, create-IsValid}
use micro.Pipe.{Pipe, pipe_create, pipe_write}
use micro.Pipe.Fifo.{IsFifo, here, next, wrote, fresh, Reach-IsFifo}
use micro.Path.{Text, vfs_mkcanon, tokens, render}
use micro.Path.Words.{words, tokens-words}
use micro.Path.Canon.{All, IsClean, mkcanon_canonical}
use micro.Heap.{Block, kmalloc, kfree, round_up}
use micro.Heap.Live.{span, Tidy, live, Adds, IsHeap, kmalloc-Adds}
use micro.Heap.Free.{kfree_removes}
use micro.Ids.{Proc, sys_setpgid, sys_getpgid, sched_task_fromid, child_of}
use micro.Ids.Privilege.{changes, uid, session, changes_unprivileged}
use micro.Ids.Session.{setpgid_getpgid}
use micro.Pty.{Pt, echo}
use micro.Wait.{Child, running, dead, scan_children}
use micro.Wait.Reap.{Told, scan-Told}

-- "/a/../b" and "/w"
abbrev dotted : Text
dotted = 47 ∷ 97 ∷ 47 ∷ 46 ∷ 46 ∷ 47 ∷ 98 ∷ []

abbrev work : Text
work = 47 ∷ 119 ∷ []

abbrev ring : RingBuf
ring = ringbuf_create 0 4

ring-IsValid : IsValid ring
ring-IsValid = (create-IsValid 0 4 (omega arith) (omega arith)).0

abbrev written : Pipe
written = record { buffer = ringbuf_write (ringbuf_create 0 4096) (7 ∷ 8 ∷ []); closed = false }

Reach-IsFifo_example : IsFifo (record { pipe = written; sent = 7 ∷ 8 ∷ []; got = [] })
unfolding pipe_write pipe_create ringbuf_create ringbuf_size
Reach-IsFifo_example =
    Reach-IsFifo 0
      (next here (wrote (fresh 0) (7 ∷ 8 ∷ []) {n = 2} {p = written} (omega arith) refl))

write-crowd_example :
    contents (ringbuf_write ring (1 ∷ 2 ∷ [])) ≡ crowd 4 (contents ring ++ 1 ∷ 2 ∷ [])
unfolding ringbuf_create
write-crowd_example = write-crowd (1 ∷ 2 ∷ []) ring-IsValid

abbrev full_ring : RingBuf
full_ring = record { read = 1; write = 1; size = 2; buffer = 5 ∷ 6 ∷ []; full = true }

mkcanon_canonical_example :
    (vfs_mkcanon dotted (some work) ≡ render (words (vfs_mkcanon dotted (some work))))
    × All IsClean (words (vfs_mkcanon dotted (some work)))
mkcanon_canonical_example = mkcanon_canonical dotted (some work)

tokens-words_example : tokens dotted ≡ words dotted
tokens-words_example = tokens-words dotted

abbrev free_block : Block
free_block = record { used = false; size = 128 }

abbrev taken_block : Block
taken_block = record { used = true; size = 32 }

free_block-IsHeap : IsHeap (free_block ∷ [])
unfolding span Tidy
free_block-IsHeap = record { tidy = (refl, refl, tt); small = omega arith }

kmalloc-Adds_example :
    let bs : List Block =
      record { used = true; size = 32 } ∷ record { used = false; size = 64 } ∷ [] in
    IsHeap bs
    × (span bs ≡ span (free_block ∷ []))
    × (20 ≤ round_up 20)
    × (round_up 20 < 52)
    × (live 1032 1000 (free_block ∷ []) ≡ none)
    × Adds 1032 (some (round_up 20)) (λ q. live q 1000 (free_block ∷ [])) (λ q. live q 1000 bs)
unfolding kmalloc round_up
kmalloc-Adds_example =
    kmalloc-Adds 20 1000 (free_block ∷ [])
      (record { used = true; size = 32 } ∷ record { used = false; size = 64 } ∷ []) 1032
      free_block-IsHeap (omega arith) refl

abbrev mixed : List Block
mixed = taken_block ∷ free_block ∷ []

mixed-IsHeap : IsHeap mixed
unfolding span Tidy
mixed-IsHeap = record { tidy = (refl, refl, (refl, refl, tt)); small = omega arith }

kfree_removes_example :
    (bs' : List Block) × (kfree 1032 1000 mixed ≡ some bs')
    × IsHeap bs'
    × (span bs' ≡ span mixed)
    × Adds 1032 none (λ q. live q 1000 mixed) (λ q. live q 1000 bs')
unfolding live
kfree_removes_example = kfree_removes 1032 1000 32 mixed mixed-IsHeap refl

abbrev user : Proc
user = record {
  pid = 7;
  pgid = 7;
  sid = 5;
  parent = none;
  ruid = 1000;
  euid = 1000;
  rgid = 100;
  egid = 100;
  groups = some [];
  groupcnt = 0;
  umask = 18;
}

changes_unprivileged_example :
    let t = changes user (uid 0 ∷ session ∷ []) in
    (user.euid ≢ 0 → (t.ruid ≡ 1000) × (t.euid ≡ 1000))
    × (user.egid ≢ 0 → (t.rgid ≡ 100) × (t.egid ≡ 100))
changes_unprivileged_example = changes_unprivileged (uid 0 ∷ session ∷ []) user

setpgid_getpgid_example :
    (k : ℕ) × (t : Proc) × (sched_task_fromid 0 (user ∷ []) 7 ≡ some k)
    × (get_elem? (user ∷ []) k ≡ some t)
    × ((k ≡ 0) ⊎ (child_of t 0 ≡ true))
    × (t.sid ≢ t.pid)
    × (sys_getpgid (record user { pgid = 9 } ∷ []) user 7 ≡ ret 9)
unfolding sys_setpgid
setpgid_getpgid_example =
    setpgid_getpgid (user ∷ []) 0 user 0 9 (record user { pgid = 9 } ∷ [])
      (λ e. absurd (omega arith)) refl

abbrev terminal : Pt
terminal = record {
  inbuf = full_ring;
  outbuf = full_ring;
  size = [];
  c_iflag = echo;
  termios = [];
  num = 0;
  pgid = 0;
}

abbrev family : List Child
family =
    record { pid = 2; state = running; was_stop = false; own = true; status = 0 }
    ∷ record { pid = 3; state = dead; was_stop = false; own = true; status = 256 }
    ∷ []

scan-Told_example : Told family (scan_children family).0 (scan_children family).1
scan-Told_example = scan-Told family

abbrev slots : List (Option ℕ)
slots = none ∷ some 4 ∷ none ∷ []

abbrev three_threads : Sched
three_threads = record {
  state = λ t. if t == 0 then running else ready;
  ready_queue = 1 ∷ 2 ∷ [];
  current = 0;
  idle = 9;
}

three_threads-IsSched : IsSched three_threads
unfolding IsSched AreWaiting
three_threads-IsSched = (refl, (inl refl, (inl refl, tt)))

ticks-reach_example : (s : Sched) × (ticks 2 three_threads ≡ some s) × (s.current ≡ 2) × IsSched s
ticks-reach_example = ticks-reach 1 three_threads 2 three_threads-IsSched refl

Reach-IsCounted_example : IsCounted 1 (record { threads = []; max = 1; cnt = 1 }) (0 ∷ [])
unfolding sem_create sem_wait
Reach-IsCounted_example =
    Reach-IsCounted 1 (record { threads = []; max = 1; cnt = 1 }) three_threads (0 ∷ [])
      (omega arith)
      (Holders.Reach.get (sem_create 1) three_threads [] (Holders.Reach.start three_threads)
        (omega arith))

-- a task that masks every signal
abbrev masked_task : Target
masked_task = record { signals = λ _. 0; sigmask = 2 ^ 32 - 1; sigqueue = 9 ∷ []; tracer = false }

Reach-kill_example :
    (handle_queue masked_task 0 (sigkill ∷ 1 ∷ []) ≡ (exits sigkill, 0, 1 ∷ []))
    × (handle_queue masked_task 0 (sigstop ∷ 1 ∷ []) ≡ (stops sigstop, 0, 1 ∷ []))
Reach-kill_example =
    Reach-kill masked_task 0 (1 ∷ []) (Kill.Reach.start (2 ^ 32 - 1) (9 ∷ []) false) refl

handle_masked :
    thread_handle_signals (record masked_task { sigqueue = 1 ∷ 9 ∷ [] }) ≡ (returns, 0, masked_task)
unfolding thread_handle_signals handle_queue
handle_masked = refl
