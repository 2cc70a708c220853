-- ===== src/Wait/Reap.antt =====
-- The search for changed children in kernel/kern/exit.c, against what the states of the children say.
use micro.Prelude.{ℕ, ◌≡◌, refl, Bool, true, false, not, Option, none, some, List, [], ◌∷◌, ◌++◌}
use micro.Wait.{State, running, stopped, dead, Child, has_child_changed, Report, scan_children}

-- Whether there is something to tell of a child: it is dead, it was stopped and that is not told yet, or it runs
-- again after a stop that was told.
abbrev pub has_news : (state : State) (was_stop : Bool) → Bool
has_news dead was_stop = true
has_news stopped was_stop = not was_stop
has_news running was_stop = was_stop

-- What stays of a child in the list once its news are told: a dead child of the task is gone, and a stop is
-- remembered just while it lasts.
abbrev pub told_child : (pid : ℕ) (state : State) (was_stop own : Bool) (status : ℕ) → List Child
told_child pid dead was_stop true status = []
told_child pid dead was_stop false status =
    record { pid = pid; state = dead; was_stop = was_stop; own = false; status = status } ∷ []
told_child pid stopped was_stop own status =
    record { pid = pid; state = stopped; was_stop = true; own = own; status = status } ∷ []
told_child pid running was_stop own status =
    record { pid = pid; state = running; was_stop = false; own = own; status = status } ∷ []

unfoldable pub HaveNone : List Child → Type 0
HaveNone [] = Unit
HaveNone (c ∷ cs) = (has_news c.state c.was_stop ≡ false) × HaveNone cs

-- What a search reports, and the list that it leaves.
pub data Told : List Child → Option Report → List Child → Type 0 where
  tells :
      (before after : List Child) (c : Child)
      → HaveNone before
      → has_news c.state c.was_stop ≡ true
      → Told
          (before ++ c ∷ after)
          (some (record { pid = c.pid; status = c.status }))
          (before ++ (told_child c.pid c.state c.was_stop c.own c.status ++ after))
  quiet : (cs : List Child) → HaveNone cs → Told cs none cs

quiet-Told :
    (c : Child) (cs cs' : List Child) (r : Option Report)
    → has_news c.state c.was_stop ≡ false
    → Told cs r cs'
    → Told (c ∷ cs) r (c ∷ cs')
unfolding HaveNone
quiet-Told c _ _ _ q (Told.quiet cs h) = Told.quiet (c ∷ cs) (q, h)
quiet-Told c _ _ _ q (Told.tells before after d h n) = Told.tells (c ∷ before) after d (q, h) n

-- The search reports the number and the status of the first child with news: one that is dead, that was stopped
-- since it was last asked, or that runs again after a stop that was told. A dead child is gone from the list then if
-- the task is its parent, and stays if it was taken over; of another the list remembers whether it is stopped, and
-- all else is as it was. Without such a child there is no report, and nothing changes.
pub scan-Told : (cs : List Child) → Told cs (scan_children cs).0 (scan_children cs).1
unfolding scan_children has_child_changed HaveNone
scan-Told [] = Told.quiet [] tt
scan-Told (c ∷ cs) = step c.pid c.status c.state c.was_stop c.own (scan-Told cs)
  where
    step :
        (pid status : ℕ) (state : State) (was_stop own : Bool)
        → Told cs (scan_children cs).0 (scan_children cs).1
        → let c : Child = record {
          pid = pid;
          status = status;
          state = state;
          was_stop = was_stop;
          own = own;
        } in
          Told (c ∷ cs) (scan_children (c ∷ cs)).0 (scan_children (c ∷ cs)).1
    step pid status dead b true h =
        Told.tells [] cs
          (record { pid = pid; status = status; state = dead; was_stop = b; own = true }) tt refl
    step pid status dead b false h =
        Told.tells [] cs
          (record { pid = pid; status = status; state = dead; was_stop = b; own = false }) tt refl
    step pid status stopped false o h =
        Told.tells [] cs
          (record { pid = pid; status = status; state = stopped; was_stop = false; own = o }) tt
          refl
    step pid status running true o h =
        Told.tells [] cs
          (record { pid = pid; status = status; state = running; was_stop = true; own = o }) tt refl
    step pid status stopped true o h =
        quiet-Told
          (record { pid = pid; status = status; state = stopped; was_stop = true; own = o }) cs
          (scan_children cs).1 (scan_children cs).0 refl h
    step pid status running false o h =
        quiet-Told
          (record { pid = pid; status = status; state = running; was_stop = false; own = o }) cs
          (scan_children cs).1 (scan_children cs).0 refl h
