-- ===== src/Sys/Desc/Table.antt =====
-- `dup` and `close` of kernel/kern/fs on the descriptor table.
use micro.Prelude.{
  ℕ, ◌<◌, ◌≡◌, ◌≢◌, refl, sym, ap, ◌∙◌, true, Option, none, some, arith, length, get_or, set,
  Option-cases, inl, inr, get_or-set_self, get_or-set_ne,
}
use micro.Errno.{Errno, ebadf, emfile}
use micro.Vfs.Driver.{Outcome, done, error, bind}
use micro.Sys.{System, fd_valid, file_of, fd_max}
use micro.Sys.Slots.{Fds, free_slot, IsFirst, scan-IsFirst, scan-none}
use micro.Sys.Desc.{sys_dup}

-- The table has `FD_MAX` slots.
abbrev pub IsTable : Fds → Type 0
IsTable fds = length fds ≡ fd_max

pub fd_valid-set_self :
    (fds : Fds) (i : ℕ) (p : Option ℕ) → IsTable fds → i < fd_max → fd_valid (set fds i p) i ≡ p
unfolding fd_valid
fd_valid-set_self fds i p t h = ground (arith, get_or-set_self fds i p none)

pub fd_valid-set_ne :
    (fds : Fds) (i k : ℕ) (p : Option ℕ) → k ≢ i → fd_valid (set fds i p) k ≡ fd_valid fds k
unfolding fd_valid
fd_valid-set_ne fds i k p h = ground (arith, get_or-set_ne fds i k p none)

module _ {W : Type 0} (s : System W) where
  pub file_of-valid : (fd p : ℕ) → fd_valid s.task.fds fd ≡ some p → file_of fd s ≡ done p s
  unfolding file_of
  file_of-valid fd p h = rw (h, file_of)

  pub file_of-invalid : (fd : ℕ) → fd_valid s.task.fds fd ≡ none → file_of fd s ≡ error ebadf s
  unfolding file_of
  file_of-invalid fd h = rw (h, file_of)

  -- The table with the slot `i` holding `p`, and all else as it was.
  abbrev pub with_slot : ℕ → Option ℕ → System W
  with_slot i p = record s { task = record (s.task) { fds = set s.task.fds i p } }

  -- what `dup` does once the descriptor is valid
  abbrev dup_with : ℕ → Option ℕ → Outcome (System W) ℕ
  dup_with p none = error emfile s
  dup_with p (some i) = done i (with_slot i (some p))

  dup-valid :
      (old p : ℕ) (o : Option ℕ)
      → fd_valid s.task.fds old ≡ some p
      → free_slot s.task.fds ≡ o
      → sys_dup old s ≡ dup_with p o
  unfolding sys_dup
  dup-valid old p none v f = rw (file_of-valid old p v, bind) (rw f)
  dup-valid old p (some i) v f = rw (file_of-valid old p v, bind) (rw f)

  dup-invalid : (old : ℕ) → fd_valid s.task.fds old ≡ none → sys_dup old s ≡ error ebadf s
  unfolding sys_dup
  dup-invalid old v = rw (file_of-invalid old v)

  done-injective : {A : Type 0} (a b : A) (u v : System W) → done a u ≡ done b v → (a ≡ b) × (u ≡ v)
  done-injective a b u v h = (cc, cc)

  -- A `dup` that succeeds, in a table of `FD_MAX` slots, takes the least free slot, which then refers to the same open file; no other slot and
  -- nothing else changes.
  pub dup_lem :
      (old i : ℕ) (s' : System W)
      → IsTable s.task.fds
      → sys_dup old s ≡ done i s'
      → (p : ℕ) × (fd_valid s.task.fds old ≡ some p)
        × IsFirst (λ _. true) 0 s.task.fds i
        × (s' ≡ with_slot i (some p))
        × (fd_valid (set s.task.fds i (some p)) i ≡ some p)
        × ((k : ℕ) → k ≢ i → fd_valid (set s.task.fds i (some p)) k ≡ fd_valid s.task.fds k)
  dup_lem old i s' t h = elim (Option-cases (fd_valid s.task.fds old)) [
    | inl bad ↦ cc (dup-invalid old bad)
    | inr (p, v) ↦ elim (Option-cases (free_slot s.task.fds)) [
      | inl full ↦ cc (dup-valid old p none v full)
      | inr (j, free) ↦
          let (same, new) = done-injective j i _ s' (sym (dup-valid old p (some j) v free) ∙ h) in
          let f : IsFirst (λ _. true) 0 s.task.fds i =
            unfold free_slot in scan-IsFirst (λ _. true) 0 s.task.fds i (free ∙ ap some same) in
          let inside : i < fd_max = omega (arith, f.inside) in
          (
            p,
            v,
            f,
            sym new ∙ ap (λ k. with_slot k (some p)) same,
            fd_valid-set_self s.task.fds i (some p) t inside,
            (λ k ne. fd_valid-set_ne s.task.fds i k (some p) ne),
          )
    ]
  ]

  -- `dup` of a valid descriptor fails only with `-EMFILE`, when every slot is taken, and changes nothing.
  pub dup_full :
      (old : ℕ) (e : Errno) (s' : System W) (p : ℕ)
      → fd_valid s.task.fds old ≡ some p
      → sys_dup old s ≡ error e s'
      → (e ≡ emfile)
        × (s' ≡ s)
        × ((k : ℕ) → k < length s.task.fds → get_or s.task.fds k none ≢ none)
  dup_full old e s' p v h = elim (Option-cases (free_slot s.task.fds)) [
    | inl full ↦
        let h' = sym (dup-valid old p none v full) ∙ h in
        (cc, cc, (λ k l. scan-none (λ _. true) 0 s.task.fds (unfold free_slot in full) k l refl))
    | inr (j, free) ↦ cc (dup-valid old p (some j) v free)
  ]
