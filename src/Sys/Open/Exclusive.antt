-- ===== src/Sys/Open/Exclusive.antt =====
-- `O_EXCL` in `do_sys_open` of kernel/kern/fs/open.c.
use micro.Prelude.{
  ℕ, ◌==◌, ◌⊎◌, ◌≡◌, ◌≢◌, refl, sym, ◌∙◌, true, false, some, arith, Bool-cases, inl, inr,
}
use micro.Errno.{Errno, code, eexist, enoent}
use micro.Path.{Text}
use micro.Vfs.Inode.{test_bits}
use micro.Vfs.Driver.{Outcome, done, error, fault, Drivers}
use micro.Vfs.Names.{Opened, vfs_open}
use micro.Sys.{System, env_of}
use micro.Sys.Slots.{free_slot_from_three}
use micro.Sys.Open.{o_excl, open_or_create, do_sys_open}
use micro.Sys.Open.Result.{IsMade, IsFound, IsOpened, open_result}

module _ {W : Type 0} (drivers : Drivers W) where
  -- What a success has done, where the path did not open: the file is new.
  pub IsNew : (path : Text) (flags mode : ℕ) → System W → Outcome (System W) ℕ → Type 0
  IsNew path flags mode s (done fd s') =
      (o : Opened) × IsMade drivers path flags mode s o × IsOpened drivers path flags mode s fd o s'
  IsNew path flags mode s (error e t) = Unit
  IsNew path flags mode s fault = Unit

  -- What an `open` with `O_EXCL` does, by how the path opens at first.
  pub IsExclusive :
      (path : Text) (flags mode : ℕ) → System W → Outcome W Opened → Outcome (System W) ℕ → Type 0
  IsExclusive path flags mode s (done o w) r = r ≡ error eexist (record s { fs = w })
  IsExclusive path flags mode s (error e w) r =
      ((code e ≢ code enoent) × (r ≡ error eexist (record s { fs = w })))
      ⊎ ((code e ≡ code enoent) × IsNew path flags mode s r)
  IsExclusive path flags mode s fault r = r ≡ fault

  refused :
      (path : Text) (flags mode i : ℕ) (s : System W) (e : Errno) (t : System W)
      → free_slot_from_three s.task.fds ≡ some i
      → open_or_create drivers path flags mode s ≡ error e t
      → do_sys_open drivers path flags mode s ≡ error e t
  unfolding do_sys_open
  refused path flags mode i s e t f h = rw (f, do_sys_open, h) refl

  not_there :
      (s : System W) (path : Text) (flags : ℕ) (e : Errno) (w w' : W) (o : Opened)
      → vfs_open (env_of drivers s) path flags s.fs ≡ error e w
      → vfs_open (env_of drivers s) path flags s.fs ≡ done o w'
      → ⊥
  not_there s path flags e w w' o h k = let h' = sym h ∙ k in cc

  new-IsMade :
      (path : Text) (flags mode : ℕ) (s : System W) (e : Errno) (w : W) (o : Opened)
      → vfs_open (env_of drivers s) path flags s.fs ≡ error e w
      → IsFound drivers path flags mode s o
      → IsMade drivers path flags mode s o
  new-IsMade path flags mode s e w o h (inl (w', x, k)) =
      absurd (not_there s path flags e w w' o h k)
  new-IsMade path flags mode s e w o h (inr m) = m

  same_number : (m n : ℕ) → (m == n) ≡ true → m ≡ n
  same_number m n h = ground arith

  other_number : (m n : ℕ) → (m == n) ≡ false → m ≢ n
  other_number m n h = ground arith

  only-IsNew :
      (path : Text) (flags mode : ℕ) (s : System W) (n : Errno) (w : W)
      → vfs_open (env_of drivers s) path flags s.fs ≡ error n w
      → (r : Outcome (System W) ℕ) → do_sys_open drivers path flags mode s ≡ r
      → IsNew path flags mode s r
  unfolding IsNew
  only-IsNew path flags mode s n w e (done fd s') h =
      let (o, is) = open_result drivers path flags mode fd s s' h in
      (o, new-IsMade path flags mode s n w o e is.found, is)
  only-IsNew path flags mode s n w e (error x t) h = tt
  only-IsNew path flags mode s n w e fault h = tt

  exclusive :
      (path : Text) (flags mode i : ℕ) (s : System W)
      → test_bits flags o_excl ≡ true
      → free_slot_from_three s.task.fds ≡ some i
      → (r : Outcome W Opened) → vfs_open (env_of drivers s) path flags s.fs ≡ r
      → IsExclusive path flags mode s r (do_sys_open drivers path flags mode s)
  unfolding open_or_create do_sys_open IsExclusive
  exclusive path flags mode i s x f (done o w) e =
      refused path flags mode i s eexist (record s { fs = w }) f (rw (open_or_create, e, x) refl)
  exclusive path flags mode i s x f fault e = rw (f, do_sys_open, e, open_or_create) refl
  exclusive path flags mode i s x f (error n w) e = elim (Bool-cases (code n == code enoent)) [
    | inr a ↦ inl (
      other_number (code n) (code enoent) a,
      refused path flags mode i s eexist (record s { fs = w }) f
          (rw (open_or_create, e, a, x) refl),
    )
    | inl a ↦ inr (
      same_number (code n) (code enoent) a,
      only-IsNew path flags mode s n w e (do_sys_open drivers path flags mode s) refl,
    )
  ]

  -- With `O_EXCL` set and a descriptor free, an `open` of a path that opens is refused with `-EEXIST`, whether or not
  -- a file was to be made, and so is one that fails to open in any other way than with `-ENOENT`. After `-ENOENT`, an
  -- `open` that succeeds has made the file.
  pub open_excl-IsExclusive :
      (path : Text) (flags mode i : ℕ) (s : System W)
      → test_bits flags o_excl ≡ true
      → free_slot_from_three s.task.fds ≡ some i
      → IsExclusive path flags mode s
          (vfs_open (env_of drivers s) path flags s.fs)
          (do_sys_open drivers path flags mode s)
  open_excl-IsExclusive path flags mode i s x f =
      exclusive path flags mode i s x f (vfs_open (env_of drivers s) path flags s.fs) refl
