-- ===== src/Vfs/Driver.antt =====
-- What a file system driver gives the virtual file system: the tables of function pointers
-- `struct inode_ops` and `struct file_ops` of kernel/include/micro/vfs.h. Drivers are reached only
-- through these pointers, so the tables are a parameter, over the drivers' own state `W`.
use micro.Prelude.{ℕ, Option, none, some, List}
use micro.Errno.{Errno}
use micro.Path.{Text}
use micro.Vfs.Inode.{Inode}

-- How a call ends: with a value, with a negative error number, or with undefined behaviour, such as
-- a call of a null pointer.
pub data Outcome (W A : Type 0) : Type 0 where
  done : A → W → Outcome W A
  error : Errno → W → Outcome W A
  fault : Outcome W A

abbrev pub Op : Type 0 → Type 0 → Type 0
Op W A = W → Outcome W A

module _ {W A : Type 0} where
  abbrev pub pure : A → Op W A
  pure a w = done a w

  abbrev pub throw : Errno → Op W A
  throw e w = error e w

  -- a result that the caller drops, errors included
  abbrev pub dropped : Op W A → Op W (Unit {0})
  dropped m w = elim (m w) [ done a w' ↦ done tt w' | error e w' ↦ done tt w' | fault ↦ fault ]

  -- a result that the caller tests for an error
  abbrev pub attempt : Op W A → Op W (Option A)
  attempt m w = elim (m w) [
    | done a w' ↦ done (some a) w'
    | error e w' ↦ done none w'
    | fault ↦ fault
  ]

module _ {W A B : Type 0} where
  abbrev pub bind : Outcome W A → (A → Op W B) → Outcome W B
  bind (done a w) k = k a w
  bind (error e w) k = error e w
  bind fault k = fault

  infixl 5 ◌>>=◌ ◌>>◌
  abbrev pub ◌>>=◌ : Op W A → (A → Op W B) → Op W B
  ◌>>=◌ m k w = bind (m w) k

  abbrev pub ◌>>◌ : Op W A → Op W B → Op W B
  m >> n = m >>= λ _. n

pub record InodeOps (W : Type 0) : Type 0 where
  pub lookup : Option (Inode → Text → Op W Inode)
  pub mknod : Option (Inode → Text → ℕ → ℕ → ℕ → ℕ → Op W (Unit {0}))
  pub mkdir : Option (Inode → Text → ℕ → ℕ → ℕ → Op W (Unit {0}))
  pub getdents : Option (Inode → ℕ → ℕ → Op W (List Text))
  pub unlink : Option (Inode → Text → Op W (Unit {0}))
  pub readlink : Option (Inode → ℕ → Op W Text)
  pub symlink : Option (Inode → Text → Op W (Unit {0}))
  pub link : Option (Inode → Text → Inode → Op W (Unit {0}))
  pub set_atime : Option (Inode → ℕ → Op W (Unit {0}))
  pub set_mtime : Option (Inode → ℕ → Op W (Unit {0}))

-- An operation on a file sees its inode, and returns it as it leaves it. `open` may replace the
-- table of the file.
pub record FileOps (W : Type 0) : Type 0 where
  pub open_file : Option (Inode → ℕ → Op W ℕ)
  pub release : Option (Inode → Op W (Unit {0}))
  pub read : Option (Inode → ℕ → ℕ → Op W (Text × Inode))
  pub write : Option (Inode → Text → ℕ → Op W (ℕ × Inode))
  pub ioctl : Option (Inode → ℕ → ℕ → Op W ℕ)
  pub chmod : Option (Inode → ℕ → Op W Inode)
  pub chown : Option (Inode → ℕ → ℕ → Op W Inode)

pub record Drivers (W : Type 0) : Type 0 where
  pub inode_ops : ℕ → InodeOps W
  pub file_ops : ℕ → FileOps W
