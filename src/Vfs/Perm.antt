-- ===== src/Vfs/Perm.antt =====
-- `vfs_checkperm` of kernel/kern/fs/vfs.c: which permission bits decide.
use micro.Prelude.{
  ℕ, ◌*◌, ◌≡◌, Bool, true, false, not, ◌||◌, Option, none, some, List, [], ◌∷◌, arith, ◌==◌,
  if◌then◌else◌, refl,
}
use micro.Vfs.Inode.{Inode, test_bits}

-- The credentials of the running task; `groupcnt` is the length of `groups`.
pub record Cred : Type 0 where
  pub euid : ℕ
  pub egid : ℕ
  pub groups : List ℕ

-- The loop over the supplementary groups: the answer of the first that owns the file.
group_loop : Inode → ℕ → List ℕ → Option Bool
group_loop f mask [] = none
group_loop f mask (g ∷ gs) =
    let rest = group_loop f mask gs in
    if f.gid == g then some (test_bits f.mode (mask * 8)) else rest

-- `vfs_checkperm`, `true` for 0 and `false` for -1. Before the first task runs there are no credentials.
unfoldable pub vfs_checkperm : Option Cred → Inode → ℕ → Bool
unfolding group_loop
vfs_checkperm none f mask = true
vfs_checkperm (some c) f mask =
    if not (c.euid == 0)
    then (if c.euid == f.uid
        then test_bits f.mode (mask * 64)
        else if c.egid == f.gid
        then test_bits f.mode (mask * 8)
        else elim (group_loop f mask c.groups) [
          | some answer ↦ answer
          | none ↦ test_bits f.mode mask
        ])
    else true

abbrev pub mem : ℕ → List ℕ → Bool
mem a [] = false
mem a (g ∷ gs) = (a == g) || mem a gs

group_loop-mem :
    (f : Inode) (mask : ℕ) (gs : List ℕ)
    → group_loop f mask gs ≡ (if mem f.gid gs then some (test_bits f.mode (mask * 8)) else none)
unfolding group_loop
group_loop-mem f mask [] = refl
group_loop-mem f mask (g ∷ gs) = ground (arith, group_loop-mem f mask gs)

-- The class of users that the credentials belong to, for a file.
pub data Class : Type 0 where
  root owner group other : Class

pub class_of : Cred → Inode → Class
class_of c f =
    if c.euid == 0
    then root
    else if c.euid == f.uid
    then owner
    else if (c.egid == f.gid) || mem f.gid c.groups
    then group
    else other

-- what a class needs for an access
pub allows : Class → ℕ → ℕ → Bool
allows root mode mask = true
allows owner mode mask = test_bits mode (mask * 64)
allows group mode mask = test_bits mode (mask * 8)
allows other mode mask = test_bits mode mask

-- Access is decided by one class alone, the first that fits of root, owner, group (the effective or
-- a supplementary one) and others: root may do all, and any other class what its own bits allow.
pub checkperm-allows :
    (c : Cred) (f : Inode) (mask : ℕ)
    → vfs_checkperm (some c) f mask ≡ allows (class_of c f) f.mode mask
unfolding vfs_checkperm class_of allows
checkperm-allows c f mask = ground (arith, group_loop-mem f mask c.groups)
