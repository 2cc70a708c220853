-- ===== src/Sys/Desc/Sharing.antt =====
-- `lseek` and `close` of kernel/kern/fs on descriptors that refer to one open file.
use micro.Prelude.{
  ℕ, ◌+◌, ◌%◌, ◌^◌, ◌<◌, ◌≡◌, ◌≢◌, refl, ap, ◌∙◌, Option, none, some, arith, get_elem?, set,
  set_self, get_elem?-set_self, if◌then◌else◌, ◌==◌,
}
use micro.Errno.{ebadf}
use micro.Vfs.Inode.{Inode, test_bits}
use micro.Vfs.Driver.{done, error, bind, Drivers}
use micro.Vfs.File.{File}
use micro.Sys.{System, fd_valid, deref_file, deref_inode, fd_max, lift}
use micro.Sys.Desc.{sys_lseek, sys_close, o_append}
use micro.Sys.Desc.Table.{
  IsTable, file_of-valid, file_of-invalid, with_slot, fd_valid-set_self, fd_valid-set_ne,
}
use micro.Vfs.File

module _ {W : Type 0} (s : System W) where
  deref_file-some : (p : ℕ) (f : File) → get_elem? s.files p ≡ some f → deref_file p s ≡ done f s
  unfolding deref_file
  deref_file-some p f e = rw (e, deref_file)

  deref_inode-some :
      (p : ℕ) (n : Inode) → get_elem? s.inodes p ≡ some n → deref_inode p s ≡ done n s
  unfolding deref_inode
  deref_inode-some p n e = rw (e, deref_inode)

  -- An open file behind a valid descriptor.
  pub record Refers (fd p : ℕ) (f : File) (node : Inode) : Type 0 where
    pub slot : fd_valid s.task.fds fd ≡ some p
    pub file : get_elem? s.files p ≡ some f
    pub inode : get_elem? s.inodes f.inode ≡ some node

  -- the state in which the open file `p` stands at `off`
  abbrev pub at_offset : ℕ → File → ℕ → System W
  at_offset p f off = record s { files = set s.files p (record f { off = off }) }

  -- where `lseek` counts from, for the three values of `whence`
  unfoldable pub base_of : ℕ → File → Inode → Option ℕ
  base_of whence f node =
      if whence == 0
      then some (if test_bits f.flags o_append then node.size else 0)
      else if whence == 2
      then some node.size
      else if whence == 1
      then some f.off
      else none

  lseek_lem :
      (fd offset whence p base : ℕ) (f : File) (node : Inode)
      → Refers fd p f node
      → base_of whence f node ≡ some base
      → sys_lseek fd offset whence s
        ≡ done ((base + offset) % 2 ^ 64) (at_offset p f ((base + offset) % 2 ^ 64))
  unfolding sys_lseek base_of
  lseek_lem fd offset whence p base f node r e =
      rw (file_of-valid s fd p r.slot, bind)
        (rw (deref_file-some p f r.file, bind)
          (rw (deref_inode-some f.inode node r.inode) (ground arith)))

module _ {W : Type 0} (s : System W) where
  -- After a move through one descriptor, any descriptor of the same open file reads the new offset
  -- by `lseek(fd, 0, SEEK_CUR)`, which changes nothing.
  pub lseek_shared :
      (a b offset whence p base : ℕ) (f : File) (node : Inode)
      → Refers s a p f node
      → fd_valid s.task.fds b ≡ some p
      → base_of s whence f node ≡ some base
      → let r = (base + offset) % 2 ^ 64 in
        (sys_lseek a offset whence s ≡ done r (at_offset s p f r))
        × (sys_lseek b 0 1 (at_offset s p f r) ≡ done r (at_offset s p f r))
  unfolding base_of
  lseek_shared a b offset whence p base f node r v e =
      let off = (base + offset) % 2 ^ 64 in
      let f' = record f { off = off } in
      let moved = at_offset s p f off in
      let r' : Refers moved b p f' node = record {
        slot = v;
        file = get_elem?-set_self s.files p f' f r.file;
        inode = r.inode;
      } in
      let stays : (off + 0) % 2 ^ 64 ≡ off = omega arith in
      let again : at_offset moved p f' off ≡ moved =
        ap (λ l. record moved { files = l }) (set_self moved.files p f' r'.file) in
      (
        lseek_lem s a offset whence p base f node r e,
        lseek_lem moved b 0 1 p off f' node r' refl
            ∙ ap (λ o. done o (at_offset moved p f' o)) stays
            ∙ ap (done off) again,
      )

module _ {W : Type 0} (drivers : Drivers W) (s : System W) where
  -- In a table of `FD_MAX` slots, a descriptor that is closed, by a driver that does not fault, is no
  -- longer valid: a second `close` fails with `-EBADF`. All other descriptors stay as they were.
  pub close_twice :
      (fd p : ℕ) (f : File) (node : Inode) (w : W)
      → IsTable s.task.fds
      → fd < fd_max
      → Refers s fd p f node
      → File.vfs_close drivers f node s.fs ≡ done tt w
      → let s' = record (with_slot s fd none) { fs = w } in
        (sys_close drivers fd s ≡ done 0 s')
        × (sys_close drivers fd s' ≡ error ebadf s')
        × ((k : ℕ) → k ≢ fd → fd_valid s'.task.fds k ≡ fd_valid s.task.fds k)
  unfolding sys_close lift
  close_twice fd p f node w t h r c =
      let s' = record (with_slot s fd none) { fs = w } in
      (
        rw (file_of-valid s fd p r.slot, bind)
            (rw (deref_file-some s p f r.file, bind)
              (rw (deref_inode-some s f.inode node r.inode, bind) (rw (c, lift)))),
        rw (file_of-invalid s' fd (fd_valid-set_self s.task.fds fd none t h)),
        (λ k ne. fd_valid-set_ne s.task.fds fd k none ne),
      )
