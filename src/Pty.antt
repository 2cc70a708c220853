-- ===== src/Pty.antt =====
-- Pseudoterminals: kernel/kern/tty.c, over two byte rings.
pub mod Line
pub mod Slaves
use Prim.Native.Nat.{bit_and}
use micro.Prelude.{
  ℕ, zero, suc, ◌+◌, ◌-◌, ◌*◌, ◌%◌, ◌^◌, Bool, true, false, not, Option, none, some, List, [], ◌∷◌,
  ◌++◌, ◌==◌, ltb, if◌then◌else◌, add_size, sub_size, length, get_elem?,
}
use micro.Errno.{Errno, Ret, ret, fail, einval, enoent}
use micro.RingBuf.{RingBuf, ringbuf_create, ringbuf_read, ringbuf_write, ringbuf_size}
use micro.Path.{Text, strcmp}
use micro.Stdlib.{itoa}

-- `struct pt`. `termios` is its `c_iflag` and what else it holds; `size` is the window size.
pub record Pt : Type 0 where
  pub inbuf : RingBuf
  pub outbuf : RingBuf
  pub size : List ℕ
  pub c_iflag : ℕ
  pub termios : List ℕ
  pub num : ℕ
  pub pgid : ℕ

-- `ECHO` of kernel/include/micro/termios.h
abbrev pub echo : ℕ
echo = 8

-- One round of `pts_read`: `none` is the `sched_yield` of a reader that finds the buffer empty.
-- A result is the number returned, the bytes, and the terminal.
pub pts_read : (size : ℕ) → Pt → Option (ℕ × List ℕ × Pt)
pts_read size pt =
    let have = ringbuf_size pt.inbuf in
    let bytes = if ltb size have then size else have in
    let (xs, b) = ringbuf_read pt.inbuf bytes in
    if have == 0 then none else some (bytes, xs, record pt { inbuf = b })

pub pts_write : List ℕ → Pt → ℕ × Pt
pts_write buf pt = (length buf, record pt { outbuf = ringbuf_write pt.outbuf buf })

pub ptm_read : (size : ℕ) → Pt → ℕ × List ℕ × Pt
ptm_read size pt =
    let have = ringbuf_size pt.outbuf in
    let bytes = if ltb size have then size else have in
    let (xs, b) = ringbuf_read pt.outbuf bytes in
    if have == 0 then (0, [], pt) else (size, xs, record pt { outbuf = b })

pub ptm_write : List ℕ → Pt → ℕ × Pt
ptm_write buf pt =
    let entered = record pt { inbuf = ringbuf_write pt.inbuf buf } in
    if bit_and pt.c_iflag echo == 0
    then (length buf, entered)
    else (length buf, record entered { outbuf = ringbuf_write pt.outbuf buf })

-- The requests of `pt_ioctl`, with what `argp` points to where it is read.
pub data Request : Type 0 where
  tiocgwinsz tcgets tiocgptn tiocsptlck tiocgpgrp fionread : Request
  tiocswinsz : List ℕ → Request
  tcsets tcsetsf tcsetsw : ℕ → List ℕ → Request
  tiocspgrp : ℕ → Request
  other : ℕ → Request

-- The result, what is stored through `argp`, and the terminal.
pub pt_ioctl : Request → Pt → Ret × List ℕ × Pt
pt_ioctl tiocgwinsz pt = (ret 0, pt.size, pt)
pt_ioctl (tiocswinsz size) pt = (ret 0, [], record pt { size = size })
pt_ioctl tcgets pt = (ret 0, pt.c_iflag ∷ pt.termios, pt)
pt_ioctl (tcsets f t) pt = (ret 0, [], record pt { c_iflag = f; termios = t })
pt_ioctl (tcsetsf f t) pt = (ret 0, [], record pt { c_iflag = f; termios = t })
pt_ioctl (tcsetsw f t) pt = (ret 0, [], record pt { c_iflag = f; termios = t })
pt_ioctl tiocgptn pt = (ret 0, pt.num ∷ [], pt)
pt_ioctl tiocsptlck pt = (ret 0, [], pt)
pt_ioctl tiocgpgrp pt = (ret pt.pgid, [], pt)
pt_ioctl (tiocspgrp g) pt = (ret 0, [], record pt { pgid = g })
pt_ioctl fionread pt = (ret 0, 0 ∷ [], pt)
pt_ioctl (other r) pt = (fail einval, [], pt)

-- An entry of `slaves`: a name, and the place of the terminal whose inode it leads to.
pub record Slave : Type 0 where
  pub name : Text
  pub pt : ℕ
  pub uid : ℕ

-- All terminals, `slaves`, and `s_ptsname`.
pub record Ptys : Type 0 where
  pub pts : List Pt
  pub slaves : List Slave
  pub s_ptsname : ℕ

pub ptsfs_lookup : List Slave → Text → Option Slave
ptsfs_lookup [] name = none
ptsfs_lookup (d ∷ ds) name =
    let rest = ptsfs_lookup ds name in if strcmp name d.name then some d else rest

-- `ptsfs_getdents`, with `dirent` for `sizeof(struct dirent)`: `off--` counts down, and wraps when
-- it has reached 0, so that one entry is listed.
pub ptsfs_getdents : (dirent : ℕ) → List Slave → (off size bytes : ℕ) → List Text
ptsfs_getdents dirent [] off size bytes = []
ptsfs_getdents dirent (d ∷ ds) off size bytes =
    let passed = ptsfs_getdents dirent ds (sub_size off 1) size bytes in
    let listed = d.name ∷ ptsfs_getdents dirent ds (sub_size off 1) size (bytes + dirent) in
    if ltb size (bytes + dirent) then [] else if not (off == 0) then passed else listed

-- the text that `itoa` leaves in a fresh buffer
abbrev pub text_of : Option Text → Text
text_of none = []
text_of (some t) = t

-- `itoa(pt->num, dentry->name, 10)`, of the bit pattern of an `int`
pub pts_name : ℕ → Text
pts_name num = text_of (if ltb num (2 ^ 31) then itoa false num 10 else itoa true (2 ^ 32 - num) 10)

-- `ptmx_open_new`, with `ptm_open` and `pts_open`: `fill` is the byte that fresh memory holds. The
-- result is the place of the new terminal.
pub ptmx_open_new : (fill euid : ℕ) → Ptys → ℕ × Ptys
unfolding pts_name
ptmx_open_new fill euid s =
    let pt : Pt = record {
      inbuf = ringbuf_create fill 1024;
      outbuf = ringbuf_create fill 1024;
      size = [];
      c_iflag = echo;
      termios = [];
      num = s.s_ptsname;
      pgid = 0;
    } in
    (
      length s.pts,
      record {
        pts = s.pts ++ pt ∷ [];
        slaves =
            s.slaves ++ record { name = pts_name s.s_ptsname; pt = length s.pts; uid = euid } ∷ [];
        s_ptsname = (s.s_ptsname + 1) % 2 ^ 32;
      },
    )
