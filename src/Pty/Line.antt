-- ===== src/Pty/Line.antt =====
-- The two ends of a pseudoterminal of kernel/kern/tty.c, against the contents of its rings.
use micro.Prelude.{
  ℕ, ◌<◌, ◌≡◌, ◌≢◌, refl, ap, ◌∙◌, some, List, ◌++◌, arith, length, min, length-take,
  take-append-drop,
}
use mathlib.Core.Path.{ap₂}
use micro.RingBuf.{ringbuf_read, ringbuf_size}
use micro.RingBuf.Contents.{IsValid, contents, length-contents, read-take}
use micro.Pty.{Pt, pts_read, ptm_read}

pub record IsLive (pt : Pt) : Type 0 where
  pub input : IsValid pt.inbuf
  pub output : IsValid pt.outbuf

module _ (pt : Pt) (v : IsLive pt) where
  read-done :
      (size n : ℕ)
      → n ≡ min size (ringbuf_size pt.inbuf)
      → ringbuf_size pt.inbuf ≢ 0
      → pts_read size pt
        ≡ some (n, (ringbuf_read pt.inbuf n).0, record pt { inbuf = (ringbuf_read pt.inbuf n).1 })
  unfolding pts_read
  read-done size n e h = ground arith

  -- On well-formed rings, a read of the slave ends when there is input, with the oldest bytes, as many as were
  -- asked for or are there, and leaves the rest.
  pub pts_read_takes :
      (size : ℕ)
      → ringbuf_size pt.inbuf ≢ 0
      → (n : ℕ) × (xs : List ℕ) × (pt' : Pt) × (pts_read size pt ≡ some (n, xs, pt'))
        × (n ≡ min size (length (contents pt.inbuf)))
        × (xs ++ contents pt'.inbuf ≡ contents pt.inbuf)
        × (length xs ≡ n)
        × IsLive pt'
  pts_read_takes size h =
      let n : ℕ = min size (ringbuf_size pt.inbuf) in
      let (front, back, v', _) = read-take n v.input (omega arith) in
      (
        n,
        (ringbuf_read pt.inbuf n).0,
        record pt { inbuf = (ringbuf_read pt.inbuf n).1 },
        read-done size n refl h,
        rw (length-contents pt.inbuf) refl,
        ap₂ ◌++◌ front back ∙ take-append-drop n (contents pt.inbuf),
        rw (front) (omega (arith, length-take n (contents pt.inbuf), length-contents pt.inbuf)),
        record { input = v'; output = v.output },
      )

  -- On well-formed rings, a read of the master for more bytes than the output holds, where it holds
  -- some, returns the size it was asked for, although it delivers fewer bytes.
  pub ptm_read_overcounts :
      (size : ℕ)
      → ringbuf_size pt.outbuf ≢ 0
      → ringbuf_size pt.outbuf < size
      → ((ptm_read size pt).0 ≡ size) × (length (ptm_read size pt).1 < size)
  unfolding ptm_read
  ptm_read_overcounts size h l =
      let n : ℕ = ringbuf_size pt.outbuf in
      let out = (ringbuf_read pt.outbuf n).0 in
      let count : length out ≡ n =
        ap length (read-take n v.output (omega arith)).0
        ∙ omega (arith, length-take n (contents pt.outbuf), length-contents pt.outbuf) in
      ground arith
