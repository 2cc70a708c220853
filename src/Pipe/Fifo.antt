-- ===== src/Pipe/Fifo.antt =====
-- The pipes of kernel/kern/fs/pipe.c under any order of calls.
use micro.Prelude.{
  ℕ, ◌-◌, ◌^◌, ◌<◌, ◌≡◌, sym, ap, ◌∙◌, List, [], ◌++◌, arith, length, take, min, take-append-drop,
  append_assoc, length-take,
}
use mathlib.Core.Path.{ap₂}
use micro.RingBuf.{ringbuf_read, ringbuf_write, ringbuf_size}
use micro.RingBuf.Contents.{
  IsValid, contents, create-IsValid, write-IsValid, write-fits, read-take, size-write, size-le,
}
use micro.Pipe.{Pipe, done, min_signed, pipe_read, pipe_write, pipe_close, pipe_create}

-- A pipe with what its writers have put in and its readers have taken out since it was made.
pub record History : Type 0 where
  pub pipe : Pipe
  pub sent : List ℕ
  pub got : List ℕ

-- Any thread may make the next call that does not wait. `ssize_t` holds its size.
pub data Step : History → History → Type 0 where
  wrote :
      (h : History) (xs : List ℕ) {n : ℕ} {p : Pipe}
      → length xs < 2 ^ 63
      → pipe_write h.pipe xs ≡ done n p
      → Step h (record { pipe = p; sent = h.sent ++ take n xs; got = h.got })
  took :
      (h : History) (size : ℕ) {xs : List ℕ} {p : Pipe}
      → size < 2 ^ 63
      → pipe_read h.pipe size ≡ done xs p
      → Step h (record { pipe = p; sent = h.sent; got = h.got ++ xs })
  closed : (h : History) → Step h (record h { pipe = pipe_close h.pipe })

pub data Reach (a : History) : History → Type 0 where
  here : Reach a a
  next : {b c : History} → Reach a b → Step b c → Reach a c

pub record IsFifo (h : History) : Type 0 where
  pub valid : IsValid h.pipe.buffer
  pub small : h.pipe.buffer.size < 2 ^ 63
  pub order : h.sent ≡ h.got ++ contents h.pipe.buffer

module _ (p : Pipe) (v : IsValid p.buffer) (s : p.buffer.size < 2 ^ 63) where
  -- what `pipe_write` does when there is room
  write-done :
      (xs : List ℕ) {n : ℕ} {q : Pipe}
      → length xs < 2 ^ 63
      → pipe_write p xs ≡ done n q
      → (n ≡ min (length xs) (p.buffer.size - ringbuf_size p.buffer))
        × (q ≡ record p { buffer = ringbuf_write p.buffer (take n xs) })
  unfolding pipe_write
  write-done xs l e = ground (arith, size-le v)

  read-done :
      (size : ℕ) {xs : List ℕ} {q : Pipe}
      → size < 2 ^ 63
      → pipe_read p size ≡ done xs q
      → (n : ℕ) × (n ≡ min (ringbuf_size p.buffer) size)
        × (xs ≡ (ringbuf_read p.buffer n).0)
        × (q ≡ record p { buffer = (ringbuf_read p.buffer n).1 })
  unfolding pipe_read
  read-done size l e = (
    min_signed (ringbuf_size p.buffer) size,
    ground (arith, size-le v),
    ground (arith, size-le v),
    ground (arith, size-le v),
  )

  write-IsFifo :
      (sent got xs : List ℕ) {n : ℕ} {q : Pipe}
      → sent ≡ got ++ contents p.buffer
      → length xs < 2 ^ 63
      → pipe_write p xs ≡ done n q
      → IsFifo (record { pipe = q; sent = sent ++ take n xs; got = got })
  write-IsFifo sent got xs {n} o l e =
      let (count, new) = write-done xs l e in
      let fits = write-fits (take n xs) v (omega (arith, length-take n xs, size-le v)) in
      rw new (record {
        valid = write-IsValid (take n xs) v;
        small = rw (size-write p.buffer (take n xs)) s;
        order = rw (fits, o) (append_assoc got (contents p.buffer) (take n xs));
      })

  read-IsFifo :
      (sent got : List ℕ) (size : ℕ) {xs : List ℕ} {q : Pipe}
      → sent ≡ got ++ contents p.buffer
      → size < 2 ^ 63
      → pipe_read p size ≡ done xs q
      → IsFifo (record { pipe = q; sent = sent; got = got ++ xs })
  read-IsFifo sent got size {xs} o l e =
      let (n, count, out, new) = read-done size l e in
      let (front, back, v', s') = read-take n v (omega arith) in
      let c = contents p.buffer in
      let rest = contents (ringbuf_read p.buffer n).1 in
      let split : c ≡ xs ++ rest =
        sym (take-append-drop n c) ∙ ap₂ ◌++◌ (sym (out ∙ front)) (sym back) in
      rw new (record {
        valid = v';
        small = rw s' s;
        order = o ∙ ap (λ t. got ++ t) split ∙ sym (append_assoc got xs rest);
      })

Step-IsFifo : {a b : History} → IsFifo a → Step a b → IsFifo b
unfolding pipe_close
Step-IsFifo f (wrote h xs l e) = write-IsFifo h.pipe f.valid f.small h.sent h.got xs f.order l e
Step-IsFifo f (took h size l e) = read-IsFifo h.pipe f.valid f.small h.sent h.got size f.order l e
Step-IsFifo f (closed h) = record { valid = f.valid; small = f.small; order = f.order }

-- the state of a new pipe
abbrev pub fresh : ℕ → History
fresh fill = record { pipe = pipe_create fill; sent = []; got = [] }

fresh-IsFifo : (fill : ℕ) → IsFifo (fresh fill)
unfolding pipe_create
fresh-IsFifo fill =
    let (v, e, n) = create-IsValid fill 4096 (omega arith) (omega arith) in
    record { valid = v; small = rw n (omega arith); order = sym e }

-- Whatever calls of `pipe_read`, `pipe_write` and `pipe_close`, of sizes that `ssize_t` holds, the
-- threads make on a new pipe, and in whatever order, the bytes taken out and then those stored are the bytes put in, in order.
pub Reach-IsFifo : (fill : ℕ) {h : History} → Reach (fresh fill) h → IsFifo h
Reach-IsFifo fill here = fresh-IsFifo fill
Reach-IsFifo fill (next r st) = Step-IsFifo (Reach-IsFifo fill r) st
