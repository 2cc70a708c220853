-- ===== src/Pipe.antt =====
-- Pipes: the file operations of kernel/kern/fs/pipe.c.
pub mod Fifo
use micro.Prelude.{
  ℕ, Bool, true, false, List, ltb, if◌then◌else◌, sub_size, lt_signed, length, take, ◌==◌,
}
use micro.RingBuf.{RingBuf, ringbuf_create, ringbuf_read, ringbuf_write, ringbuf_size}

-- `struct pipe`, without the pointers back to its two inodes, which nothing reads.
pub record Pipe : Type 0 where
  pub buffer : RingBuf
  pub closed : Bool

-- One round of a blocking loop: it yields to the other threads and tests again, it sends SIGPIPE to
-- the caller and returns `-EINTR`, or it returns with a result and the new pipe.
pub data Round (A : Type 0) : Type 0 where
  yields : Round A
  broken : Round A
  done : A → Pipe → Round A

-- `ssize_t` minimum
abbrev pub min_signed : ℕ → ℕ → ℕ
min_signed a b = if lt_signed a b then a else b

-- `pipe_read`: the bytes that go through `buf`; their number is the result.
pub pipe_read : Pipe → ℕ → Round (List ℕ)
pipe_read p size =
    let bytes = ringbuf_size p.buffer in
    if bytes == 0
    then (if p.closed then broken else yields)
    else (let (xs, b) = ringbuf_read p.buffer (min_signed bytes size) in
        done xs (record p { buffer = b }))

-- `pipe_write`: the number of bytes taken from the front of `xs`.
unfoldable pub pipe_write : Pipe → List ℕ → Round ℕ
pipe_write p xs =
    if p.buffer.full
    then (if p.closed then broken else yields)
    else (let empty = sub_size p.buffer.size (ringbuf_size p.buffer) in
        let bytes = min_signed (length xs) empty in
        done bytes (record p { buffer = ringbuf_write p.buffer (take bytes xs) }))

-- `pipe_close`
pub pipe_close : Pipe → Pipe
pipe_close p = record p { closed = true }

-- the pipe that `pipe_create` makes; `fill` is what `kmalloc` leaves in the storage
unfoldable pub pipe_create : (fill : ℕ) → Pipe
pipe_create fill = record { buffer = ringbuf_create fill 4096; closed = false }
