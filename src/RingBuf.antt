-- ===== src/RingBuf.antt =====
-- The byte ring of kernel/kern/ringbuf.c, on which pipes and pseudoterminals stand.
pub mod Walk
pub mod Contents
use micro.Prelude.{
  ℕ, zero, suc, ◌+◌, Bool, true, false, List, [], ◌∷◌, ◌==◌, leb, if◌then◌else◌, add_size, sub_size,
  get_or, set, replicate,
}

-- `struct ringbuf`; `buffer` is the memory behind the pointer.
pub record RingBuf : Type 0 where
  pub read : ℕ
  pub write : ℕ
  pub size : ℕ
  pub buffer : List ℕ
  pub full : Bool

-- `kmalloc` leaves the storage as it was: `fill` is the byte found there.
unfoldable pub ringbuf_create : (fill size : ℕ) → RingBuf
ringbuf_create fill size = record {
  read = 0;
  write = 0;
  size = size;
  buffer = replicate size fill;
  full = false;
}

-- `if (++i == size) i = 0`
abbrev pub bump : ℕ → ℕ → ℕ
bump i size = if add_size i 1 == size then 0 else add_size i 1

-- `ringbuf_inc`: a full buffer drops its oldest byte.
pub ringbuf_inc : RingBuf → RingBuf
ringbuf_inc b =
    let r = if b.full then bump b.read b.size else b.read in
    let w = bump b.write b.size in record b { read = r; write = w; full = w == r }

-- `ringbuf_dec`
pub ringbuf_dec : RingBuf → RingBuf
ringbuf_dec b = record b { read = bump b.read b.size; full = false }

-- one round of `ringbuf_write`
pub push : RingBuf → ℕ → RingBuf
unfolding ringbuf_inc
push b x = ringbuf_inc (record b { buffer = set b.buffer b.write x })

-- `ringbuf_read`: the bytes that go through `ptr`, and the buffer.
pub ringbuf_read : RingBuf → ℕ → List ℕ × RingBuf
unfolding ringbuf_dec
ringbuf_read b zero = ([], b)
ringbuf_read b (suc n) =
    let (xs, b') = ringbuf_read (ringbuf_dec b) n in (get_or b.buffer b.read 0 ∷ xs, b')

-- `ringbuf_write`
pub ringbuf_write : RingBuf → List ℕ → RingBuf
unfolding push
ringbuf_write b [] = b
ringbuf_write b (x ∷ xs) = ringbuf_write (push b x) xs

-- `ringbuf_size`
unfoldable pub ringbuf_size : RingBuf → ℕ
ringbuf_size b =
    if b.full
    then b.size
    else if leb b.read b.write
    then sub_size b.write b.read
    else sub_size (add_size b.size b.write) b.read
