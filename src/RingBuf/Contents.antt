-- ===== src/RingBuf/Contents.antt =====
-- The functions of kernel/kern/ringbuf.c, against the queue of the bytes that a ring holds.
use micro.Prelude.{
  ℕ, zero, suc, ◌+◌, ◌-◌, ◌^◌, ◌≤◌, ◌<◌, ◌≡◌, refl, ap, ◌∙◌, true, false, List, [], ◌∷◌, ◌++◌,
  arith, length, take, drop, append_assoc, append-nil, length-append, length-set, length-drop,
  length-replicate, drop-append, sym, inl, inr, Bool-cases, get_or, set, drop-drop,
}
use mathlib.Core.Path.{ap₂}
use micro.RingBuf.{
  RingBuf, ringbuf_create, bump, ringbuf_inc, ringbuf_dec, push, ringbuf_read, ringbuf_write,
  ringbuf_size,
}
use micro.RingBuf.Walk.{walk, place, length-walk, walk-set}

-- The heads lie inside the storage, and a full ring has them at one place.
pub record IsValid (b : RingBuf) : Type 0 where
  pub pos : 0 < b.size
  pub small : b.size < 2 ^ 64
  pub storage : b.size ≤ length b.buffer
  pub read_in : b.read < b.size
  pub write_in : b.write < b.size
  pub meet : b.full ≡ true → b.write ≡ b.read

-- The stored bytes, the oldest first.
abbrev pub contents : RingBuf → List ℕ
contents b = walk b.buffer b.size b.read (ringbuf_size b)

pub length-contents : (b : RingBuf) → length (contents b) ≡ ringbuf_size b
length-contents b = length-walk b.buffer b.size b.read (ringbuf_size b)

pub size-le : {b : RingBuf} → IsValid b → ringbuf_size b ≤ b.size
unfolding ringbuf_size
size-le v = ground arith

pub create-IsValid :
    (fill n : ℕ)
    → 0 < n
    → n < 2 ^ 64
    → IsValid (ringbuf_create fill n)
      × (contents (ringbuf_create fill n) ≡ [])
      × ((ringbuf_create fill n).size ≡ n)
unfolding ringbuf_create ringbuf_size
create-IsValid fill n p s = ground (arith, length-replicate n fill)

pub push-IsValid : {b : RingBuf} (x : ℕ) → IsValid b → IsValid (push b x)
unfolding push ringbuf_inc
push-IsValid {b} x v = ground (arith, length-set b.buffer b.write x)

pub dec-IsValid : {b : RingBuf} → IsValid b → IsValid (ringbuf_dec b)
unfolding ringbuf_dec
dec-IsValid v = ground arith

pub size-push : (b : RingBuf) (x : ℕ) → (push b x).size ≡ b.size
unfolding push ringbuf_inc
size-push b x = refl

pub size-push_open :
    {b : RingBuf} (x : ℕ)
    → IsValid b
    → b.full ≡ false
    → ringbuf_size (push b x) ≡ suc (ringbuf_size b)
unfolding push ringbuf_inc ringbuf_size
size-push_open x v o = ground arith

pub size-push_full :
    {b : RingBuf} (x : ℕ) → IsValid b → b.full ≡ true → ringbuf_size (push b x) ≡ b.size
unfolding push ringbuf_inc ringbuf_size
size-push_full x v o = ground arith

-- The write head of a ring that is not full stands just past the stored bytes.
write-place :
    {b : RingBuf}
    → IsValid b
    → b.full ≡ false
    → (b.write ≡ place b.size b.read (ringbuf_size b)) × (ringbuf_size b < b.size)
unfolding ringbuf_size
write-place v o = ground arith

-- A queue of at most `n` bytes that drops its oldest bytes to make room.
unfoldable pub crowd : ℕ → List ℕ → List ℕ
crowd n xs = drop (length xs - n) xs

crowd-le : (n : ℕ) (xs : List ℕ) → length xs ≤ n → crowd n xs ≡ xs
unfolding crowd
crowd-le n xs h = let e : length xs - n ≡ 0 = omega arith in ap (λ k. drop k xs) e

read-push_open : (b : RingBuf) (x : ℕ) → b.full ≡ false → (push b x).read ≡ b.read
unfolding push ringbuf_inc
read-push_open b x o = ground arith

read-push_full : (b : RingBuf) (x : ℕ) → b.full ≡ true → (push b x).read ≡ bump b.read b.size
unfolding push ringbuf_inc
read-push_full b x o = ground arith

-- What a ring holds after a write, from its new read head and count.
walk-push :
    (b : RingBuf) (x i k : ℕ)
    → (push b x).read ≡ i
    → ringbuf_size (push b x) ≡ k
    → contents (push b x) ≡ walk (set b.buffer b.write x) b.size i k
unfolding push ringbuf_inc
walk-push b x i k p q = ap₂ (walk (set b.buffer b.write x) b.size) p q

push-open :
    {b : RingBuf} (x : ℕ) → IsValid b → b.full ≡ false → contents (push b x) ≡ contents b ++ x ∷ []
push-open {b} x v o =
    walk-push b x b.read (suc (ringbuf_size b)) (read-push_open b x o) (size-push_open x v o)
    ∙ walk-set b.buffer b.size x (ringbuf_size b) b.read b.write v.small v.storage v.read_in
        (write-place v o).1 (write-place v o).0

push-full :
    {b : RingBuf} (x m : ℕ)
    → IsValid b
    → b.full ≡ true
    → b.size ≡ suc m
    → contents (push b x) ≡ walk b.buffer b.size (bump b.read b.size) m ++ x ∷ []
push-full {b} x m v o e =
    walk-push b x (bump b.read b.size) (suc m) (read-push_full b x o) (size-push_full x v o ∙ e)
    ∙ walk-set b.buffer b.size x m (bump b.read b.size) b.write v.small v.storage (ground arith)
        (omega arith) (ground arith)

size-full : (b : RingBuf) → b.full ≡ true → ringbuf_size b ≡ b.size
unfolding ringbuf_size
size-full b o = ground arith

contents-suc :
    (b : RingBuf) (m : ℕ)
    → ringbuf_size b ≡ suc m
    → contents b ≡ get_or b.buffer b.read 0 ∷ walk b.buffer b.size (bump b.read b.size) m
contents-suc b m e = ap (walk b.buffer b.size b.read) e

-- One byte written: it comes last, and a full ring loses its oldest.
push-crowd :
    {b : RingBuf} (x : ℕ) → IsValid b → contents (push b x) ≡ crowd b.size (contents b ++ x ∷ [])
unfolding crowd
push-crowd {b} x v = elim (Bool-cases b.full) [
  | inl o ↦
      let e : b.size ≡ suc (b.size - 1) = omega arith in
      let c = contents-suc b (b.size - 1) (size-full b o ∙ e) in
      let one : length (contents b ++ x ∷ []) - b.size ≡ 1 =
        omega (arith, length-append (contents b) (x ∷ []), length-contents b, size-full b o) in
      push-full x (b.size - 1) v o e ∙ sym (ap₂ (λ k l. drop k (l ++ x ∷ [])) one c)
  | inr o ↦
      push-open x v o
      ∙ sym (
          crowd-le b.size (contents b ++ x ∷ []) (
            omega
              (arith, length-append (contents b) (x ∷ []), length-contents b, (write-place v o).1)))
]

size-dec :
    {b : RingBuf} (m : ℕ) → IsValid b → ringbuf_size b ≡ suc m → ringbuf_size (ringbuf_dec b) ≡ m
unfolding ringbuf_size ringbuf_dec
size-dec m v e = ground arith

-- One byte read: it was the oldest.
contents-dec :
    {b : RingBuf} (m : ℕ)
    → IsValid b
    → ringbuf_size b ≡ suc m
    → contents b ≡ get_or b.buffer b.read 0 ∷ contents (ringbuf_dec b)
unfolding ringbuf_dec
contents-dec {b} m v e =
    contents-suc b m e
    ∙ sym (
        ap (λ k. get_or b.buffer b.read 0 ∷ walk b.buffer b.size (bump b.read b.size) k)
          (size-dec m v e))

crowd-append : (n : ℕ) (xs ys : List ℕ) → crowd n (crowd n xs ++ ys) ≡ crowd n (xs ++ ys)
unfolding crowd
crowd-append n xs ys =
    ap (drop (length (crowd n xs ++ ys) - n))
      (sym (drop-append (length xs - n) xs ys (omega arith)))
    ∙ drop-drop (length (crowd n xs ++ ys) - n) (length xs - n) (xs ++ ys)
    ∙ ap (λ k. drop k (xs ++ ys))
        (omega (
          arith,
          length-append (crowd n xs) ys,
          length-append xs ys,
          length-drop (length xs - n) xs,
        ))

pub write-IsValid : {b : RingBuf} (xs : List ℕ) → IsValid b → IsValid (ringbuf_write b xs)
unfolding ringbuf_write
write-IsValid [] v = v
write-IsValid {b} (x ∷ xs) v = write-IsValid {b = push b x} xs (push-IsValid x v)

pub size-write : (b : RingBuf) (xs : List ℕ) → (ringbuf_write b xs).size ≡ b.size
unfolding ringbuf_write
size-write b [] = refl
size-write b (x ∷ xs) = size-write (push b x) xs ∙ size-push b x

-- On a well-formed ring, `ringbuf_write` stores all the bytes behind those held, and where there is
-- no room for all it keeps the newest that it has room for.
pub write-crowd :
    {b : RingBuf} (xs : List ℕ)
    → IsValid b
    → contents (ringbuf_write b xs) ≡ crowd b.size (contents b ++ xs)
unfolding ringbuf_write
write-crowd {b} [] v = sym (
    crowd-le b.size (contents b ++ [])
      (omega (arith, length-append (contents b) [], length-contents b, size-le v))
    ∙ append-nil (contents b))
write-crowd {b} (x ∷ xs) v =
    write-crowd {b = push b x} xs (push-IsValid x v)
    ∙ ap₂ (λ n l. crowd n (l ++ xs)) (size-push b x) (push-crowd x v)
    ∙ crowd-append b.size (contents b ++ x ∷ []) xs
    ∙ ap (crowd b.size) (append_assoc (contents b) (x ∷ []) xs)

-- Where there is room, nothing is lost.
pub write-fits :
    {b : RingBuf} (xs : List ℕ)
    → IsValid b
    → ringbuf_size b + length xs ≤ b.size
    → contents (ringbuf_write b xs) ≡ contents b ++ xs
write-fits {b} xs v h =
    write-crowd xs v
    ∙ crowd-le b.size (contents b ++ xs)
        (omega (arith, length-append (contents b) xs, length-contents b))

-- On a well-formed ring, `ringbuf_read` of at most as many bytes as are stored takes the oldest, in
-- order, and leaves the others in a well-formed ring of the same size.
pub read-take :
    (n : ℕ) {b : RingBuf}
    → IsValid b
    → n ≤ ringbuf_size b
    → ((ringbuf_read b n).0 ≡ take n (contents b))
      × (contents (ringbuf_read b n).1 ≡ drop n (contents b))
      × IsValid (ringbuf_read b n).1
      × ((ringbuf_read b n).1.size ≡ b.size)
unfolding ringbuf_read
read-take zero v h = (refl, refl, v, refl)
read-take (suc n) {b} v h =
    let e : ringbuf_size b ≡ suc (ringbuf_size b - 1) = omega arith in
    let ih = read-take n (dec-IsValid v) (omega (arith, size-dec (ringbuf_size b - 1) v e)) in
    ground (arith, contents-dec (ringbuf_size b - 1) v e, ih, ringbuf_dec)
