-- ===== src/Ext2/File/Blocks.antt =====
-- The loop of `ext2_write` of kernel/dev/ext2/ext2.c over the blocks of one file, by their place in it.
use micro.Prelude.{
  ℕ, zero, suc, ◌∷◌, ◌+◌, ◌-◌, ◌≤◌, ◌<◌, ◌≡◌, refl, ap, ◌∙◌, [], ◌++◌, ◌==◌, length, take, drop,
  arith, append-nil, length-drop, length-take, put, put_self, put_ne, true, false,
}
use micro.Bitmap.{Bytes}
use micro.Ext2.Codec.{slice, splice, take_all}
use micro.Ext2.File.{write_start, write_size, write_chunk}

drop_all : (xs : Bytes) (n : ℕ) → length xs ≤ n → drop n xs ≡ []
drop_all [] zero h = refl
drop_all [] (suc n) h = refl
drop_all (x ∷ xs) zero h = absurd (omega arith)
drop_all (x ∷ xs) (suc n) h = drop_all xs n (omega arith)

module _ (bs s m e d : ℕ) (buf : Bytes) where
  -- The blocks after one round.
  unfoldable pub write_round : (ℕ → Bytes) → (i ptroff : ℕ) → ℕ → Bytes
  write_round block i ptroff = put block i (write_chunk bs s m e d buf i ptroff (block i))

  -- The loop on the blocks by their places.
  unfoldable pub write_blocks : (ℕ → Bytes) → (i cnt ptroff : ℕ) → ℕ → Bytes
  write_blocks block i zero ptroff = block
  write_blocks block i (suc cnt) ptroff =
      write_blocks (write_round block i ptroff) (suc i) cnt (ptroff + write_size bs s m e d buf i)

  pub write_blocks_below :
      (block : ℕ → Bytes) (i cnt p j : ℕ) → j < i → write_blocks block i cnt p j ≡ block j
  unfolding write_blocks write_round
  write_blocks_below block i zero p j h = refl
  write_blocks_below block i (suc cnt) p j h =
      write_blocks_below (write_round block i p) (suc i) cnt (p + write_size bs s m e d buf i) j
        (omega arith)
      ∙ put_ne block i j (write_chunk bs s m e d buf i p (block i)) (λ q. omega arith)

  pub write_blocks_above :
      (block : ℕ → Bytes) (i cnt p j : ℕ) → i + cnt ≤ j → write_blocks block i cnt p j ≡ block j
  unfolding write_blocks write_round
  write_blocks_above block i zero p j h = refl
  write_blocks_above block i (suc cnt) p j h =
      write_blocks_above (write_round block i p) (suc i) cnt (p + write_size bs s m e d buf i) j
        (omega arith)
      ∙ put_ne block i j (write_chunk bs s m e d buf i p (block i)) (λ q. omega arith)

  -- The first block that the loop writes, and the contents of those after it.
  pub write_blocks_first :
      (block : ℕ → Bytes) (i cnt p : ℕ)
      → write_blocks block i (suc cnt) p i ≡ write_chunk bs s m e d buf i p (block i)
  unfolding write_blocks write_round
  write_blocks_first block i cnt p =
      write_blocks_below (write_round block i p) (suc i) cnt (p + write_size bs s m e d buf i) i
        (omega arith)
      ∙ put_self block i (write_chunk bs s m e d buf i p (block i))

  module _ (inside : d ≤ bs) where
    pub chunk_last :
        (i p : ℕ) (b : Bytes)
        → s < i
        → i ≡ e
        → length buf ≡ p + d
        → write_chunk bs s m e d buf i p b ≡ drop p buf ++ drop d b
    unfolding write_chunk write_size write_start splice slice
    chunk_last i p b l q n =
        let f : (i == s) ≡ false = ground arith in
        let g : (i == e) ≡ true = ground arith in
        let w : bs - (bs - d) ≡ d = omega arith in
        let len : length (drop p buf) ≡ d = omega (arith, length-drop p buf) in
        rw (f, g, w)
          (ap (λ xs. xs ++ drop (0 + length xs) b) (take_all (drop p buf) d len)
            ∙ ap (λ k. drop p buf ++ drop k b) (omega (arith, len)))

    pub chunk_whole :
        (i p : ℕ) (b : Bytes)
        → s < i
        → i < e
        → p + bs ≤ length buf
        → length b ≡ bs
        → (write_chunk bs s m e d buf i p b ≡ take bs (drop p buf))
          × (write_size bs s m e d buf i ≡ bs)
    unfolding write_chunk write_size write_start splice slice
    chunk_whole i p b l q n len =
        let f : (i == s) ≡ false = ground arith in
        let g : (i == e) ≡ false = ground arith in
        let k : length (take bs (drop p buf)) ≡ bs =
          omega (arith, length-drop p buf, length-take bs (drop p buf)) in
        rw (f, g)
          (
            ap (take bs (drop p buf) ++◌)
                  (drop_all b (0 + length (take bs (drop p buf))) (omega arith))
                ∙ append-nil (take bs (drop p buf)),
            refl,
          )

  pub chunk_only :
      (b : Bytes)
      → s ≡ e
      → m + length buf ≡ d
      → d ≤ bs
      → write_chunk bs s m e d buf s 0 b ≡ splice b m buf
  unfolding write_chunk write_size write_start slice
  chunk_only b q n l =
      let f : (s == s) ≡ true = ground arith in
      let g : (s == e) ≡ true = ground arith in
      let w : bs - m - (bs - d) ≡ length buf = omega arith in
      rw (f, g, w) (ap (splice b m) (take_all buf (length buf) refl))

  pub chunk_first :
      (b : Bytes)
      → s < e
      → bs ≤ m + length buf
      → m ≤ bs
      → length b ≡ bs
      → (write_chunk bs s m e d buf s 0 b ≡ take m b ++ take (bs - m) buf)
        × (write_size bs s m e d buf s ≡ bs - m)
  unfolding write_chunk write_size write_start splice slice
  chunk_first b q n l len =
      let f : (s == s) ≡ true = ground arith in
      let g : (s == e) ≡ false = ground arith in
      let xs = take (bs - m) buf in
      let k : length xs ≡ bs - m = omega (arith, length-take (bs - m) buf) in
      rw (f, g)
        (
          ap (λ ys. take m b ++ (xs ++ ys)) (drop_all b (m + length xs) (omega arith))
              ∙ ap (take m b ++◌) (append-nil xs),
          refl,
        )
