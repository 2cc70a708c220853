-- ===== src/Heap.antt =====
-- The kernel heap of kernel/kern/heap.c: first fit over a list of blocks in address order.
pub mod Live
pub mod Free
use micro.Prelude.{
  ℕ, zero, suc, ◌+◌, ◌-◌, ◌*◌, ◌%◌, Bool, true, false, not, ◌&&◌, Option, none, some, List, [], ◌∷◌,
  ◌==◌, ltb, if◌then◌else◌, add_size, sub_size,
}

-- `struct block`. Blocks follow one another in memory: `next` and `prev` are the neighbours in the
-- list, and the address of a block is that of the heap and the extents of the blocks before it.
pub record Block : Type 0 where
  pub used : Bool
  pub size : ℕ

-- `sizeof(struct block)`
abbrev pub header : ℕ
header = 32

-- `combine`
pub combine : Block → Block → Block
combine b1 b2 = record b1 { size = add_size b1.size (add_size b2.size header) }

-- `split`, which leaves two blocks in the place of `b`
pub split : Block → ℕ → Block × Block
split b n =
    (record b { size = n }, record { used = false; size = sub_size (sub_size b.size n) header })

abbrev pub skip : Block → Option (ℕ × List Block) → Option (ℕ × List Block)
skip b none = none
skip b (some (p, bs)) = some (p, b ∷ bs)

-- The loop of `kmalloc` from the block at address `a`: the pointer it returns, and the heap.
pub alloc_loop : (n a : ℕ) → List Block → Option (ℕ × List Block)
unfolding split
alloc_loop n a [] = none
alloc_loop n a (b ∷ bs) =
    let rest = alloc_loop n (a + header + b.size) bs in
    if b.used
    then skip b rest
    else if ltb n b.size
    then (let (b', new) = split b n in some (a + header, record b' { used = true } ∷ new ∷ bs))
    else if b.size == n
    then some (a + header, record b { used = true } ∷ bs)
    else skip b rest

-- `if (n % 32 != 0) n += 32 - (n % 32)`
unfoldable pub round_up : ℕ → ℕ
round_up n = if n % 32 == 0 then n else add_size n (32 - n % 32)

-- What `kmalloc` does: it returns `NULL`, it returns a pointer, or it executes `ud2`.
pub data Alloc : Type 0 where
  null : Alloc
  block : ℕ → List Block → Alloc
  trap : Alloc

unfoldable pub kmalloc : (n start : ℕ) → List Block → Alloc
unfolding alloc_loop round_up
kmalloc n start bs =
    if n == 0
    then null
    else elim (alloc_loop (round_up n) start bs) [ none ↦ trap | some r ↦ block r.0 r.1 ]

-- `if (block->next && !block->next->used) combine(block, block->next)`
pub merge_next : Block → List Block → List Block
unfolding combine
merge_next b [] = b ∷ []
merge_next b (c ∷ cs) = if c.used then b ∷ c ∷ cs else combine b c ∷ cs

-- The block that a pointer names is found from the block at address `a`; a pointer that no block
-- has is undefined behaviour. `b` is the block before the rest of the list, which takes the freed
-- one in if it is free.
pub kfree_from : (p a : ℕ) → Block → List Block → Option (List Block)
unfolding combine merge_next
kfree_from p a b [] = none
kfree_from p a b (c ∷ cs) =
    let a' = a + header + b.size in
    let rest = kfree_from p a' c cs in
    if a' + header == p
    then (let freed = record c { used = false } in
        if b.used then some (b ∷ merge_next freed cs) else some (merge_next (combine b freed) cs))
    else elim rest [ none ↦ none | some bs ↦ some (b ∷ bs) ]

pub kfree : (p start : ℕ) → List Block → Option (List Block)
unfolding kfree_from merge_next
kfree p start [] = none
kfree p start (b ∷ bs) =
    if start + header == p
    then some (merge_next (record b { used = false }) bs)
    else kfree_from p start b bs

-- `heap_init`: one free block of 10000 pages.
abbrev pub heap_init : List Block
heap_init = record { used = false; size = 10000 * 4096 } ∷ []
