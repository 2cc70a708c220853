-- ===== src/Mmu/Pages/TakesRun.antt =====
-- What `mmu_kalloc` of kernel/arch/amd64/amd64/mmu.c takes.
use micro.Prelude.{
  ℕ, zero, suc, ◌+◌, ◌*◌, ◌/◌, ◌%◌, ◌≤◌, ◌<◌, ◌≡◌, ◌≢◌, refl, ap, subst, ◌∙◌, false, ◌&&◌,
  Bool-cases, ◌⊎◌, inl, inr, leb, ◌==◌, put2, put2_self, put2_ne, arith,
}
use micro.Mmu.Pages.{
  KernelHeap, heapbase, Scan, taken, going, scan_dir, scan_new, fill, new_table, fill_new, take_old,
  take_new, mmu_kalloc,
}
use micro.Mmu.Pages.Runs.{
  word, IsRun, Holds, HoldsNew, IsClean, no-IsRun, scan_dir-Holds, scan_new-HoldsNew,
}

-- The pages of a run are present, and all others as they were.
unfoldable pub Fills : (k k' : KernelHeap) (q c : ℕ) → Type 0
Fills k k' q c =
    ((p : ℕ) → q ≤ p → p < q + c → word k' p ≡ 1)
    × ((p : ℕ) → (p < q) ⊎ (q + c ≤ p) → word k' p ≡ word k p)

word_self :
    (k : KernelHeap) (i j p : ℕ)
    → j < 512
    → p ≡ 512 * i + j
    → word (record k { tbls = put2 k.tbls i j 1 }) p ≡ 1
unfolding word
word_self k i j p h e =
    let a : p / 512 ≡ i = omega arith in
    let b : p % 512 ≡ j = omega arith in
    ap (λ a. put2 k.tbls i j 1 a (p % 512)) a ∙ ap (put2 k.tbls i j 1 i) b ∙ put2_self k.tbls i j 1

word_ne :
    (k : KernelHeap) (i j p : ℕ)
    → j < 512
    → p ≢ 512 * i + j
    → word (record k { tbls = put2 k.tbls i j 1 }) p ≡ word k p
unfolding word
word_ne k i j p h ne =
    let away : ((i == p / 512) && (j == p % 512)) ≡ false = elim (Bool-cases (i == p / 512)) [
      | inl a ↦ elim (Bool-cases (j == p % 512)) [
        | inl b ↦ absurd (ne (ground arith))
        | inr b ↦ rw (a, b) refl
      ]
      | inr a ↦ rw (a) refl
    ] in
    put2_ne k.tbls i j (p / 512) (p % 512) 1 away

-- A page and the run behind it.
Fills-suc :
    (k k' : KernelHeap) (i j q c : ℕ)
    → j < 512
    → q ≡ 512 * i + j
    → Fills (record k { tbls = put2 k.tbls i j 1 }) k' (q + 1) c
    → Fills k k' q (suc c)
unfolding Fills
Fills-suc k k' i j q c h e (inside, outside) = (
  (λ p l u. elim (Bool-cases (p == q)) [
    | inl a ↦ outside p (inl (ground arith)) ∙ word_self k i j p h (ground arith)
    | inr a ↦ inside p (ground arith) (omega arith)
  ]),
  (λ p o. elim o [
    | inl a ↦ outside p (inl (omega arith)) ∙ word_ne k i j p h (λ z. omega arith)
    | inr a ↦ outside p (inr (omega arith)) ∙ word_ne k i j p h (λ z. omega arith)
  ]),
)

Fills-zero : (k : KernelHeap) (q : ℕ) → Fills k k q 0
unfolding Fills
Fills-zero k q = ((λ p l u. absurd (omega arith)), (λ p o. refl))

fill-Fills : (k : KernelHeap) (c p t : ℕ) → t ≤ 512 → Fills k (fill k c p t) (512 * p + t) c
unfolding fill
fill-Fills k zero p t h = Fills-zero k (512 * p + t)
fill-Fills k (suc c) p t h = elim (Bool-cases (leb 512 t)) [
  | inl over ↦
      let q : 512 * (p + 1) + 1 ≡ 512 * p + t + 1 = ground arith in
      let k' : KernelHeap = record k { tbls = put2 k.tbls (p + 1) 0 1 } in
      rw (over) (
        Fills-suc k (fill k' c (p + 1) 1) (p + 1) 0 (512 * p + t) c (omega arith) (omega arith) (
          subst (λ q. Fills k' (fill k' c (p + 1) 1) q c) q
            (fill-Fills k' c (p + 1) 1 (omega arith))))
  | inr within ↦
      let q : 512 * p + (t + 1) ≡ 512 * p + t + 1 = omega arith in
      let k' : KernelHeap = record k { tbls = put2 k.tbls p t 1 } in
      let l : t < 512 = ground arith in
      rw (within) (
        Fills-suc k (fill k' c p (t + 1)) p t (512 * p + t) c l refl (
          subst (λ q. Fills k' (fill k' c p (t + 1)) q c) q
            (fill-Fills k' c p (t + 1) (omega arith))))
]

-- The loop that makes tables sets the same pages.
fill_new-tbls :
    (table_at : ℕ → ℕ) (c p t : ℕ) (k k' : KernelHeap)
    → k.tbls ≡ k'.tbls
    → (fill_new table_at k c p t).tbls ≡ (fill k' c p t).tbls
unfolding fill fill_new new_table
fill_new-tbls table_at zero p t k k' e = e
fill_new-tbls table_at (suc c) p t k k' e = elim (Bool-cases (leb 512 t)) [
  | inl over ↦ rw (over) (fill_new-tbls table_at c (p + 1) 1 _ _ (ap (λ b. put2 b (p + 1) 0 1) e))
  | inr within ↦ rw (within) (fill_new-tbls table_at c p (t + 1) _ _ (ap (λ b. put2 b p t 1) e))
]

-- A run of free pages, by its first page, that is taken.
pub record TakesRun (k : KernelHeap) (n : ℕ) (r : ℕ × KernelHeap) : Type 0 where
  pub first : ℕ
  pub address : r.0 ≡ heapbase + 4096 * first
  pub were_free : IsRun k first n
  pub fills : Fills k r.1 first n

module _ (table_at : ℕ → ℕ) (k : KernelHeap) (n : ℕ) (clean : IsClean k) where
  fill_new-Fills :
      (p t : ℕ) → t ≡ 0 → Fills k (fill_new table_at (new_table table_at k p) n p t) (512 * p + t) n
  unfolding Fills word new_table
  fill_new-Fills p t z =
      let same = fill_new-tbls table_at n p t (new_table table_at k p) k refl in
      let (inside, outside) = fill-Fills k n p t (omega arith) in
      (
        (λ x l u. ap (λ b. b (x / 512) (x % 512)) same ∙ inside x l u),
        (λ x o. ap (λ b. b (x / 512) (x % 512)) same ∙ outside x o),
      )

  take_new-TakesRun :
      (s : Scan)
      → HoldsNew k n s
      → (take_new table_at k n s ≡ (0, k)) ⊎ TakesRun k n (take_new table_at k n s)
  unfolding take_new HoldsNew
  take_new-TakesRun (taken c p t) (run, z) = inr (record {
    first = 512 * p + t;
    address = omega arith;
    were_free = run;
    fills = fill_new-Fills p t z;
  })
  take_new-TakesRun (going c p t) h = inl refl

  take_old-TakesRun :
      (s : Scan)
      → Holds k n (512 * 512) s
      → (take_old table_at k n s ≡ (0, k)) ⊎ TakesRun k n (take_old table_at k n s)
  unfolding take_old Holds
  take_old-TakesRun (taken c p t) (e, run, w) = inr (record {
    first = 512 * p + t;
    address = omega arith;
    were_free = run;
    fills = subst (λ m. Fills k (fill k c p t) (512 * p + t) m) e (fill-Fills k c p t w);
  })
  take_old-TakesRun (going c p t) h =
      take_new-TakesRun (scan_new k n 512 0 0 0)
        (scan_new-HoldsNew k n 512 0 0 0 clean refl (no-IsRun k 0))

  -- When the tables that are not there have no present page, `mmu_kalloc` of at least one page fails with 0
  -- and changes nothing, or returns the address of the first of `n` pages in a row that were not present.
  -- These are present then, and no other page changes.
  pub mmu_kalloc-TakesRun :
      0 < n → (mmu_kalloc table_at k n ≡ (0, k)) ⊎ TakesRun k n (mmu_kalloc table_at k n)
  unfolding mmu_kalloc Holds
  mmu_kalloc-TakesRun pos =
      take_old-TakesRun (scan_dir k n 512 0 (going 0 0 0))
        (scan_dir-Holds k n 512 0 (going 0 0 0) pos (refl, no-IsRun k 0, pos, omega arith))
