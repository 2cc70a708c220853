-- ===== src/Mmu/Pages/Runs.antt =====
-- The runs of pages that `mmu_kalloc` of kernel/arch/amd64/amd64/mmu.c finds and fills. Page `p` is word
-- `p % 512` of table `p / 512`.
use micro.Prelude.{
  ℕ, zero, suc, ◌+◌, ◌*◌, ◌/◌, ◌%◌, ◌≤◌, ◌<◌, ◌≡◌, refl, ap, subst, ◌∙◌, false, Bool-cases, inl,
  inr, leb, ◌==◌, arith,
}
use micro.Mmu.Words.{is_present}
use micro.Mmu.Pages.{KernelHeap, no_table, Scan, taken, going, scan_table, scan_dir, scan_new}

unfoldable pub word : KernelHeap → (p : ℕ) → ℕ
word k p = k.tbls (p / 512) (p % 512)

-- The `c` pages from `q` on are free.
unfoldable pub IsRun : KernelHeap → (q c : ℕ) → Type 0
IsRun k q c = (p : ℕ) → q ≤ p → p < q + c → is_present (word k p) ≡ false

-- What a search up to the page `limit` has.
unfoldable pub Holds : KernelHeap → (n limit : ℕ) → Scan → Type 0
Holds k n limit (taken c p t) = (c ≡ n) × IsRun k (512 * p + t) n × (t ≤ 512)
Holds k n limit (going c p t) =
    (512 * p + t + c ≡ limit) × IsRun k (512 * p + t) c × (c < n) × (t ≤ 512)

word_at : (k : KernelHeap) (i j p : ℕ) → j < 512 → p ≡ 512 * i + j → word k p ≡ k.tbls i j
unfolding word
word_at k i j p h e =
    let a : p / 512 ≡ i = omega arith in
    let b : p % 512 ≡ j = omega arith in ap (λ a. k.tbls a (p % 512)) a ∙ ap (k.tbls i) b

more-IsRun :
    (k : KernelHeap) (q c i j : ℕ)
    → j < 512
    → q + c ≡ 512 * i + j
    → IsRun k q c
    → is_present (k.tbls i j) ≡ false
    → IsRun k q (c + 1)
unfolding IsRun
more-IsRun k q c i j h e run free p l u = elim (Bool-cases (p == q + c)) [
  | inl a ↦
      let here : p ≡ 512 * i + j = ground arith in
      ap (λ w. is_present w) (word_at k i j p h here) ∙ free
  | inr a ↦ let before : p < q + c = ground arith in run p l before
]

pub no-IsRun : (k : KernelHeap) (q : ℕ) → IsRun k q 0
unfolding IsRun
no-IsRun k q p l u = let bad : ⊥ = omega arith in elim bad [ ]

scan_table-Holds :
    (k : KernelHeap) (n i left j c p t : ℕ)
    → 0 < n
    → j + left ≡ 512
    → Holds k n (512 * i + j) (going c p t)
    → Holds k n (512 * i + 512) (scan_table k n i left j c p t)
unfolding scan_table Holds
scan_table-Holds k n i zero j c p t pos e (a, run, small, w) = (omega arith, run, small, w)
scan_table-Holds k n i (suc left) j c p t pos e (a, run, small, w) =
    elim (Bool-cases (is_present (k.tbls i j))) [
      | inl used ↦ rw (used) (
          scan_table-Holds k n i left (suc j) 0 i (j + 1) pos (omega arith)
            (omega arith, no-IsRun k (512 * i + (j + 1)), pos, omega arith))
      | inr free ↦
          let run' = more-IsRun k (512 * p + t) c i j (omega arith) a run free in
          elim (Bool-cases (leb n (c + 1))) [
            | inl last ↦
                let n' : c + 1 ≡ n = ground arith in
                rw (free, last) (n', subst (IsRun k (512 * p + t)) n' run', w)
            | inr more ↦
                let small' : c + 1 < n = ground arith in
                rw (free, more)
                  (scan_table-Holds k n i left (suc j) (c + 1) p t pos (omega arith)
                    (omega arith, run', small', w))
          ]
    ]

pub scan_dir-Holds :
    (k : KernelHeap) (n left i : ℕ) (s : Scan)
    → 0 < n
    → Holds k n (512 * i) s
    → Holds k n (512 * (i + left)) (scan_dir k n left i s)
unfolding scan_dir Holds
scan_dir-Holds k n left i (taken c p t) pos h = h
scan_dir-Holds k n zero i (going c p t) pos (a, run, small, w) = (omega arith, run, small, w)
scan_dir-Holds k n (suc left) i (going c p t) pos (a, run, small, w) =
    let limit : 512 * (suc i + left) ≡ 512 * (i + suc left) = omega arith in
    let after : 512 * i + 512 ≡ 512 * suc i = omega arith in
    elim (Bool-cases (no_table (k.dir i))) [
      | inl skip ↦ rw (skip) (
          subst (λ l. Holds k n l (scan_dir k n left (suc i) (going 0 (i + 1) 0))) limit
            (scan_dir-Holds k n left (suc i) (going 0 (i + 1) 0) pos
              (omega arith, no-IsRun k (512 * (i + 1) + 0), pos, omega arith)))
      | inr there ↦
          let table = scan_table-Holds k n i 512 0 c p t pos refl (omega arith, run, small, w) in
          rw (there) (
            subst (λ l. Holds k n l (scan_dir k n left (suc i) (scan_table k n i 512 0 c p t)))
              limit
              (scan_dir-Holds k n left (suc i) (scan_table k n i 512 0 c p t) pos
                (subst (λ l. Holds k n l (scan_table k n i 512 0 c p t)) after table)))
    ]

-- A table that is not there has no pages.
unfoldable pub IsClean : KernelHeap → Type 0
IsClean k = (i j : ℕ) → is_present (k.dir i) ≡ false → j < 512 → is_present (k.tbls i j) ≡ false

unfoldable pub HoldsNew : KernelHeap → (n : ℕ) → Scan → Type 0
HoldsNew k n (taken c p t) = IsRun k (512 * p + t) n × (t ≡ 0)
HoldsNew k n (going c p t) = Unit

table-IsRun :
    (k : KernelHeap) (p c i : ℕ)
    → IsClean k
    → is_present (k.dir i) ≡ false
    → 512 * p + c ≡ 512 * i
    → IsRun k (512 * p) c
    → IsRun k (512 * p) (c + 512)
unfolding IsRun IsClean
table-IsRun k p c i clean gone e run x l u = elim (Bool-cases (leb (512 * i) x)) [
  | inl a ↦
      let here : (x ≡ 512 * i + x % 512) × (x % 512 < 512) = ground arith in
      ap (λ w. is_present w) (word_at k i (x % 512) x here.1 here.0) ∙ clean i (x % 512) gone here.1
  | inr a ↦ let before : x < 512 * p + c = ground arith in run x l before
]

pub scan_new-HoldsNew :
    (k : KernelHeap) (n left i c p : ℕ)
    → IsClean k
    → 512 * p + c ≡ 512 * i
    → IsRun k (512 * p) c
    → HoldsNew k n (scan_new k n left i c p)
unfolding scan_new HoldsNew IsRun
scan_new-HoldsNew k n zero i c p clean e run = record {}
scan_new-HoldsNew k n (suc left) i c p clean e run = elim (Bool-cases (is_present (k.dir i))) [
  | inl there ↦ rw (there) (
      scan_new-HoldsNew k n left (suc i) 0 (i + 1) clean (omega arith) (no-IsRun k (512 * (i + 1))))
  | inr gone ↦
      let run' = table-IsRun k p c i clean gone e run in
      elim (Bool-cases (leb n (c + 512))) [
        | inl last ↦ rw (gone, last) (shorter run' (ground arith), refl)
        | inr more ↦
            rw (gone, more)
              (scan_new-HoldsNew k n left (suc i) (c + 512) p clean (omega arith) run')
      ]
]
  where
    shorter : IsRun k (512 * p) (c + 512) → n ≤ c + 512 → IsRun k (512 * p + 0) n
    shorter run h x l u = run x (omega arith) (omega arith)
