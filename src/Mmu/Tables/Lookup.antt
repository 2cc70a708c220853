-- ===== src/Mmu/Tables/Lookup.antt =====
-- What `mmu_virt2phys` finds after `mmu_map`, kernel/arch/amd64/amd64/mmu.c.
use Prim.Native.Nat.{bit_or}
use micro.Prelude.{
  ℕ, ◌/◌, ◌%◌, ◌^◌, ◌<◌, ◌≡◌, ◌≢◌, refl, sym, ap, subst, ◌∙◌, true, false, ◌&&◌, some, ◌==◌,
  if◌then◌else◌, arith, Bool-cases, inl, inr, put, put2, put2_self, put2_ne,
}
use micro.Bitmap.{Bytes}
use micro.Mmu.Words.{frame, is_present, or_odd, or_flags}
use micro.Mmu.Frames.{alloc_phys}
use micro.Mmu.Tables.{
  Space, mktable, with_table, set_entry, mmu_map, virt2phys, table_entry, pml4_idx, pdpt_idx,
  pd_idx, pt_idx,
}

-- The entry of a slot.
entry : Space → ℕ → ℕ → ℕ → ℕ
entry map i j k = table_entry (is_present (map.pds i j)) (map.pts i j) k

-- A slot whose word is present has a table.
unfoldable pub IsTabled : Space → Type 0
IsTabled map = (i j : ℕ) → is_present (map.pds i j) ≡ true → (t : ℕ → ℕ) × (map.pts i j ≡ some t)

entry_none : (m : Space) (i j k : ℕ) → is_present (m.pds i j) ≡ false → entry m i j k ≡ 0
unfolding entry table_entry
entry_none m i j k h = rw (h) refl

entry-some :
    (m : Space) (i j k : ℕ) (t : ℕ → ℕ)
    → is_present (m.pds i j) ≡ true
    → m.pts i j ≡ some t
    → entry m i j k ≡ t k
unfolding entry table_entry
entry-some m i j k t h e = rw (h, e) refl

entry_eq :
    (m m' : Space) (i j k : ℕ)
    → m.pds i j ≡ m'.pds i j
    → m.pts i j ≡ m'.pts i j
    → entry m i j k ≡ entry m' i j k
unfolding entry
entry_eq m m' i j k e f = rw (e, f) refl

same_slot : (i j k l : ℕ) → ((i == k) && (j == l)) ≡ true → (i ≡ k) × (j ≡ l)
same_slot i j k l h = ground arith

made_present : (t : ℕ) → is_present (bit_or (bit_or (bit_or t 1) 2) 4) ≡ true
made_present t = ground (arith, or_odd (bit_or (bit_or t 1) 2) 4, or_odd (bit_or t 1) 2, or_odd t 1)

module _ (bmp : Bytes) (map : Space) (i j : ℕ) where
  mktable-pds : is_present ((mktable bmp map i j).1.pds i j) ≡ true
  unfolding mktable
  mktable-pds = ap is_present (put2_self map.pds i j _) ∙ made_present (alloc_phys bmp).0

  mktable-pts : (mktable bmp map i j).1.pts i j ≡ some (λ _. 0)
  unfolding mktable
  mktable-pts = put2_self map.pts i j (some (λ _. 0))

  mktable-pds_ne :
      (a b : ℕ) → ((i == a) && (j == b)) ≡ false → (mktable bmp map i j).1.pds a b ≡ map.pds a b
  unfolding mktable
  mktable-pds_ne a b e = put2_ne map.pds i j a b _ e

  mktable-pts_ne :
      (a b : ℕ) → ((i == a) && (j == b)) ≡ false → (mktable bmp map i j).1.pts a b ≡ map.pts a b
  unfolding mktable
  mktable-pts_ne a b e = put2_ne map.pts i j a b (some (λ _. 0)) e

  -- A table of zeros in a slot that had none changes no entry.
  mktable-entry :
      is_present (map.pds i j) ≡ false
      → (a b c : ℕ) → entry (mktable bmp map i j).1 a b c ≡ entry map a b c
  mktable-entry h a b c = elim (Bool-cases ((i == a) && (j == b))) [
    | inl e ↦
        let (p, q) = same_slot i j a b e in
        subst (λ z. entry (mktable bmp map i j).1 z b c ≡ entry map z b c) p
          (subst (λ z. entry (mktable bmp map i j).1 i z c ≡ entry map i z c) q
            (entry-some (mktable bmp map i j).1 i j c (λ _. 0) mktable-pds mktable-pts
              ∙ sym (entry_none map i j c h)))
    | inr e ↦ elsewhere a b c e
  ]
    where
      elsewhere :
          (a b c : ℕ)
          → ((i == a) && (j == b)) ≡ false
          → entry (mktable bmp map i j).1 a b c ≡ entry map a b c
      elsewhere a b c e =
          entry_eq (mktable bmp map i j).1 map a b c (mktable-pds_ne a b e) (mktable-pts_ne a b e)

  mktable-IsTabled : IsTabled map → IsTabled (mktable bmp map i j).1
  unfolding IsTabled
  mktable-IsTabled h a b p = elim (Bool-cases ((i == a) && (j == b))) [
    | inl e ↦
        let (x, y) = same_slot i j a b e in
        (
          λ _. 0,
          subst (λ z. (mktable bmp map i j).1.pts z b ≡ some (λ _. 0)) x
              (subst (λ z. (mktable bmp map i j).1.pts i z ≡ some (λ _. 0)) y mktable-pts),
        )
    | inr e ↦
        let (t, q) = h a b (ap is_present (sym (mktable-pds_ne a b e)) ∙ p) in
        (t, mktable-pts_ne a b e ∙ q)
  ]

module _ (bmp : Bytes) (map : Space) (i j : ℕ) (tabled : IsTabled map) where
  -- Whichever way the slot has a table then, and the entries are what they were.
  with_table-made :
      (is_present ((with_table bmp map i j).1.pds i j) ≡ true)
      × IsTabled (with_table bmp map i j).1
      × ((a b c : ℕ) → entry (with_table bmp map i j).1 a b c ≡ entry map a b c)
  unfolding with_table
  with_table-made = elim (Bool-cases (is_present (map.pds i j))) [
    | inl e ↦ rw (e) (e, tabled, λ a b c. refl)
    | inr e ↦
        rw (e) (
          mktable-pds bmp map i j,
          mktable-IsTabled bmp map i j tabled,
          mktable-entry bmp map i j e,
        )
  ]

-- The write of an entry, in a slot that has a table.
module _ (map : Space) (i j k word : ℕ) (t : ℕ → ℕ) (made : is_present (map.pds i j) ≡ true)
    (tabled : map.pts i j ≡ some t) where
  set_entry-pts :
      ((set_entry map i j k word).pts ≡ put2 map.pts i j (some (put t k word)))
      × ((set_entry map i j k word).pds ≡ map.pds)
  unfolding set_entry
  set_entry-pts = rw (tabled) (refl, refl)

  set_entry-here : (c : ℕ) → entry (set_entry map i j k word) i j c ≡ put t k word c
  set_entry-here c =
      let (e, f) = set_entry-pts in
      entry-some (set_entry map i j k word) i j c (put t k word)
        (ap (λ g. is_present (g i j)) f ∙ made)
        (ap (λ g. g i j) e ∙ put2_self map.pts i j (some (put t k word)))

  set_entry-ne :
      (a b c : ℕ)
      → ((i == a) && (j == b)) ≡ false
      → entry (set_entry map i j k word) a b c ≡ entry map a b c
  set_entry-ne a b c h =
      let (e, f) = set_entry-pts in
      entry_eq (set_entry map i j k word) map a b c (ap (λ g. g a b) f)
        (ap (λ g. g a b) e ∙ put2_ne map.pts i j a b (some (put t k word)) h)

  set_entry_self : entry (set_entry map i j k word) i j k ≡ word
  unfolding put
  set_entry_self =
      let e : (k == k) ≡ true = ground arith in
      set_entry-here k ∙ ap (λ b. if b then word else t k) e

  set_entry-others :
      (a b c : ℕ)
      → ((i == a) && (j == b) && (k == c)) ≡ false
      → entry (set_entry map i j k word) a b c ≡ entry map a b c
  unfolding put
  set_entry-others a b c h = elim (Bool-cases ((i == a) && (j == b))) [
    | inl e ↦
        let (p, q) = same_slot i j a b e in
        let n : (k == c) ≡ false = ground arith in
        subst (λ z. entry (set_entry map i j k word) z b c ≡ entry map z b c) p
          (subst (λ z. entry (set_entry map i j k word) i z c ≡ entry map i z c) q
            (set_entry-here c
              ∙ ap (λ b. if b then word else t c) n
              ∙ sym (entry-some map i j c t made tabled)))
    | inr e ↦ set_entry-ne a b c e
  ]

  set_entry-IsTabled : IsTabled map → IsTabled (set_entry map i j k word)
  unfolding IsTabled
  set_entry-IsTabled h a b p =
      let (e, f) = set_entry-pts in
      elim (Bool-cases ((i == a) && (j == b))) [
        | inl q ↦
            let (x, y) = same_slot i j a b q in
            (
              put t k word,
              ap (λ g. g a b) e
                  ∙ subst (λ z. put2 map.pts i j (some (put t k word)) z b ≡ some (put t k word)) x
                      (subst (λ z. put2 map.pts i j (some (put t k word)) i z ≡ some (put t k word))
                        y (put2_self map.pts i j (some (put t k word)))),
            )
        | inr q ↦
            let (u, r) = h a b (ap (λ g. is_present (g a b)) (sym f) ∙ p) in
            (u, ap (λ g. g a b) e ∙ put2_ne map.pts i j a b (some (put t k word)) q ∙ r)
      ]

same_page :
    (v w : ℕ)
    → v < 2 ^ 39
    → w < 2 ^ 39
    → v / 4096 ≢ w / 4096
    → ((pdpt_idx v == pdpt_idx w) && (pd_idx v == pd_idx w) && (pt_idx v == pt_idx w)) ≡ false
same_page v w a b h = ground arith

-- Addresses of one page have the same indices.
same_indices :
    (v w : ℕ)
    → v / 4096 ≡ w / 4096
    → (pdpt_idx v ≡ pdpt_idx w) × (pd_idx v ≡ pd_idx w) × (pt_idx v ≡ pt_idx w)
same_indices v w h = (omega arith, omega arith, omega arith)

-- A page maps to the frame of its entry.
virt2phys-entry :
    (map : Space) (v : ℕ)
    → v < 2 ^ 39
    → virt2phys map v ≡ frame (entry map (pdpt_idx v) (pd_idx v) (pt_idx v))
unfolding virt2phys entry
virt2phys-entry map v h = let e : (pml4_idx v == 0) ≡ true = ground arith in rw (e) refl

-- The address that the words of a page carry.
frame_word : (p f : ℕ) → p % 4096 ≡ 0 → f < 4096 → frame (bit_or (bit_or p f) 4) ≡ p
frame_word p f h k = ground (arith, or_flags (bit_or p f) 4, or_flags p f)

module _ (bmp : Bytes) (map : Space) (v p f : ℕ) (user : v < 2 ^ 39) (page : p % 4096 ≡ 0)
    (flags : f < 4096) (tabled : IsTabled map) where
  -- After `mmu_map` of a user address to an aligned page frame, with flags below 4096 and page tables where a slot
  -- whose word is present has a table, `mmu_virt2phys` finds the frame for every address of that
  -- page, and for every other user address what it found before; such a slot still has a
  -- table.
  pub mmu_map-virt2phys :
      (w : ℕ)
      → w < 2 ^ 39
      → IsTabled (mmu_map bmp map v p f).1
        × (virt2phys (mmu_map bmp map v p f).1 w
            ≡ (if v / 4096 == w / 4096 then p else virt2phys map w))
  unfolding mmu_map IsTabled
  mmu_map-virt2phys w lt =
      let (i, j, k) : ℕ × ℕ × ℕ = (pdpt_idx v, pd_idx v, pt_idx v) in
      let word = bit_or (bit_or p f) 4 in
      let m = (with_table bmp map i j).1 in
      let (made, t', same) = with_table-made bmp map i j tabled in
      let (t, e) = t' i j made in
      let m' = set_entry m i j k word in
      (
        set_entry-IsTabled m i j k word t made e t',
        elim (Bool-cases (v / 4096 == w / 4096)) [
          | inl q ↦
              let (a, b, c) = same_indices v w (ground arith) in
              rw (q) (
                virt2phys-entry m' w lt
                ∙ ap frame (
                    ap (λ n. entry m' n (pd_idx w) (pt_idx w)) (sym a)
                    ∙ ap (λ n. entry m' i n (pt_idx w)) (sym b)
                    ∙ ap (entry m' i j) (sym c)
                    ∙ set_entry_self m i j k word t made e)
                ∙ frame_word p f page flags)
          | inr q ↦ rw (q) (
              virt2phys-entry m' w lt
              ∙ ap frame (
                  set_entry-others m i j k word t made e (pdpt_idx w) (pd_idx w) (pt_idx w)
                    (same_page v w user lt (λ z. ground arith))
                  ∙ same (pdpt_idx w) (pd_idx w) (pt_idx w))
              ∙ sym (virt2phys-entry map w lt))
        ],
      )
