-- ===== src/Pty/Slaves.antt =====
-- The names of `ptsfs` in kernel/kern/tty.c.
use micro.Prelude.{
  ℕ, suc, ◌+◌, ◌-◌, ◌^◌, ◌≤◌, ◌<◌, ◌≡◌, ◌≢◌, refl, sym, ap, ◌∙◌, true, false, some, List, [], ◌∷◌,
  ◌++◌, if◌then◌else◌, arith, ltb, lt→ltb, length, length-append, Bool-cases, inl, inr,
}
use micro.Stdlib.{itoa}
use micro.Stdlib.Digits.{itoa_injective, itoa_decimal}
use micro.Path.{strcmp}
use micro.Path.Text.{strcmp_iff}
use micro.Pty.{Slave, Ptys, ptsfs_lookup, text_of, pts_name, ptmx_open_new}

-- No terminal is open yet.
abbrev pub no_ptys : Ptys
no_ptys = record { pts = []; slaves = []; s_ptsname = 0 }

pts_name-itoa : (i : ℕ) → i < 2 ^ 31 → itoa false i 10 ≡ some (pts_name i)
unfolding pts_name
pts_name-itoa i h =
    let x : ltb i (2 ^ 31) ≡ true = lt→ltb i (2 ^ 31) h in
    let (t, e) = itoa_decimal false i in
    let y : pts_name i ≡ t =
      ap (λ b. text_of (if b then itoa false i 10 else itoa true (2 ^ 32 - i) 10)) x
      ∙ ap text_of e in
    e ∙ ap some (sym y)

pts_name_injective : (i j : ℕ) → i < 2 ^ 31 → j < 2 ^ 31 → pts_name i ≡ pts_name j → i ≡ j
pts_name_injective i j a b e =
    itoa_injective false i j (pts_name-itoa i a ∙ ap some e ∙ sym (pts_name-itoa j b))

-- One `open` of /dev/ptmx for each effective user of the list.
pub opens : (fill : ℕ) → List ℕ → Ptys → Ptys
unfolding ptmx_open_new
opens fill [] s = s
opens fill (euid ∷ euids) s = opens fill euids (ptmx_open_new fill euid s).1

-- The slaves have the numbers from `i` on for their names and their terminals.
Numbered : ℕ → List Slave → Type 0
Numbered i [] = Unit
Numbered i (d ∷ ds) = (d.name ≡ pts_name i) × (d.pt ≡ i) × Numbered (suc i) ds

Numbered-append :
    (i : ℕ) (ds : List Slave) (d : Slave)
    → Numbered i ds
    → d.name ≡ pts_name (i + length ds)
    → d.pt ≡ i + length ds
    → Numbered i (ds ++ d ∷ [])
unfolding Numbered
Numbered-append i [] d h n p = let z : i + 0 ≡ i = omega arith in (n ∙ ap pts_name z, p ∙ z, tt)
Numbered-append i (x ∷ ds) d (a, b, c) n p =
    let z : i + suc (length ds) ≡ suc i + length ds = omega arith in
    (a, b, Numbered-append (suc i) ds d c (n ∙ ap pts_name z) (p ∙ z))

record IsNumbered (s : Ptys) : Type 0 where
  numbered : Numbered 0 s.slaves
  named : s.s_ptsname ≡ length s.slaves
  made : length s.pts ≡ length s.slaves

open-IsNumbered :
    (fill euid : ℕ) (s : Ptys)
    → length s.slaves + 1 ≤ 2 ^ 31
    → IsNumbered s
    → IsNumbered (ptmx_open_new fill euid s).1
      × (length (ptmx_open_new fill euid s).1.slaves ≡ length s.slaves + 1)
unfolding ptmx_open_new
open-IsNumbered fill euid s h v =
    let d : Slave = record { name = pts_name s.s_ptsname; pt = length s.pts; uid = euid } in
    (
      record {
        numbered =
            Numbered-append 0 s.slaves d v.numbered (ap pts_name (omega (arith, v.named)))
              (omega (arith, v.made));
        named = omega (arith, v.named, length-append s.slaves (d ∷ []));
        made =
            length-append s.pts _ ∙ ap (λ x. x + 1) v.made ∙ sym (length-append s.slaves (d ∷ []));
      },
      length-append s.slaves (d ∷ []),
    )

opens-IsNumbered :
    (fill : ℕ) (euids : List ℕ) (s : Ptys)
    → length s.slaves + length euids ≤ 2 ^ 31
    → IsNumbered s
    → IsNumbered (opens fill euids s)
      × (length (opens fill euids s).slaves ≡ length s.slaves + length euids)
unfolding opens
opens-IsNumbered fill [] s h v = (v, omega arith)
opens-IsNumbered fill (e ∷ es) s h v =
    let (v', l) = open-IsNumbered fill e s (omega arith) v in
    let (w, l') = opens-IsNumbered fill es (ptmx_open_new fill e s).1 (omega (arith, l)) v' in
    (w, omega (arith, l, l'))

lookup-Numbered :
    (i j : ℕ) (ds : List Slave)
    → Numbered i ds
    → i ≤ j
    → j < 2 ^ 31
    → j < i + length ds
    → (d : Slave) × (ptsfs_lookup ds (pts_name j) ≡ some d) × (d.name ≡ pts_name j) × (d.pt ≡ j)
unfolding Numbered ptsfs_lookup
lookup-Numbered i j [] v a s b = absurd (omega arith)
lookup-Numbered i j (d ∷ ds) (n, p, r) a s b = elim (Bool-cases (strcmp (pts_name j) d.name)) [
  | inl e ↦
      let same : pts_name j ≡ d.name = (strcmp_iff (pts_name j) d.name).0 e in
      let k : j ≡ i = pts_name_injective j i (omega arith) (omega arith) (same ∙ n) in
      (d, rw (e) refl, sym same, p ∙ sym k)
  | inr e ↦
      let other : j ≢ i =
        λ k. let t = (strcmp_iff (pts_name j) d.name).1 (ap pts_name k ∙ sym n) in cc in
      let (d', f, n', p') = lookup-Numbered (suc i) j ds r (omega arith) s (omega arith) in
      (d', rw (e) f, n', p')
]

-- When at most 2^31 terminals have been opened, `ptsfs` finds under the number of each of them the
-- slave of that terminal, and not another's.
pub opened_found :
    (fill : ℕ) (euids : List ℕ) (j : ℕ)
    → length euids ≤ 2 ^ 31
    → j < length euids
    → (d : Slave) × (ptsfs_lookup (opens fill euids no_ptys).slaves (pts_name j) ≡ some d)
      × (d.name ≡ pts_name j)
      × (d.pt ≡ j)
unfolding Numbered
opened_found fill euids j h l =
    let (v, n) =
      opens-IsNumbered fill euids no_ptys (omega arith)
        (record { numbered = tt; named = refl; made = refl }) in
    lookup-Numbered 0 j (opens fill euids no_ptys).slaves v.numbered (omega arith) (omega arith)
      (omega (arith, n))
