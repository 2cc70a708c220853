-- ===== src/Path/Canon.antt =====
-- The form of what `vfs_mkcanon` of kernel/kern/fs/vfs.c writes.
use micro.Prelude.{
  ℕ, ◌≡◌, refl, sym, ap, ◌∙◌, false, Option, none, some, List, [], ◌∷◌, ◌++◌, arith, ◌==◌,
  if◌then◌else◌, Bool-cases, inl, inr, append-nil, append_assoc,
}
use mathlib.Core.List.{foldl, foldl-append}
use micro.Path.{
  Text, slash, is_nil, has, strcmp, pop_back, canon_step, join, render, absolute, vfs_mkcanon,
}
use micro.Path.Words.{split, words, tokens-words}

abbrev pub dot : Text
dot = b'.' ∷ []

abbrev pub dot_dot : Text
dot_dot = b'.' ∷ b'.' ∷ []

-- A component of a path, as the token loop finds it.
pub record IsWord (t : Text) : Type 0 where
  pub filled : is_nil t ≡ false
  pub no_slash : has t slash ≡ false

-- A component of a canonical path.
pub record IsClean (t : Text) : Type 0 where
  pub filled : is_nil t ≡ false
  pub no_slash : has t slash ≡ false
  pub not_dot : strcmp t dot ≡ false
  pub not_dot_dot : strcmp t dot_dot ≡ false

abbrev pub All {ℓ κ} : {A : Type ℓ} → (A → Type κ) → List A → Type κ
All P [] = Unit
All P (x ∷ xs) = P x × All P xs

All-append {ℓ κ} :
    {A : Type ℓ} (P : A → Type κ) (xs ys : List A) → All P xs → All P ys → All P (xs ++ ys)
All-append P [] ys hx hy = hy
All-append P (x ∷ xs) ys hx hy = (hx.0, All-append P xs ys hx.1 hy)

All-pop_back {ℓ κ} : {A : Type ℓ} (P : A → Type κ) (xs : List A) → All P xs → All P (pop_back xs)
unfolding pop_back
All-pop_back P [] h = h
All-pop_back P (x ∷ []) h = h.1
All-pop_back P (x ∷ y ∷ l) h = (h.0, All-pop_back P (y ∷ l) h.1)

split_cons :
    (r : Text × List Text) (c : ℕ)
    → (has r.0 slash ≡ false) × All IsWord r.1
    → let r' : Text × List Text =
        if c == slash then ([], if is_nil r.0 then r.1 else r.0 ∷ r.1) else (c ∷ r.0, r.1) in
      (has r'.0 slash ≡ false) × All IsWord r'.1
split_cons ([], ws) c h = ground arith
split_cons (a ∷ w, ws) c h = ground arith

split-IsWord : (s : Text) → (has (split s).0 slash ≡ false) × All IsWord (split s).1
unfolding split
split-IsWord [] = (refl, tt)
split-IsWord (c ∷ s) = split_cons (split s) c (split-IsWord s)

words-IsWord : (s : Text) → All IsWord (words s)
unfolding words
words-IsWord s = words_of (split s) (split-IsWord s)
  where
    words_of :
        (r : Text × List Text)
        → (has r.0 slash ≡ false) × All IsWord r.1
        → All IsWord (if is_nil r.0 then r.1 else r.0 ∷ r.1)
    words_of ([], ws) h = h.1
    words_of (a ∷ w, ws) h = (record { filled = refl; no_slash = h.0 }, h.1)

canon_step-IsClean :
    (list : List Text) (t : Text) → IsWord t → All IsClean list → All IsClean (canon_step list t)
unfolding canon_step
canon_step-IsClean list t w h = elim (Bool-cases (strcmp t dot)) [
  | inl d ↦ rw (w.filled, d) h
  | inr d ↦ elim (Bool-cases (strcmp t dot_dot)) [
    | inl dd ↦ rw (w.filled, d, dd) (All-pop_back IsClean list h)
    | inr dd ↦
        rw (w.filled, d, dd)
          (All-append IsClean list (t ∷ []) h (
            record { filled = w.filled; no_slash = w.no_slash; not_dot = d; not_dot_dot = dd },
            tt,
          ))
  ]
]

canon-IsClean :
    (ts list : List Text)
    → All IsWord ts
    → All IsClean list
    → All IsClean (foldl canon_step list ts)
canon-IsClean [] list w h = h
canon-IsClean (t ∷ ts) list w h =
    canon-IsClean ts (canon_step list t) w.1 (canon_step-IsClean list t w.0 h)

-- A word in front of a text that is empty or goes on with a slash.
split-word : (t s : Text) → has t slash ≡ false → split (t ++ s) ≡ (t ++ (split s).0, (split s).1)
unfolding split
split-word [] s h = refl
split-word (c ∷ t) s h = ground (arith, split-word t s)

words-join : (list : List Text) → All IsClean list → words (join list) ≡ list
unfolding words join
words-join [] h = refl
words-join (t ∷ l) h =
    ground (arith, split-word t (join l) h.0.no_slash, words-join l h.1, append-nil t)

-- canonical components keep to themselves
canon_self : (ts list : List Text) → All IsClean ts → foldl canon_step list ts ≡ list ++ ts
unfolding canon_step
canon_self [] list h = sym (append-nil list)
canon_self (t ∷ ts) list h =
    rw (h.0.filled, h.0.not_dot, h.0.not_dot_dot)
      (canon_self ts (list ++ t ∷ []) h.1 ∙ append_assoc list (t ∷ []) ts)

words-render : (list : List Text) → All IsClean list → words (render list) ≡ list
unfolding render words
words-render [] h = refl
words-render (t ∷ l) h = words-join (t ∷ l) h

-- the components of what `vfs_mkcanon` yields
pub components : Text → Option Text → List Text
components path work = foldl canon_step [] (words (absolute path work))

mkcanon-render :
    (path : Text) (work : Option Text) → vfs_mkcanon path work ≡ render (components path work)
unfolding vfs_mkcanon components
mkcanon-render path work =
    ap (λ l. render (foldl canon_step [] l)) (tokens-words (absolute path work))

components-IsClean : (path : Text) (work : Option Text) → All IsClean (components path work)
unfolding components
components-IsClean path work = canon-IsClean _ [] (words-IsWord (absolute path work)) tt

-- The result of `vfs_mkcanon` is "/" or a slash before each component, and no component is empty,
-- holds a slash, or is "." or "..".
pub mkcanon_canonical :
    (path : Text) (work : Option Text)
    → (vfs_mkcanon path work ≡ render (words (vfs_mkcanon path work)))
      × All IsClean (words (vfs_mkcanon path work))
mkcanon_canonical path work =
    let list = components path work in
    let clean = components-IsClean path work in
    let e = words-render list clean in rw (mkcanon-render path work, e) (refl, clean)

absolute-render :
    (list : List Text) (work : Option Text) → absolute (render list) work ≡ render list
unfolding absolute render join
absolute-render list none = refl
absolute-render [] (some w) = refl
absolute-render (t ∷ l) (some w) = refl

-- A canonical path is its own canonical form, whatever the working directory.
pub mkcanon_idempotent :
    (path : Text) (work other : Option Text)
    → vfs_mkcanon (vfs_mkcanon path work) other ≡ vfs_mkcanon path work
mkcanon_idempotent path work other =
    let list = components path work in
    let clean = components-IsClean path work in
    rw (mkcanon-render path work) (
      mkcanon-render (render list) other
      ∙ ap render (
          unfold components in
          ap (λ p. foldl canon_step [] (words p)) (absolute-render list other)
          ∙ ap (foldl canon_step []) (words-render list clean)
          ∙ canon_self list [] clean))

split-slash : (w p : Text) → split (w ++ slash ∷ p) ≡ ((split w).0, (split w).1 ++ words p)
unfolding split words
split-slash [] p = refl
split-slash (c ∷ w) p = ground (arith, split-slash w p)

words-slash : (w p : Text) → words (w ++ slash ∷ p) ≡ words w ++ words p
unfolding words
words-slash w p = ground (arith, split-slash w p)

absolute_relative :
    (c : ℕ) (path work : Text)
    → (c == slash) ≡ false
    → absolute (c ∷ path) (some work) ≡ work ++ slash ∷ c ∷ path
unfolding absolute
absolute_relative c path work h = rw h

-- A relative path is resolved against the working directory: its components are applied, in order,
-- to the canonical components of the directory, which may itself be given in any spelling.
pub mkcanon_relative :
    (c : ℕ) (path work : Text)
    → (c == slash) ≡ false
    → (vfs_mkcanon (c ∷ path) (some work)
        ≡ render (foldl canon_step (words (vfs_mkcanon work none)) (words (c ∷ path))))
      × (vfs_mkcanon (c ∷ path) (some work) ≡ vfs_mkcanon (c ∷ path) (some (vfs_mkcanon work none)))
mkcanon_relative c path work h =
    (direct work base, direct work base ∙ sym (direct (vfs_mkcanon work none) again))
  where
    base : components work none ≡ words (vfs_mkcanon work none)
    base = rw (mkcanon-render work none) (sym (words-render _ (components-IsClean work none)))

    again : components (vfs_mkcanon work none) none ≡ words (vfs_mkcanon work none)
    again =
        sym (words-render _ (components-IsClean (vfs_mkcanon work none) none))
        ∙ ap words
            (sym (mkcanon-render (vfs_mkcanon work none) none) ∙ mkcanon_idempotent work none none)

    direct :
        (dir : Text)
        → components dir none ≡ words (vfs_mkcanon work none)
        → vfs_mkcanon (c ∷ path) (some dir)
          ≡ render (foldl canon_step (words (vfs_mkcanon work none)) (words (c ∷ path)))
    direct dir e =
        mkcanon-render (c ∷ path) (some dir)
        ∙ ap render (
            unfold components in
            ap (λ p. foldl canon_step [] (words p)) (absolute_relative c path dir h)
            ∙ ap (foldl canon_step []) (words-slash dir (c ∷ path))
            ∙ foldl-append canon_step [] (words dir) (words (c ∷ path))
            ∙ ap (λ l. foldl canon_step l (words (c ∷ path))) (unfold absolute in e))
