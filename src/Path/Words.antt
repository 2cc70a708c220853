-- ===== src/Path/Words.antt =====
-- The token loops over `strtok_r` of kernel/kern/stdlib.c, against the words of a path.
use micro.Prelude.{
  ℕ, zero, suc, ◌≤◌, ◌<◌, ◌≡◌, refl, sym, ap, ◌∙◌, true, false, Option, none, some, List, [], ◌∷◌,
  ◌++◌, arith, ◌==◌, if◌then◌else◌, length, take, drop, Bool-cases, inl, inr, length-drop, drop-nil,
  take-append-drop, append-nil,
}
use mathlib.Core.Path.{ap₂}
use micro.Path.{Text, slash, is_nil, strspn, strcspn, strtok_r, token_loop, tokens}

-- The word that is being read, and those behind it.
unfoldable pub split : Text → Text × List Text
split [] = ([], [])
split (c ∷ s) =
    let (w, ws) = split s in
    if c == slash then ([], if is_nil w then ws else w ∷ ws) else (c ∷ w, ws)

unfoldable pub words : Text → List Text
unfolding split
words s = let (w, ws) = split s in if is_nil w then ws else w ∷ ws

pub words-slash : (s : Text) → words (slash ∷ s) ≡ words s
unfolding words
words-slash s = refl

words-skip : (s : Text) → words (drop (strspn s (slash ∷ [])) s) ≡ words s
unfolding strspn words
words-skip [] = refl
words-skip (c ∷ s) = ground (arith, words-skip s)

-- what stands behind the leading slashes does not start with one
skip-head :
    (s : Text) {c : ℕ} {t : Text} → drop (strspn s (slash ∷ [])) s ≡ c ∷ t → (c == slash) ≡ false
unfolding strspn
skip-head [] e = cc
skip-head (d ∷ s) {t = t} e = elim (Bool-cases (d == slash)) [
  | inl h ↦ skip-head s {t = t} (ground arith)
  | inr h ↦ ground arith
]

-- A text that does not start with a slash starts with its first word.
split-front :
    (s : Text)
    → split s ≡ (take (strcspn s (slash ∷ [])) s, words (drop (strcspn s (slash ∷ [])) s))
unfolding words strcspn
split-front [] = refl
split-front (c ∷ s) = ground (arith, split-front s)

-- Behind a word stands a slash, or nothing.
words-next :
    (t : Text)
    → words (drop (strcspn t (slash ∷ [])) t) ≡ words (drop (suc (strcspn t (slash ∷ []))) t)
unfolding words strcspn
words-next [] = refl
words-next (c ∷ t) = ground (arith, words-next t)

words-cons :
    (c : ℕ) (t : Text)
    → (c == slash) ≡ false
    → let n = strcspn (c ∷ t) (slash ∷ []) in
      words (c ∷ t) ≡ take n (c ∷ t) ∷ words (drop (suc n) (c ∷ t))
unfolding words strcspn
words-cons c t h = ground (arith, split-front t, words-next t)

strtok_r-nil : (s : Text) → drop (strspn s (slash ∷ [])) s ≡ [] → (strtok_r s (slash ∷ [])).0 ≡ none
unfolding strtok_r
strtok_r-nil [] e = refl
strtok_r-nil (d ∷ s) e = rw e

-- What `strtok_r` does with a text that starts with a word.
after_skip : Text → Option Text × Text
after_skip t =
    let n = strcspn t (slash ∷ []) in
    if is_nil t
    then (none, t)
    else if is_nil (drop n t)
    then (some t, [])
    else (some (take n t), drop (suc n) t)

strtok_r-skip :
    (s : Text) {c : ℕ} {t : Text}
    → drop (strspn s (slash ∷ [])) s ≡ c ∷ t
    → strtok_r s (slash ∷ []) ≡ after_skip (c ∷ t)
unfolding strtok_r after_skip
strtok_r-skip [] e = cc (drop-nil {A = ℕ} (strspn [] (slash ∷ [])))
strtok_r-skip (d ∷ s) e = rw e

nil_of_is_nil : (t : Text) → is_nil t ≡ true → t ≡ []
nil_of_is_nil [] h = refl
nil_of_is_nil (c ∷ t) h = cc

-- The token is the first word, and the words of the rest are the other words.
after_skip-words :
    (c : ℕ) (t : Text)
    → (c == slash) ≡ false
    → (word : Text) × ((after_skip (c ∷ t)).0 ≡ some word)
      × (words (c ∷ t) ≡ word ∷ words (after_skip (c ∷ t)).1)
      × (length (after_skip (c ∷ t)).1 ≤ length t)
unfolding after_skip
after_skip-words c t h = elim (Bool-cases (is_nil (drop n (c ∷ t)))) [
  | inl end ↦ (c ∷ t, rw end, rw end (last (nil_of_is_nil _ end)), rw end (omega arith))
  | inr more ↦ (
    take n (c ∷ t),
    rw more,
    rw more (words-cons c t h),
    rw more (omega (arith, length-drop n t)),
  )
]
  where
    n : ℕ
    n = strcspn (c ∷ t) (slash ∷ [])

    last : drop n (c ∷ t) ≡ [] → words (c ∷ t) ≡ (c ∷ t) ∷ words []
    last end =
        words-cons c t h
        ∙ ap₂ ◌∷◌
            (sym (append-nil (take n (c ∷ t)))
              ∙ ap (take n (c ∷ t) ++◌) (sym end)
              ∙ take-append-drop n (c ∷ t))
            (sym (words-next (c ∷ t)) ∙ ap words end)

token_loop-some :
    (fuel : ℕ) (s word rest : Text)
    → (strtok_r s (slash ∷ [])).0 ≡ some word
    → (strtok_r s (slash ∷ [])).1 ≡ rest
    → token_loop (suc fuel) s ≡ word ∷ token_loop fuel rest
unfolding token_loop
token_loop-some fuel s word rest p q = rw (p, token_loop) (ap (λ r. word ∷ token_loop fuel r) q)

pub token_loop-words : (fuel : ℕ) (s : Text) → length s < fuel → token_loop fuel s ≡ words s
unfolding token_loop
token_loop-words zero s h = elim h [ ]
token_loop-words (suc fuel) s h = go (token_loop-words fuel) (drop (strspn s (slash ∷ [])) s) refl
  where
    go :
        ((s' : Text) → length s' < fuel → token_loop fuel s' ≡ words s')
        → (t : Text) → drop (strspn s (slash ∷ [])) s ≡ t
        → token_loop (suc fuel) s ≡ words s
    go ih [] e = rw (strtok_r-nil s e, token_loop) (unfold words in ap words (sym e) ∙ words-skip s)
    go ih (c ∷ t) e =
        let (word, tok, ws, len) = after_skip-words c t (skip-head s e) in
        let rest = (after_skip (c ∷ t)).1 in
        let shorter : length rest < fuel =
          omega (arith, length-drop (strspn s (slash ∷ [])) s, ap length e) in
        let skip = strtok_r-skip s e in
        token_loop-some fuel s word rest (ap (λ r. r.0) skip ∙ tok) (ap (λ r. r.1) skip)
        ∙ (ap (λ l. word ∷ l) (ih rest shorter) ∙ sym ws ∙ ap words (sym e) ∙ words-skip s)

-- `strtok_r` with the separator "/" yields the words of the text, whatever slashes lead, follow or
-- are doubled.
pub tokens-words : (s : Text) → tokens s ≡ words s
unfolding tokens
tokens-words s = token_loop-words (suc (length s)) s (omega arith)
