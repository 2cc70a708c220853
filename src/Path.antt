-- ===== src/Path.antt =====
-- Strings and path names: the string routines of kernel/include/micro/stdlib.h and kernel/kern/stdlib.c
-- that the path code calls, and `vfs_mkcanon` of kernel/kern/fs/vfs.c. A C string is the list of the
-- bytes before its NUL.
pub mod Text
pub mod Words
pub mod Canon
use micro.Prelude.{
  ℕ, zero, suc, Bool, true, false, ◌&&◌, ◌||◌, Option, none, some, List, [], ◌∷◌, ◌++◌, ◌==◌,
  if◌then◌else◌, length, take, drop,
}
use mathlib.Core.List.{foldl}

abbrev pub Text : Type 0
Text = List ℕ

abbrev pub slash : ℕ
slash = b'/'

abbrev pub is_nil {ℓ} : {A : Type ℓ} → List A → Bool
is_nil [] = true
is_nil (_ ∷ _) = false

abbrev pub has : Text → ℕ → Bool
has [] c = false
has (d ∷ ds) c = (c == d) || has ds c

-- `strcmp(a, b) == 0`: equal lengths, and then no byte that differs.
unfoldable pub strcmp : Text → Text → Bool
strcmp [] [] = true
strcmp (a ∷ as') (b ∷ bs) = (a == b) && strcmp as' bs
strcmp _ _ = false

-- `strspn`: its inner loop looks at the first byte of `delim` alone.
unfoldable pub strspn : Text → Text → ℕ
strspn [] delim = 0
strspn (c ∷ s) [] = suc (strspn s [])
strspn (c ∷ s) (d ∷ ds) = if c == d then suc (strspn s (d ∷ ds)) else 0

-- `strcspn`
unfoldable pub strcspn : Text → Text → ℕ
strcspn [] delim = 0
strcspn (c ∷ s) delim = if has delim c then 0 else suc (strcspn s delim)

-- `strtok_r`: the token, and what `*saveptr` points to afterwards.
unfoldable pub strtok_r : Text → Text → Option Text × Text
strtok_r s delim =
    if is_nil s
    then (none, s)
    else (let t = drop (strspn s delim) s in
        let n = strcspn t delim in
        if is_nil t
        then (none, t)
        else if is_nil (drop n t)
        then (some t, [])
        else (some (take n t), drop (suc n) t))

-- The loop `token = strtok_r(s, "/", &saveptr); while (token) { … }`: the tokens that its body
-- sees. Every token takes at least one byte.
unfoldable pub token_loop : ℕ → Text → List Text
token_loop zero s = []
token_loop (suc fuel) s =
    let (token, rest) = strtok_r s (slash ∷ []) in
    elim token [ none ↦ [] | some t ↦ t ∷ token_loop fuel rest ]

unfoldable pub tokens : Text → List Text
tokens s = token_loop (suc (length s)) s

-- `list_pop_back`, whose result the caller drops
pub pop_back {ℓ} : {A : Type ℓ} → List A → List A
pop_back [] = []
pop_back (x ∷ []) = []
pop_back (x ∷ y ∷ l) = x ∷ pop_back (y ∷ l)

-- the body of the token loop of `vfs_mkcanon`
pub canon_step : List Text → Text → List Text
canon_step list token =
    if is_nil token || strcmp token (b'.' ∷ [])
    then list
    else if strcmp token (b'.' ∷ b'.' ∷ [])
    then pop_back list
    else list ++ token ∷ []

pub join : List Text → Text
join [] = []
join (t ∷ l) = slash ∷ t ++ join l

-- the writes to `out` behind the token loop
unfoldable pub render : List Text → Text
render list = if is_nil list then slash ∷ [] else join list

-- the text that `vfs_mkcanon` leaves in `tmp`
unfoldable pub absolute : Text → Option Text → Text
absolute path none = path
absolute [] (some work) = work ++ slash ∷ []
absolute (c ∷ path) (some work) = if c == slash then c ∷ path else work ++ slash ∷ c ∷ path

-- `vfs_mkcanon`: what it leaves in `out`. Its buffers of 256 bytes are taken to be long enough.
unfoldable pub vfs_mkcanon : Text → Option Text → Text
vfs_mkcanon path work = render (foldl canon_step [] (tokens (absolute path work)))
