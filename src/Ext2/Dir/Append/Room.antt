-- ===== src/Ext2/Dir/Append/Room.antt =====
-- A new entry in the room behind another, `ext2_append_dirent` of kernel/dev/ext2/ext2.c.
use micro.Prelude.{
  ℕ, ◌+◌, ◌-◌, ◌%◌, ◌^◌, ◌≤◌, ◌<◌, ◌≡◌, refl, sym, ap, ◌∙◌, Bool, true, ◌&&◌, ltb, leb, [], ◌∷◌,
  ◌++◌, length, length-append, length-drop, length-take, drop-drop, take-append-drop, append_assoc,
  take, drop, arith,
}
use micro.Bitmap.{Bytes}
use micro.Ext2.Codec.{Fits, splice, encode, le_bytes, take-length, take_all}
use micro.Ext2.Codec.Splice.{drop_over, splice_inside}
use micro.Ext2.Dir.{dirent_widths, dirent}
use micro.Ext2.Dir.Entries.{
  Entry, entry_size, members, entry_bytes, IsEntry, length-header, dirent-entry,
}
use micro.Ext2.Dir.Append.{NewEntry, new_size, new_bytes, expected, put_entry}

-- The members of a new entry fit their widths.
unfoldable pub IsNewEntry : NewEntry → Type 0
IsNewEntry new = Fits 4 new.inum × Fits 1 (length new.name) × Fits 1 new.kind

-- What an entry keeps of its bytes, and what the new entry behind it takes.
unfoldable pub kept : Entry → ℕ
kept e = expected (length e.name) - (8 + length e.name)

unfoldable pub shrunk : Entry → Entry
shrunk e = record e { pad = take (kept e) e.pad }

unfoldable pub grown : Entry → NewEntry → Entry
grown e new = record {
  inum = new.inum;
  kind = new.kind;
  name = new.name;
  pad = drop (kept e + (8 + length new.name)) e.pad;
}

unfoldable pub room_in : NewEntry → Entry → Bool
room_in new e =
    let expect = expected (length e.name) in
    ltb expect (entry_size e) && leb (new_size new) (entry_size e - expect)

splice_behind : (f r b : Bytes) → splice (f ++ r) (length f) b ≡ f ++ (b ++ drop (length b) r)
unfolding splice
splice_behind f r b =
    ap (λ t. t ++ (b ++ drop (length f + length b) (f ++ r))) (take-length f r)
    ∙ ap (λ d. f ++ (b ++ d)) (drop_over f r (length b))

resized :
    (inum size len kind x : ℕ) (rest : Bytes)
    → splice
        (encode dirent_widths (inum ∷ size ∷ len ∷ kind ∷ []) ++ rest)
        4
        (encode (2 ∷ []) (x ∷ []))
      ≡ encode dirent_widths (inum ∷ x ∷ len ∷ kind ∷ []) ++ rest
unfolding splice encode le_bytes
resized inum size len kind x rest = refl

length-encode_size : (x : ℕ) → length (encode (2 ∷ []) (x ∷ [])) ≡ 2
unfolding encode le_bytes
length-encode_size x = refl

module _ (new : NewEntry) (e : Entry) (is : IsNewEntry new) (ok : IsEntry e)
    (room : room_in new e ≡ true) where
  header : Bytes
  header = encode dirent_widths (members e)

  -- The numbers of bytes.
  sizes :
      (new_size new ≡ 8 + length new.name)
      × (kept e + (8 + length new.name) ≤ length e.pad)
      × (expected (length e.name) ≡ 8 + length e.name + kept e)
  unfolding room_in new_size kept expected entry_size IsNewEntry Fits
  sizes =
      let short : length new.name < 256 = omega (arith, is.1) in
      let n : (8 + length new.name) % 2 ^ 16 ≡ 8 + length new.name = omega arith in
      let r : (8 + length new.name ≤ entry_size e - expected (length e.name))
          × (expected (length e.name) < entry_size e) =
        ground (arith, room, n) in
      (n, omega (arith, r.0, r.1), omega arith)

  room_sizes :
      (entry_size (shrunk e) ≡ expected (length e.name))
      × (entry_size (grown e new) ≡ entry_size e - expected (length e.name))
  unfolding entry_size shrunk grown
  room_sizes =
      let t = length-take (kept e) e.pad in
      let d = length-drop (kept e + (8 + length new.name)) e.pad in
      (omega (arith, sizes.1, sizes.2), omega (arith, sizes.1, sizes.2))

  -- The bytes of the new entry, with the size of the rest.
  new_bytes-all :
      new_bytes new (entry_size e - expected (length e.name))
      ≡ encode dirent_widths
          (new.inum ∷ (entry_size e - expected (length e.name)) ∷ length new.name ∷ new.kind ∷ [])
        ++ new.name
  unfolding new_bytes encode le_bytes
  new_bytes-all =
      take_all
        (encode dirent_widths
            (new.inum ∷ (entry_size e - expected (length e.name)) ∷ length new.name ∷ new.kind ∷ [])
          ++ new.name)
        (new_size new) (omega (arith, sizes.0))

  front : Bytes
  front = header ++ (e.name ++ take (kept e) e.pad)

  rest : Bytes
  rest = drop (kept e) e.pad

  entry_bytes-split : entry_bytes e ≡ front ++ rest
  unfolding entry_bytes front rest header
  entry_bytes-split =
      ap (λ b. header ++ (e.name ++ b)) (sym (take-append-drop (kept e) e.pad))
      ∙ ap (header ++◌) (sym (append_assoc e.name (take (kept e) e.pad) rest))
      ∙ sym (append_assoc header (e.name ++ take (kept e) e.pad) rest)

  length-front : length front ≡ expected (length e.name)
  unfolding front header
  length-front =
      length-append header (e.name ++ take (kept e) e.pad)
      ∙ omega (
        arith,
        length-append e.name (take (kept e) e.pad),
        length-header e ok,
        length-take (kept e) e.pad,
        sizes.1,
        sizes.2,
      )

  length-new_bytes :
      length (new_bytes new (entry_size e - expected (length e.name))) ≡ 8 + length new.name
  unfolding encode le_bytes
  length-new_bytes = ap length new_bytes-all ∙ omega arith

  length-rest : length rest ≡ length e.pad - kept e
  unfolding rest
  length-rest = length-drop (kept e) e.pad

  put_behind :
      (before after : Bytes)
      → splice
          (before ++ (entry_bytes e ++ after))
          (length before + expected (length e.name))
          (new_bytes new (entry_size e - expected (length e.name)))
        ≡ before
          ++ ((front
                ++ (new_bytes new (entry_size e - expected (length e.name))
                    ++ drop (8 + length new.name) rest))
              ++ after)
  put_behind before after =
      let x = expected (length e.name) in
      let nb = new_bytes new (entry_size e - x) in
      let whole : length (entry_bytes e) ≡ length front + length rest =
        ap length entry_bytes-split ∙ length-append front rest in
      splice_inside before (entry_bytes e) after nb x
        (omega (arith, length-new_bytes, length-front, whole, length-rest, sizes.1))
      ∙ ap (λ b. before ++ (b ++ after))
          (ap (λ b. splice b x nb) entry_bytes-split
            ∙ ap (λ n. splice (front ++ rest) n nb) (sym length-front)
            ∙ splice_behind front rest nb
            ∙ ap (λ n. front ++ (nb ++ drop n rest)) length-new_bytes)

  grown_bytes :
      new_bytes new (entry_size e - expected (length e.name)) ++ drop (8 + length new.name) rest
      ≡ entry_bytes (grown e new)
  unfolding entry_bytes members grown rest
  grown_bytes =
      let s = entry_size e - expected (length e.name) in
      let d = drop (8 + length new.name) (drop (kept e) e.pad) in
      let head : ℕ → Bytes =
        λ n. encode dirent_widths (new.inum ∷ n ∷ length new.name ∷ new.kind ∷ []) in
      ap (λ b. b ++ d) new_bytes-all
      ∙ append_assoc (head s) new.name d
      ∙ ap (λ b. head s ++ (new.name ++ b)) (drop-drop (8 + length new.name) (kept e) e.pad)
      ∙ ap (λ n. head n ++ (new.name ++ drop (kept e + (8 + length new.name)) e.pad))
          (sym room_sizes.1)

  shrunk_bytes :
      splice front 4 (encode (2 ∷ []) (expected (length e.name) ∷ [])) ≡ entry_bytes (shrunk e)
  unfolding entry_bytes members shrunk front header
  shrunk_bytes =
      resized e.inum (entry_size e) (length e.name) e.kind (expected (length e.name))
        (e.name ++ take (kept e) e.pad)
      ∙ ap
          (λ n.
            encode dirent_widths (e.inum ∷ n ∷ length e.name ∷ e.kind ∷ [])
            ++ (e.name ++ take (kept e) e.pad))
          (sym room_sizes.0)

  pub put_entry-entry :
      (before after : Bytes)
      → put_entry new (before ++ (entry_bytes e ++ after)) (length before)
        ≡ before ++ (entry_bytes (shrunk e) ++ (entry_bytes (grown e new) ++ after))
  unfolding put_entry members
  put_entry-entry before after =
      let buf = before ++ (entry_bytes e ++ after) in
      let o = length before in
      let size : ℕ → Bytes = λ x. encode (2 ∷ []) (x ∷ []) in
      let x = expected (length e.name) in
      let g = entry_bytes (grown e new) in
      ap
        (λ z.
          splice
            (splice buf (o + expected (dirent buf o 2))
              (new_bytes new (z - expected (dirent buf o 2))))
            (o + 4) (size (expected (dirent buf o 2))))
        (dirent-entry before e after ok 1)
      ∙ ap
          (λ l.
            splice (splice buf (o + expected l) (new_bytes new (entry_size e - expected l))) (o + 4)
              (size (expected l)))
          (dirent-entry before e after ok 2)
      ∙ ap (λ b. splice b (o + 4) (size x))
          (put_behind before after
            ∙ ap (λ b. before ++ ((front ++ b) ++ after)) grown_bytes
            ∙ ap (before ++◌) (append_assoc front g after))
      ∙ splice_inside before front (g ++ after) (size x) 4 (at_size)
      ∙ ap (λ b. before ++ (b ++ (g ++ after))) shrunk_bytes
    where
      at_size : 4 + length (encode (2 ∷ []) (expected (length e.name) ∷ [])) ≤ length front
      at_size = omega (arith, length-front, sizes.2, length-encode_size (expected (length e.name)))
