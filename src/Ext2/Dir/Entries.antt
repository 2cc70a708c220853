-- ===== src/Ext2/Dir/Entries.antt =====
-- The entries of a directory as bytes, `struct ext2_dirent` of kernel/dev/ext2/ext2.h.
use micro.Prelude.{
  ℕ, ◌+◌, ◌≡◌, sym, ap, ◌∙◌, ◌&&◌, List, [], ◌∷◌, ◌++◌, ◌==◌, length, length-append, append_assoc,
  get_or, drop, take, arith, drop-drop,
}
use micro.Bitmap.{Bytes}
use micro.Path.{Text, strcmp}
use micro.Ext2.Codec.{
  slice, encode, decode, decode-encode, IsRow, drop-length, take-length, total, length-encode,
}
use micro.Ext2.Dir.{dirent_widths, dirent, dirent_name, is_named}

-- An entry with the bytes that pad it.
pub record Entry : Type 0 where
  pub inum : ℕ
  pub kind : ℕ
  pub name : Text
  pub pad : Bytes

unfoldable pub entry_size : Entry → ℕ
entry_size e = 8 + length e.name + length e.pad

unfoldable pub members : Entry → List ℕ
members e = e.inum ∷ entry_size e ∷ length e.name ∷ e.kind ∷ []

unfoldable pub entry_bytes : Entry → Bytes
entry_bytes e = encode dirent_widths (members e) ++ (e.name ++ e.pad)

-- The members fit their widths.
unfoldable pub IsEntry : Entry → Type 0
IsEntry e = IsRow dirent_widths (members e)

unfoldable pub entries_bytes : List Entry → Bytes
entries_bytes [] = []
entries_bytes (e ∷ es) = entry_bytes e ++ entries_bytes es

unfoldable pub AreEntries : List Entry → Type 0
AreEntries [] = Unit
AreEntries (e ∷ es) = IsEntry e × AreEntries es

pub length-header : (e : Entry) → IsEntry e → length (encode dirent_widths (members e)) ≡ 8
unfolding IsEntry total
length-header e h = length-encode dirent_widths (members e) h

pub length-entry_bytes : (e : Entry) → IsEntry e → length (entry_bytes e) ≡ entry_size e
unfolding entry_bytes entry_size
length-entry_bytes e h =
    length-append (encode dirent_widths (members e)) (e.name ++ e.pad)
    ∙ omega (arith, length-append e.name e.pad, length-header e h)

-- An entry behind some bytes, and before others.
module _ (before : Bytes) (e : Entry) (after : Bytes) (ok : IsEntry e) where
  buffer : Bytes
  buffer = before ++ (entry_bytes e ++ after)

  pub dirent-entry :
      (k : ℕ)
      → dirent (before ++ (entry_bytes e ++ after)) (length before) k ≡ get_or (members e) k 0
  unfolding dirent entry_bytes IsEntry
  dirent-entry k =
      let head = encode dirent_widths (members e) in
      ap (λ b. get_or (decode dirent_widths b) k 0) (drop-length before (entry_bytes e ++ after))
      ∙ ap (λ b. get_or (decode dirent_widths b) k 0) (append_assoc head (e.name ++ e.pad) after)
      ∙ ap (λ vs. get_or vs k 0)
          (decode-encode dirent_widths (members e) ((e.name ++ e.pad) ++ after) ok)

  pub dirent_name-entry : dirent_name (before ++ (entry_bytes e ++ after)) (length before) ≡ e.name
  unfolding dirent_name slice entry_bytes members
  dirent_name-entry =
      let head = encode dirent_widths (members e) in
      let n = dirent-entry 2 in
      let b = before ++ (entry_bytes e ++ after) in
      let h = length-header e ok in
      let rest : drop (length before + 8) b ≡ e.name ++ (e.pad ++ after) =
        sym (drop-drop 8 (length before) b)
        ∙ ap (drop 8) (
            drop-length before (entry_bytes e ++ after) ∙ append_assoc head (e.name ++ e.pad) after)
        ∙ ap (λ k. drop k (head ++ ((e.name ++ e.pad) ++ after))) (sym h)
        ∙ drop-length head ((e.name ++ e.pad) ++ after)
        ∙ append_assoc e.name e.pad after in
      ap (λ k. take k (drop (length before + 8) b)) n
      ∙ ap (take (length e.name)) rest
      ∙ take-length e.name (e.pad ++ after)

  pub is_named-entry :
      (name : Text)
      → is_named name (before ++ (entry_bytes e ++ after)) (length before)
        ≡ ((length name == length e.name) && strcmp name e.name)
  unfolding is_named members
  is_named-entry name =
      ap
        (λ k.
          (length name == k)
          && strcmp name (dirent_name (before ++ (entry_bytes e ++ after)) (length before)))
        (dirent-entry 2)
      ∙ ap (λ t. (length name == length e.name) && strcmp name t) dirent_name-entry
