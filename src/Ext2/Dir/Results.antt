-- ===== src/Ext2/Dir/Results.antt =====
-- What `ext2_lookup` and `ext2_unlink` of kernel/dev/ext2/ext2.c do with the entries of a directory.
use micro.Prelude.{
  ℕ, suc, ◌+◌, ◌<◌, ◌≡◌, ◌≢◌, refl, sym, ap, ◌∙◌, Bool, true, false, Option, none, some, List, [],
  ◌∷◌, ◌++◌, length, replicate, length-replicate, append-nil, arith, put_self, put_ne, drop, get_or,
}
use micro.Bitmap.{Bytes}
use micro.Path.{Text, strcmp}
use micro.Ext2.{Inode, Volume, read_inode, write_block}
use micro.Ext2.Map.{inode_blk}
use micro.Ext2.Codec.{splice, encode, le_bytes, drop-length}
use micro.Ext2.Codec.Splice.{splice_inside}
use micro.Ext2.Dir.{
  dirent_widths, dirent, dir_bytes, Found, found, missing, spins, find_entry, is_named, looked_up,
  ext2_lookup, zero_entry, unlinked, ext2_unlink,
}
use micro.Ext2.Dir.Entries.{
  Entry, entry_size, members, entry_bytes, IsEntry, length-entry_bytes, dirent-entry,
}
use micro.Ext2.Dir.Search.{
  first_named, Stands, Finds, all_entries, IsDirectory, find_entry-Finds, is_named-Tests,
}

-- What a look-up gives for an entry.
unfoldable pub inode_of : Volume → Option Entry → Option (ℕ × Inode)
inode_of vol none = none
inode_of vol (some e) = some (e.inum, read_inode vol e.inum)

pub dirent-Stands :
    (buf : Bytes) (offset : ℕ) (e : Entry) (s : Stands buf offset e) (k : ℕ)
    → dirent buf offset k ≡ get_or (members e) k 0
dirent-Stands buf offset e s k =
    ap (λ b. dirent b offset k) s.bytes
    ∙ ap (λ o. dirent (s.before ++ (entry_bytes e ++ s.after)) o k) (sym s.place)
    ∙ dirent-entry s.before e s.after s.entry k

looked_up-Finds :
    (vol : Volume) (ino : Inode) (n : ℕ) (f : Found) (o : Option Entry)
    → Finds (λ i. vol.disk (inode_blk vol ino i)) n f o
    → looked_up vol ino f ≡ inode_of vol o
unfolding Finds looked_up inode_of members
looked_up-Finds vol ino n (found blk offset) (some e) s =
    ap (λ n. some (n, read_inode vol n))
      (dirent-Stands (vol.disk (inode_blk vol ino blk)) offset e s 0)
looked_up-Finds vol ino n (missing blk) none s = refl
looked_up-Finds vol ino n (found blk offset) none s = elim s [ ]
looked_up-Finds vol ino n (missing blk) (some e) s = elim s [ ]
looked_up-Finds vol ino n spins none s = elim s [ ]
looked_up-Finds vol ino n spins (some e) s = elim s [ ]

-- What stays of an entry whose file is unlinked.
unfoldable pub blank : Entry → Entry
blank e = record { inum = 0; kind = 0; name = []; pad = replicate (length e.name + length e.pad) 0 }

zeroed :
    (k size : ℕ) (rest : Bytes)
    → splice
        (replicate (suc (suc (suc (suc (suc (suc (suc (suc k)))))))) 0)
        4
        (encode (2 ∷ []) (size ∷ []))
      ≡ encode dirent_widths (0 ∷ size ∷ 0 ∷ 0 ∷ []) ++ replicate k 0
unfolding splice encode le_bytes
zeroed k size rest = refl

entry_size-blank : (e : Entry) → entry_size (blank e) ≡ entry_size e
unfolding entry_size blank
entry_size-blank e = omega (arith, length-replicate {A = ℕ} (length e.name + length e.pad) 0)

all_over : (m b : Bytes) → length b ≡ length m → splice m 0 b ≡ b
unfolding splice
all_over m b l =
    ap (λ n. b ++ drop n m) (omega (arith, l))
    ∙ ap (λ n. b ++ drop (length m) n) (sym (append-nil m))
    ∙ ap (b ++◌) (drop-length m [])
    ∙ append-nil b

-- The zeros over an entry.
clear_entry :
    (before after : Bytes) (e : Entry)
    → IsEntry e
    → splice (before ++ (entry_bytes e ++ after)) (length before) (replicate (entry_size e) 0)
      ≡ before ++ (replicate (entry_size e) 0 ++ after)
clear_entry before after e ok =
    let z = entry_size e in
    let zeros : List ℕ = replicate z 0 in
    let l : length zeros ≡ length (entry_bytes e) =
      length-replicate {A = ℕ} z 0 ∙ sym (length-entry_bytes e ok) in
    let o : length before ≡ length before + 0 = omega arith in
    let over : splice (entry_bytes e) 0 zeros ≡ zeros = all_over (entry_bytes e) zeros l in
    ap (λ o. splice (before ++ (entry_bytes e ++ after)) o zeros) o
    ∙ splice_inside before (entry_bytes e) after zeros 0 (omega (arith, l))
    ∙ ap (λ b. before ++ (b ++ after)) over

eight :
    (e : Entry)
    → entry_size e ≡ suc (suc (suc (suc (suc (suc (suc (suc (length e.name + length e.pad))))))))
unfolding entry_size
eight e = omega arith

put_size :
    (before after : Bytes) (e : Entry)
    → splice
        (before ++ (replicate (entry_size e) 0 ++ after))
        (length before + 4)
        (encode (2 ∷ []) (entry_size e ∷ []))
      ≡ before ++ (entry_bytes (blank e) ++ after)
unfolding entry_bytes members encode le_bytes blank
put_size before after e =
    let z = entry_size e in
    let k = length e.name + length e.pad in
    let enc = encode (2 ∷ []) (z ∷ []) in
    let wide : z ≡ suc (suc (suc (suc (suc (suc (suc (suc k))))))) = eight e in
    splice_inside before (replicate z 0) after enc 4
      (omega (arith, length-replicate {A = ℕ} z 0, wide))
    ∙ ap (λ n. before ++ (splice (replicate n 0) 4 enc ++ after)) wide
    ∙ ap (λ b. before ++ (b ++ after))
        (zeroed k z []
          ∙ ap (λ n. encode dirent_widths (0 ∷ n ∷ 0 ∷ 0 ∷ []) ++ replicate k 0)
              (sym (entry_size-blank e)))

zero_entry-Stands :
    (buf : Bytes) (offset : ℕ) (e : Entry) (s : Stands buf offset e)
    → zero_entry buf offset ≡ s.before ++ (entry_bytes (blank e) ++ s.after)
unfolding zero_entry members
zero_entry-Stands buf offset e s =
    let z = dirent-Stands buf offset e s 1 in
    ap (λ n. splice (splice buf offset (replicate n 0)) (offset + 4) (encode (2 ∷ []) (n ∷ []))) z
    ∙ ap
        (λ b.
          splice (splice b offset (replicate (entry_size e) 0)) (offset + 4)
            (encode (2 ∷ []) (entry_size e ∷ [])))
        s.bytes
    ∙ ap
        (λ o.
          splice (splice (s.before ++ (entry_bytes e ++ s.after)) o (replicate (entry_size e) 0))
            (o + 4) (encode (2 ∷ []) (entry_size e ∷ [])))
        (sym s.place)
    ∙ ap (λ b. splice b (length s.before + 4) (encode (2 ∷ []) (entry_size e ∷ [])))
        (clear_entry s.before s.after e s.entry)
    ∙ put_size s.before s.after e

-- The volume after the entry of a file is blank: a block of the directory and no other differs, and only
-- in the bytes of the entry.
pub record Blanked (vol : Volume) (ino : Inode) (e : Entry) (vol' : Volume) : Type 0 where
  pub blk : ℕ
  pub before : Bytes
  pub after : Bytes
  pub was : vol.disk (inode_blk vol ino blk) ≡ before ++ (entry_bytes e ++ after)
  pub becomes : vol'.disk (inode_blk vol ino blk) ≡ before ++ (entry_bytes (blank e) ++ after)
  pub others : (b : ℕ) → inode_blk vol ino blk ≢ b → vol'.disk b ≡ vol.disk b

-- What an unlink promises for the entry that the name has.
unfoldable pub Unlinks : Volume → Inode → Option Entry → Bool × Volume → Type 0
Unlinks vol ino none r = r ≡ (false, vol)
Unlinks vol ino (some e) r = (r.0 ≡ true) × Blanked vol ino e r.1

unlinked-Finds :
    (vol : Volume) (ino : Inode) (n : ℕ) (f : Found) (o : Option Entry)
    → Finds (λ i. vol.disk (inode_blk vol ino i)) n f o
    → Unlinks vol ino o (unlinked vol ino f)
unfolding Finds unlinked Unlinks write_block
unlinked-Finds vol ino n (found blk offset) (some e) s =
    let num = inode_blk vol ino blk in
    let buf = zero_entry (vol.disk num) offset in
    (
      refl,
      record {
        blk = blk;
        before = s.before;
        after = s.after;
        was = s.bytes;
        becomes = put_self vol.disk num buf ∙ zero_entry-Stands (vol.disk num) offset e s;
        others = λ b ne. put_ne vol.disk num b buf ne;
      },
    )
unlinked-Finds vol ino n (missing blk) none s = refl
unlinked-Finds vol ino n (found blk offset) none s = elim s [ ]
unlinked-Finds vol ino n (missing blk) (some e) s = elim s [ ]
unlinked-Finds vol ino n spins none s = elim s [ ]
unlinked-Finds vol ino n spins (some e) s = elim s [ ]

module _ (vol : Volume) (num n : ℕ) (dir : ℕ → List Entry) (name : Text)
    (ok : IsDirectory vol (read_inode vol num) n dir) where
  -- In a directory whose `n` blocks are full of entries, and with more fuel than it has bytes, the search
  -- of `ext2_lookup` ends. It gives the inode of the first entry, in the order of the blocks, that has the
  -- name, and none when no entry has it.
  pub ext2_lookup-first_named :
      (fuel : ℕ)
      → dir_bytes (read_inode vol num) < fuel
      → ext2_lookup fuel vol num name ≡ inode_of vol (first_named name (all_entries dir 0 n))
  unfolding ext2_lookup first_named
  ext2_lookup-first_named fuel enough =
      looked_up-Finds vol (read_inode vol num) n
        (find_entry fuel vol (read_inode vol num) (is_named name) 0 0)
        (first_named name (all_entries dir 0 n))
        (find_entry-Finds vol (read_inode vol num) n dir (is_named name) (λ e. strcmp name e.name)
          (is_named-Tests name) ok fuel enough)

  -- In such a directory, `ext2_unlink` ends. When no entry has the name, it answers so and keeps the volume.
  -- Otherwise the first entry with the name becomes a blank one of the same size, with inode 0 and no name,
  -- and no other byte of the disk changes.
  pub ext2_unlink-Unlinks :
      (fuel : ℕ)
      → dir_bytes (read_inode vol num) < fuel
      → Unlinks vol
          (read_inode vol num)
          (first_named name (all_entries dir 0 n))
          (ext2_unlink fuel vol num name)
  unfolding ext2_unlink first_named
  ext2_unlink-Unlinks fuel enough =
      unlinked-Finds vol (read_inode vol num) n
        (find_entry fuel vol (read_inode vol num) (is_named name) 0 0)
        (first_named name (all_entries dir 0 n))
        (find_entry-Finds vol (read_inode vol num) n dir (is_named name) (λ e. strcmp name e.name)
          (is_named-Tests name) ok fuel enough)
