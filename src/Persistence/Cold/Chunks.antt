-- ===== src/Persistence/Cold/Chunks.antt =====
-- Names of archives and entries of the index: which archive a read goes to.
use mathlib.Core.Path.{subst}
use mathlib.Core.List.{append-nil}
use rock_node.Base.{
  ◌==◌, ◌≢◌, ◌⊎◌, some_inj, inl, some_inj, take_of_length, drop_of_length, ℕ, ◌^◌, ◌≤◌, ◌<◌, ◌≡◌,
  refl, sym, ap, ◌∙◌, inl, inr, true, false, List, [], ◌∷◌, ◌++◌, Option, none, some, arith, ltb,
  leb, length, take, All, Bool-cases, leb→le,
}
use rock_node.Base.Assoc.{remove}
use rock_node.Base.BigEndian.{to_be, from_be, length-to_be, from_be-to_be_4, from_be-to_be_8}
use rock_node.Persistence.Cold.Names.{ArchiveName, archive_name, padded, capture, capture-padded}
use rock_node.Persistence.Cold.Files.{
  Archive, Disk, IndexRecord, record_bytes, read_record, same_digits, same_name, open_archive,
  rename_archive,
}
use rock_node.Persistence.Cold.Reader.{MappedIndex, Indices, chunk_for, greater_key}

same_digits_refl : (ds : List ℕ) → same_digits ds ds ≡ true
unfolding same_digits
same_digits_refl [] = refl
same_digits_refl (d ∷ ds) = ground (arith, same_digits_refl ds)

same_digits→eq : (ds es : List ℕ) → same_digits ds es ≡ true → ds ≡ es
unfolding same_digits
same_digits→eq [] [] h = refl
same_digits→eq [] (e ∷ es) h = cc
same_digits→eq (d ∷ ds) [] h = cc
same_digits→eq (d ∷ ds) (e ∷ es) h = ground (arith, same_digits→eq ds es)

pub open_archive-rename_archive :
    (name : ArchiveName) (a : Archive) (disk : Disk)
    → open_archive name (rename_archive name a disk) ≡ some a
unfolding open_archive rename_archive same_name
open_archive-rename_archive name a disk =
    rw (same_digits_refl name.first, open_archive) (rw (same_digits_refl name.last) refl)

-- Archives with another first block have other names.
pub other_name :
    (k e first last : ℕ)
    → k ≢ first
    → k < 10 ^ 10
    → first < 10 ^ 10
    → same_name (archive_name first last) (archive_name k e) ≡ false
unfolding same_name archive_name
other_name k e first last apart low small =
    elim (Bool-cases (same_digits (padded first) (padded k))) [
      | inr differ ↦ rw differ
      | inl same ↦
          let read : some first ≡ some k =
            sym (capture-padded first small)
            ∙ (ap capture (same_digits→eq (padded first) (padded k) same) ∙ capture-padded k low) in
          absurd (apart (sym (some_inj read)))
    ]

take_whole {ℓ} : {A : Type ℓ} (k : ℕ) (xs : List A) → length xs ≡ k → take k xs ≡ xs
take_whole k xs h = subst (λ l. take k l ≡ xs) (append-nil xs) (take_of_length k xs [] h)

-- A record is read as it was written.
pub read_record-record_bytes :
    (r : IndexRecord)
    → r.block_number < 2 ^ 64
    → r.offset < 2 ^ 64
    → r.len < 2 ^ 32
    → read_record (record_bytes r) ≡ r
unfolding read_record record_bytes
read_record-record_bytes r n o l =
    let bs = to_be 8 r.block_number in
    let os = to_be 8 r.offset in
    let ls = to_be 4 r.len in
    let first = take_of_length 8 bs (os ++ ls) (length-to_be 8 r.block_number) in
    let second =
      ap (take 8) (drop_of_length 8 0 8 bs (os ++ ls) (length-to_be 8 r.block_number) (omega arith))
      ∙ take_of_length 8 os ls (length-to_be 8 r.offset) in
    let third =
      ap (take 4) (
        drop_of_length 8 8 16 bs (os ++ ls) (length-to_be 8 r.block_number) (omega arith)
        ∙ (drop_of_length 8 0 8 os ls (length-to_be 8 r.offset) (omega arith)))
      ∙ take_whole 4 ls (length-to_be 4 r.len) in
    λ i. record {
      block_number = (ap (from_be 0) first ∙ from_be-to_be_8 r.block_number n) i;
      offset = (ap (from_be 0) second ∙ from_be-to_be_8 r.offset o) i;
      len = (ap (from_be 0) third ∙ from_be-to_be_4 r.len l) i;
    }

pub is_below : (n first : ℕ) → n < first → leb first n ≡ false
is_below n first h = ground arith

-- The index entry of a loaded archive.
abbrev pub entry : ℕ → ℕ → Archive → MappedIndex
entry first last a = record {
  mmap = a.index;
  start_block = first;
  end_block = last;
  data_path = archive_name first last;
}

-- An entry of an archive that ends before block `first`.
abbrev pub Before : ℕ → ℕ × MappedIndex → Type 0
Before first (k, m) =
    (m.start_block ≡ k)
    × (k ≤ m.end_block)
    × (m.end_block < first)
    × (m.data_path ≡ archive_name k m.end_block)

pub remove-Before : (first : ℕ) (old : Indices) → All (Before first) old → remove first old ≡ old
remove-Before first [] h = refl
remove-Before first ((k, m) ∷ old) h = ground (arith, remove-Before first old h.1, h.0)

greater_key-either :
    (P : ℕ × MappedIndex → Type 0) (e : ℕ × MappedIndex) (o : Option (ℕ × MappedIndex))
    → P e
    → ((f : ℕ × MappedIndex) → o ≡ some f → P f)
    → P (greater_key e o)
greater_key-either P e none p h = p
greater_key-either P e (some f) p h = elim (Bool-cases (ltb e.0 f.0)) [
  | inl later ↦ rw later (h f refl)
  | inr first ↦ rw first p
]

-- The chunk found among entries has what they all have, and starts at the block or before it.
pub chunk_for-All :
    (P : ℕ × MappedIndex → Type 0) (n : ℕ) (old : Indices) (e : ℕ × MappedIndex)
    → All P old
    → chunk_for n old ≡ some e
    → P e × (e.0 ≤ n)
unfolding chunk_for
chunk_for-All P n [] e h f = cc
chunk_for-All P n ((k, m) ∷ old) e h f = elim (Bool-cases (leb k n)) [
  | inr later ↦ chunk_for-All P n old e h.1 (rw later at f)
  | inl here ↦
      let found : some (greater_key (k, m) (chunk_for n old)) ≡ some e = rw here at f in
      subst (λ x. P x × (x.0 ≤ n)) (some_inj found)
        (greater_key-either (λ x. P x × (x.0 ≤ n)) (k, m) (chunk_for n old) (h.0, leb→le k n here)
          (λ x g. chunk_for-All P n old x h.1 g))
]

-- An entry of an archive of other blocks than those from `first` to `last`.
abbrev pub Apart : ℕ → ℕ → ℕ × MappedIndex → Type 0
Apart first last (k, m) =
    (m.start_block ≡ k)
    × (k ≤ m.end_block)
    × ((m.end_block < first) ⊎ (last < k))
    × (k < 10 ^ 10)
    × (m.data_path ≡ archive_name k m.end_block)

pub Before-Apart :
    (first last : ℕ) (old : Indices)
    → first < 10 ^ 10
    → All (Before first) old
    → All (Apart first last) old
Before-Apart first last [] small h = tt
Before-Apart first last ((k, m) ∷ old) small h =
    let (start, le, below, named) = h.0 in
    ((start, le, inl below, omega arith, named), Before-Apart first last old small h.1)

pub Apart-key :
    (first last k : ℕ) (m : MappedIndex) → first ≤ last → Apart first last (k, m) → k ≢ first
Apart-key first last k m le (start, order, inl below, small, named) e = absurd (omega arith)
Apart-key first last k m le (start, order, inr above, small, named) e = absurd (omega arith)

pub remove-Apart :
    (first last : ℕ) (old : Indices)
    → first ≤ last
    → All (Apart first last) old
    → remove first old ≡ old
remove-Apart first last [] le h = refl
remove-Apart first last ((k, m) ∷ old) le h =
    let other = Apart-key first last k m le h.0 in
    let differ : k == first ≡ false = ground (arith, other) in
    rw differ (ap (λ l. (k, m) ∷ l) (remove-Apart first last old le h.1))

-- For a block of the new archive its chunk is found.
pub greater_key-new :
    (n first last : ℕ) (m : MappedIndex) (old : Indices)
    → n ≤ last
    → All (Apart first last) old
    → greater_key (first, m) (chunk_for n old) ≡ (first, m)
greater_key-new n first last m old le h = stays (chunk_for n old) refl
  where
    stays :
        (o : Option (ℕ × MappedIndex)) → chunk_for n old ≡ o → greater_key (first, m) o ≡ (first, m)
    stays none f = refl
    stays (some (k, c)) f =
        let ((start, order, side, small, named), at) =
          chunk_for-All (Apart first last) n old (k, c) h f in
        let no : ltb first k ≡ false = ground (arith, side) in rw no
