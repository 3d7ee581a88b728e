-- ===== src/Persistence/Cold/RoundTrip.antt =====
-- Reads of an archive that has just been written and loaded.
use native.Mathlib.Nat.{zero-add}
use rock_node.Base.{
  ltb, ◌&&◌, Bool-cases, ℕ, ◌+◌, ◌-◌, ◌*◌, ◌%◌, ◌^◌, ◌≤◌, ◌<◌, ◌≡◌, refl, ap, ◌∙◌, ◌⊎◌, inl, inr,
  false, List, Option, none, some, arith, ltb, leb, if◌then◌else◌, length, get_elem?, All,
  Option-cases, le→leb,
}
use rock_node.Base.Word.{add64-eq, sub64, sub64-eq}
use rock_node.Base.Assoc.{insert}
use rock_node.Base.Results.{ok}
use rock_node.Block.{Block, Codec}
use rock_node.Persistence.Cold.Names.{
  archive_name, parse_block_range, parse_block_range-archive_name,
}
use rock_node.Persistence.Cold.Files.{
  Zstd, Archive, Disk, open_archive, rename_archive, read_exact_at,
}
use rock_node.Persistence.Cold.Reader.{
  greater_key, MappedIndex, Indices, get_record, load_index_file, chunk_for, read_data, read_chunk,
  read_block,
}
use rock_node.Persistence.Cold.Laid.{Laid, WrittenAs, compressed}
use rock_node.Persistence.Cold.Chunks.{
  Apart, Apart-key, remove-Apart, greater_key-new, entry, other_name, is_below, chunk_for-All,
  open_archive-rename_archive, read_record-record_bytes,
}

module _ (z : Zstd) (c : Codec) (first last : ℕ) (bs : List Block) (a : Archive)
    (w : WrittenAs z c first 0 bs a) where
  long_enough :
      (i : ℕ)
      → first + i ≤ last
      → length bs ≡ last + 1 - first
      → ltb (length a.index) (20 * i + 20) ≡ false
  long_enough i le len = ground (arith, w.size)

  get_record-Laid :
      (i : ℕ) (b : Block)
      → last < 10 ^ 10
      → first + i ≤ last
      → length bs ≡ last + 1 - first
      → (l : Laid z c first 0 a i b)
      → get_record (entry first last a) (first + i)
        ≡ some (record { block_number = first + i; offset = l.at; len = length (compressed z c b) })
  unfolding get_record
  get_record-Laid i b small le len l =
      let off : sub64 (first + i) first * 20 % 2 ^ 64 ≡ 20 * i =
        rw (sub64-eq (first + i) first (omega arith) (omega arith)) (omega arith) in
      rw (off, get_record)
        (rw (add64-eq (20 * i) 20 (omega arith)) (
          rw
            (
              le→leb first (first + i) (omega arith),
              le→leb (first + i) last le,
              (long_enough i le len),
              l.indexed,
              read_record-record_bytes
                  (record {
                    block_number = first + i;
                    offset = 0 + l.at;
                    len = length (compressed z c b);
                  })
                  (omega arith) (omega (arith, l.low)) l.small,
            )
            (ap
              (λ o.
                some (record {
                  block_number = first + i;
                  offset = o;
                  len = length (compressed z c b);
                }))
              (zero-add l.at))))

  read_data-Laid :
      (n i : ℕ) (b : Block) (l : Laid z c first 0 a i b)
      → read_data z
          (record { block_number = n; offset = l.at; len = length (compressed z c b) })
          (some a)
        ≡ ok (some (c.encode b))
  unfolding read_data read_exact_at
  read_data-Laid n i b l =
      let size = length (compressed z c b) in
      let fits : ltb 0 size && ltb (length a.contents) (l.at + size) ≡ false =
        ground (arith, l.within) in
      rw (fits, read_data) (rw (l.placed, z.decode_all-encode_all (c.encode b)) refl)

pub get_record-past : (m : MappedIndex) (n : ℕ) → m.end_block < n → get_record m n ≡ none
unfolding get_record
get_record-past m n h = ground arith

read_chunk-same :
    (z : Zstd) (d e : Disk) (n k : ℕ) (m : MappedIndex)
    → open_archive m.data_path d ≡ open_archive m.data_path e
    → read_chunk z d n (some (k, m)) ≡ read_chunk z e n (some (k, m))
unfolding read_chunk
read_chunk-same z d e n k m h = elim (Option-cases (get_record m n)) [
  | inl f ↦ rw (f, read_chunk) refl
  | inr (r, f) ↦ rw (f, read_chunk) (ap (read_data z r) h)
]

-- The directory and the indices once archive `a` of the blocks from `first` to `last` is in place.
abbrev pub renamed : ℕ → ℕ → Archive → Disk → Disk
renamed first last a disk = rename_archive (archive_name first last) a disk

abbrev pub loaded : ℕ → ℕ → Archive → Indices → Indices
loaded first last a old = insert first (entry first last a) old

pub load_index_file-renamed :
    (first last : ℕ) (a : Archive) (disk : Disk) (old : Indices)
    → first ≤ last
    → last < 10 ^ 10
    → load_index_file (archive_name first last) (renamed first last a disk) old
      ≡ some (loaded first last a old)
unfolding load_index_file
load_index_file-renamed first last a disk old le small =
    rw (named first last le small, load_index_file)
      (rw (open_archive-rename_archive (archive_name first last) a disk) refl)
  where
    named :
        (first last : ℕ)
        → first ≤ last
        → last < 10 ^ 10
        → parse_block_range (archive_name first last) ≡ some (first, last)
    named first last le small = parse_block_range-archive_name first last ∙ ground arith

module _ (z : Zstd) (first last : ℕ) (a : Archive) (disk : Disk) (old : Indices)
    (apart : All (Apart first last) old) (le : first ≤ last) (small : last < 10 ^ 10) where
  new_chunk :
      (n : ℕ)
      → chunk_for n (loaded first last a old) ≡ (
          if leb first n
          then some (greater_key (first, entry first last a) (chunk_for n old))
          else chunk_for n old)
  unfolding chunk_for
  new_chunk n = rw (remove-Apart first last old le apart) refl

  open_archive-other :
      (n k : ℕ) (m : MappedIndex)
      → chunk_for n old ≡ some (k, m)
      → open_archive m.data_path (renamed first last a disk) ≡ open_archive m.data_path disk
  unfolding open_archive rename_archive
  open_archive-other n k m f =
      let (p, at) = chunk_for-All (Apart first last) n old (k, m) apart f in
      let (start, order, side, low, named) = p in
      rw
        (
          named,
          other_name k m.end_block first last (Apart-key first last k m le p) low (omega arith),
          open_archive,
        )
        refl

  -- The chunk that was found before is read as before.
  same_chunk :
      (n : ℕ) (o : Option (ℕ × MappedIndex))
      → chunk_for n old ≡ o
      → read_chunk z (renamed first last a disk) n o ≡ read_chunk z disk n o
  unfolding read_chunk
  same_chunk n none f = refl
  same_chunk n (some (k, m)) f = read_chunk-same z _ disk n k m (open_archive-other n k m f)

  -- Behind the new archive, its chunk has no record.
  past_chunk :
      (n : ℕ) (o : Option (ℕ × MappedIndex))
      → last < n
      → chunk_for n old ≡ o
      → read_chunk z
          (renamed first last a disk)
          n
          (some (greater_key (first, entry first last a) o))
        ≡ read_chunk z disk n o
  unfolding read_chunk
  past_chunk n none high f = rw (get_record-past (entry first last a) n high, read_chunk) refl
  past_chunk n (some (k, m)) high f = elim (Bool-cases (ltb first k)) [
    | inl later ↦ rw later (same_chunk n (some (k, m)) f)
    | inr earlier ↦
        let ((start, order, side, low, named), at) =
          chunk_for-All (Apart first last) n old (k, m) apart f in
        let past : m.end_block < n = ground (arith, side) in
        rw earlier (
          rw (get_record-past (entry first last a) n high, read_chunk)
            (rw (get_record-past m n past, read_chunk) refl))
  ]

  -- As long as the new archive is not loaded, every block is read as before.
  pub read_block-renamed :
      (n : ℕ) → read_block z (renamed first last a disk) old n ≡ read_block z disk old n
  unfolding read_block
  read_block-renamed n = same_chunk n (chunk_for n old) refl

  -- A block of the archive is read from it.
  pub read_block-new :
      (c : Codec) (bs : List Block) (i : ℕ) (b : Block)
      → WrittenAs z c first 0 bs a
      → length bs ≡ last + 1 - first
      → get_elem? bs i ≡ some b
      → first + i ≤ last
      → read_block z (renamed first last a disk) (loaded first last a old) (first + i)
        ≡ ok (some (c.encode b))
  unfolding read_block read_chunk
  read_block-new c bs i b w len e lei =
      let l = w.laid i b e in
      rw (new_chunk (first + i), read_block)
        (rw (le→leb first (first + i) (omega arith)) (
          rw (greater_key-new (first + i) first last (entry first last a) old lei apart) (
            rw (get_record-Laid z c first last bs a w i b small lei len l, read_chunk)
              (rw (open_archive-rename_archive (archive_name first last) a disk)
                (read_data-Laid z c first last bs a w (first + i) i b l)))))

  -- Another block is read as before.
  pub read_block-other :
      (n : ℕ)
      → (n < first) ⊎ (last < n)
      → read_block z (renamed first last a disk) (loaded first last a old) n
        ≡ read_block z disk old n
  unfolding read_block
  read_block-other n (inl low) =
      rw (new_chunk n, read_block) (rw (is_below n first low) (same_chunk n (chunk_for n old) refl))
  read_block-other n (inr high) =
      rw (new_chunk n, read_block)
        (rw (le→leb first n (omega arith)) (past_chunk n (chunk_for n old) high refl))
