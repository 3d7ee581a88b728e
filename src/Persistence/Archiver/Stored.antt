-- ===== src/Persistence/Archiver/Stored.antt =====
-- An archive of consecutive blocks, written and loaded: what is read from cold storage afterwards.
use mathlib.Core.Path.{subst}
use native.Mathlib.Decide.{dec_lt}
use rock_node.Base.{
  ℕ, zero, suc, ◌+◌, ◌-◌, ◌^◌, ◌≤◌, ◌<◌, ◌≡◌, refl, sym, ap, ◌∙◌, ◌⊎◌, inl, inr, List, [], ◌∷◌,
  Option, none, some, arith, leb, if◌then◌else◌, length, get_elem?, All, le→leb,
}
use rock_node.Base.Results.{Fallible, ok}
use rock_node.Block.{Block, Bytes, Codec, get_block_number}
use rock_node.Persistence.Cold.Names.{archive_name}
use rock_node.Persistence.Cold.Files.{Zstd, Archive, Disk}
use rock_node.Persistence.Cold.Writer.{
  last_of, name_for, finish_archive, write_archive, write_temp_files,
}
use rock_node.Persistence.Cold.Reader.{Indices, read_block}
use rock_node.Persistence.Cold.Laid.{Run, Fits, WrittenAs, write_temp_files-WrittenAs}
use rock_node.Persistence.Cold.Chunks.{Apart, Before, remove-Before, is_below}
use rock_node.Persistence.Cold.RoundTrip.{
  renamed, loaded, load_index_file-renamed, read_block-new, read_block-other,
}
use rock_node.Persistence.Archiver.{store_archive}

pub number-last_of :
    (n : ℕ) (b : Block) (bs : List Block)
    → Run n (b ∷ bs)
    → get_block_number (last_of b bs) ≡ some (n + length bs)
unfolding last_of
number-last_of n b [] r = r.0 ∙ ap some (omega arith)
number-last_of n b (x ∷ bs) r = number-last_of (n + 1) x bs r.1 ∙ ap some (omega arith)

pub get_elem?-in {ℓ} :
    {A : Type ℓ} (xs : List A) (i : ℕ) → i < length xs → (x : A) × (get_elem? xs i ≡ some x)
get_elem?-in [] i h = absurd (omega arith)
get_elem?-in (x ∷ xs) zero h = (x, refl)
get_elem?-in (x ∷ xs) (suc i) h = get_elem?-in xs i (omega arith)

get_elem?-past {ℓ} : {A : Type ℓ} (xs : List A) (i : ℕ) → length xs ≤ i → get_elem? xs i ≡ none
get_elem?-past [] i h = refl
get_elem?-past (x ∷ xs) zero h = absurd (omega arith)
get_elem?-past (x ∷ xs) (suc i) h = get_elem?-past xs i (omega arith)

Before-later :
    (first later : ℕ) (old : Indices)
    → first ≤ later
    → All (Before first) old
    → All (Before later) old
Before-later first later [] l h = tt
Before-later first later ((k, m) ∷ old) l h =
    ((h.0.0, h.0.1, omega (arith, h.0.2), h.0.3), Before-later first later old l h.1)

pub Before-loaded :
    (first last : ℕ) (a : Archive) (old : Indices)
    → first ≤ last
    → All (Before first) old
    → All (Before (last + 1)) (loaded first last a old)
Before-loaded first last a old l h =
    rw (remove-Before first old h)
      ((refl, l, omega arith, refl), Before-later first (last + 1) old (omega arith) h)

-- What a read of block `n` gives after the blocks from `first` on were archived.
abbrev pub archived_read :
    Codec → ℕ → List Block → ℕ → Fallible (Option Bytes) → Fallible (Option Bytes)
archived_read c first blocks n before =
    if leb first n
    then elim (get_elem? blocks (n - first)) [ none ↦ before | some b ↦ ok (some (c.encode b)) ]
    else before

-- Blocks outside the archived ones are read as before.
pub archived_read-other :
    (c : Codec) (first : ℕ) (blocks : List Block) (n : ℕ) (o : Fallible (Option Bytes))
    → (n < first) ⊎ (first + length blocks ≤ n)
    → archived_read c first blocks n o ≡ o
archived_read-other c first blocks n o (inl low) = rw (is_below n first low) refl
archived_read-other c first blocks n o (inr high) =
    rw (le→leb first n (omega arith), get_elem?-past blocks (n - first) (omega arith)) refl

module _ (z : Zstd) (c : Codec) (first : ℕ) (b : Block) (bs : List Block) (disk : Disk)
    (old : Indices) (run : Run first (b ∷ bs)) (fits : Fits z c 0 (b ∷ bs))
    (short : first + length bs < 10 ^ 10) (apart : All (Apart first (first + length bs)) old) where
  write_archive-renamed :
      (a : Archive)
      → write_temp_files z c 0 (b ∷ bs) ≡ some a
      → write_archive z c (b ∷ bs) disk
        ≡ some (archive_name first (first + length bs), renamed first (first + length bs) a disk)
  unfolding write_archive name_for finish_archive
  write_archive-renamed a e =
      ap
        (λ o.
          finish_archive disk (name_for (get_block_number b) (get_block_number (last_of b bs))) o)
        e
      ∙ (λ i. finish_archive disk (name_for (run.0 i) (number-last_of first b bs run i)) (some a))

  store_archive-loaded :
      (a : Archive)
      → write_temp_files z c 0 (b ∷ bs) ≡ some a
      → store_archive z c (b ∷ bs) disk old
        ≡ some (renamed first (first + length bs) a disk, loaded first (first + length bs) a old)
  unfolding store_archive
  store_archive-loaded a e =
      rw (write_archive-renamed a e, store_archive)
        (rw (load_index_file-renamed first (first + length bs) a disk old (omega arith) short) refl)

  -- The archive is written and loaded.
  pub store_archive-WrittenAs :
      (a : Archive) × (store_archive z c (b ∷ bs) disk old
        ≡ some (renamed first (first + length bs) a disk, loaded first (first + length bs) a old))
      × WrittenAs z c first 0 (b ∷ bs) a
  store_archive-WrittenAs =
      let (a, e, w) = write_temp_files-WrittenAs z c first 0 (b ∷ bs) run fits in
      (a, store_archive-loaded a e, w)

  archived_read-new :
      (a : Archive) (n : ℕ)
      → WrittenAs z c first 0 (b ∷ bs) a
      → first ≤ n
      → n ≤ first + length bs
      → read_block z
          (renamed first (first + length bs) a disk)
          (loaded first (first + length bs) a old)
          n
        ≡ archived_read c first (b ∷ bs) n (read_block z disk old n)
  archived_read-new a n w l m =
      let (x, e) = get_elem?-in (b ∷ bs) (n - first) (omega arith) in
      let at : first + (n - first) ≡ n = omega arith in
      rw (le→leb first n l, e)
        (subst
          (λ m.
            read_block z (renamed first (first + length bs) a disk)
              (loaded first (first + length bs) a old) m
            ≡ ok (some (c.encode x)))
          at
          (read_block-new z first (first + length bs) a disk old apart (omega arith) short c
            (b ∷ bs) (n - first) x w (omega arith) e (omega arith)))

  pub archived_read-all :
      (a : Archive) (n : ℕ)
      → WrittenAs z c first 0 (b ∷ bs) a
      → read_block z
          (renamed first (first + length bs) a disk)
          (loaded first (first + length bs) a old)
          n
        ≡ archived_read c first (b ∷ bs) n (read_block z disk old n)
  archived_read-all a n w = elim (dec_lt n first) [
    | yes low ↦ elsewhere (inl low)
    | no from ↦ elim (dec_lt (first + length bs) n) [
      | yes high ↦ elsewhere (inr high)
      | no inside ↦ archived_read-new a n w (omega arith) (omega arith)
    ]
  ]
    where
      beyond : (n < first) ⊎ (first + length bs < n) → (n < first) ⊎ (first + suc (length bs) ≤ n)
      beyond (inl low) = inl low
      beyond (inr high) = inr (omega arith)

      elsewhere :
          (n < first) ⊎ (first + length bs < n)
          → read_block z
              (renamed first (first + length bs) a disk)
              (loaded first (first + length bs) a old)
              n
            ≡ archived_read c first (b ∷ bs) n (read_block z disk old n)
      elsewhere o =
          read_block-other z first (first + length bs) a disk old apart (omega arith) short n o
          ∙ sym (archived_read-other c first (b ∷ bs) n (read_block z disk old n) (beyond o))

  -- Consecutive blocks from `first` on are archived: each of them is read from the archive as it was
  -- encoded, and every other block as before. The numbers have at most ten digits, the blocks fit
  -- into an archive, and the older archives hold none of them.
  pub read_block-store_archive :
      (n : ℕ)
      → (disk' : Disk) × (indices : Indices) × (store_archive z c (b ∷ bs) disk old
          ≡ some (disk', indices))
        × (read_block z disk' indices n
            ≡ archived_read c first (b ∷ bs) n (read_block z disk old n))
  read_block-store_archive n =
      let (a, e, w) = store_archive-WrittenAs in
      (
        renamed first (first + length bs) a disk,
        loaded first (first + length bs) a old,
        e,
        archived_read-all a n w,
      )
