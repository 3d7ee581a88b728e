-- ===== src/Persistence/Cold/Laid.antt =====
-- Where the writer puts each block of an archive.
use mathlib.Core.Path.{subst}
use rock_node.Base.{
  some_inj, ℕ, zero, suc, ◌+◌, ◌*◌, ◌%◌, ◌^◌, ◌≤◌, ◌<◌, ◌≡◌, refl, ◌∙◌, List, [], ◌∷◌, ◌++◌, some,
  arith, length, length-append, take, drop, get_elem?, take-append, drop-add, take_of_length,
  drop_of_length,
}
use rock_node.Base.Word.{add64-eq}
use rock_node.Base.BigEndian.{to_be, length-to_be}
use rock_node.Block.{Block, Bytes, Codec, get_block_number}
use rock_node.Persistence.Cold.Files.{Zstd, Archive, IndexRecord, record_bytes}
use rock_node.Persistence.Cold.Writer.{index_record, write_temp_files}

-- The blocks have the numbers from `n` on.
abbrev pub Run : ℕ → List Block → Type 0
Run n [] = Unit
Run n (b ∷ bs) = (get_block_number b ≡ some n) × Run (n + 1) bs

pub length-record_bytes : (r : IndexRecord) → length (record_bytes r) ≡ 20
unfolding record_bytes
length-record_bytes r = omega (
  arith,
  length-append {0} (to_be 8 r.block_number) (to_be 8 r.offset ++ to_be 4 r.len),
  length-append {0} (to_be 8 r.offset) (to_be 4 r.len),
  length-to_be 8 r.block_number,
  length-to_be 8 r.offset,
  length-to_be 4 r.len,
)

keeps_length : (len : ℕ) → len < 2 ^ 32 → len % 2 ^ 32 ≡ len
keeps_length len h = omega arith

record_bytes_cong :
    {n m o q : ℕ} (len : ℕ)
    → n ≡ m
    → o ≡ q
    → record_bytes (record { block_number = n; offset = o; len = len })
      ≡ record_bytes (record { block_number = m; offset = q; len = len })
record_bytes_cong len e f =
    λ i. record_bytes (record { block_number = e i; offset = f i; len = len })

module _ (z : Zstd) (c : Codec) where
  abbrev pub compressed : Block → Bytes
  compressed b = z.encode_all (c.encode b)

  -- The compressed blocks have lengths below 2^32, and end below 2^64.
  abbrev pub Fits : ℕ → List Block → Type 0
  Fits offset [] = offset < 2 ^ 64
  Fits offset (b ∷ bs) = (length (compressed b) < 2 ^ 32) × Fits (offset + length (compressed b)) bs

  Fits-bound : (offset : ℕ) (bs : List Block) → Fits offset bs → offset < 2 ^ 64
  Fits-bound offset [] h = h
  Fits-bound offset (b ∷ bs) h = omega (arith, Fits-bound (offset + length (compressed b)) bs h.1)

  -- Block `b` is the archive's block `i`, of those from number `n` on.
  pub record Laid (n offset : ℕ) (a : Archive) (i : ℕ) (b : Block) : Type 0 where
    pub at : ℕ
    pub indexed :
        take 20 (drop (20 * i) a.index)
        ≡ record_bytes
            (record { block_number = n + i; offset = offset + at; len = length (compressed b) })
    pub placed : take (length (compressed b)) (drop at a.contents) ≡ compressed b
    pub within : at + length (compressed b) ≤ length a.contents
    pub low : offset + at + length (compressed b) < 2 ^ 64
    pub small : length (compressed b) < 2 ^ 32

  pub record WrittenAs (n offset : ℕ) (bs : List Block) (a : Archive) : Type 0 where
    pub size : length a.index ≡ 20 * length bs
    pub laid : (i : ℕ) (b : Block) → get_elem? bs i ≡ some b → Laid n offset a i b

  -- One more block in front of an archive.
  module _ (n offset : ℕ) (b : Block) (rest : Archive)
      (small : length (compressed b) < 2 ^ 32) where
    abbrev head_record : IndexRecord
    head_record = record { block_number = n; offset = offset; len = length (compressed b) }

    abbrev extended : Archive
    extended = record {
      contents = compressed b ++ rest.contents;
      index = record_bytes head_record ++ rest.index;
    }

    take_record : take 20 (record_bytes head_record ++ rest.index) ≡ record_bytes head_record
    take_record =
        take_of_length 20 (record_bytes head_record) rest.index (length-record_bytes head_record)

    drop_record :
        (i : ℕ)
        → drop (20 * suc i) (record_bytes head_record ++ rest.index) ≡ drop (20 * i) rest.index
    drop_record i =
        drop_of_length 20 (20 * i) (20 * suc i) (record_bytes head_record) rest.index
          (length-record_bytes head_record) (omega arith)

    Laid-head : offset + length (compressed b) < 2 ^ 64 → Laid n offset extended 0 b
    Laid-head h = record {
      at = 0;
      indexed = take_record ∙ record_bytes_cong (length (compressed b)) (omega arith) (omega arith);
      placed = take-append (compressed b) rest.contents;
      within = omega (arith, length-append {0} (compressed b) rest.contents);
      low = omega arith;
      small = small;
    }

    Laid-tail :
        (i : ℕ) (x : Block)
        → Laid (n + 1) (offset + length (compressed b)) rest i x
        → Laid n offset extended (suc i) x
    Laid-tail i x t = record {
      at = length (compressed b) + t.at;
      indexed =
          rw (drop_record i)
            (t.indexed ∙ record_bytes_cong (length (compressed x)) (omega arith) (omega arith));
      placed = rw (drop-add t.at (compressed b) rest.contents) t.placed;
      within = omega (arith, t.within, length-append {0} (compressed b) rest.contents);
      low = omega (arith, t.low);
      small = t.small;
    }

    WrittenAs-cons :
        (bs : List Block)
        → offset + length (compressed b) < 2 ^ 64
        → WrittenAs (n + 1) (offset + length (compressed b)) bs rest
        → WrittenAs n offset (b ∷ bs) extended
    WrittenAs-cons bs h w = record {
      size = omega (
        arith,
        w.size,
        length-append {0} (record_bytes head_record) rest.index,
        length-record_bytes head_record,
      );
      laid = laid_at;
    }
      where
        laid_at : (i : ℕ) (x : Block) → get_elem? (b ∷ bs) i ≡ some x → Laid n offset extended i x
        laid_at zero x e = subst (Laid n offset extended 0) (some_inj e) (Laid-head h)
        laid_at (suc i) x e = Laid-tail i x (w.laid i x e)

  -- The writer's loop puts down each of the blocks, which have numbers from `n` on and fit.
  pub write_temp_files-WrittenAs :
      (n offset : ℕ) (bs : List Block)
      → Run n bs
      → Fits offset bs
      → (a : Archive) × (write_temp_files z c offset bs ≡ some a) × WrittenAs n offset bs a
  unfolding write_temp_files index_record
  write_temp_files-WrittenAs n offset [] r f = (
    record { contents = []; index = [] },
    refl,
    record { size = omega arith; laid = λ i b e. cc },
  )
  write_temp_files-WrittenAs n offset (b ∷ bs) r f =
      let len = length (compressed b) in
      let (rest, e, w) = write_temp_files-WrittenAs (n + 1) (offset + len) bs r.1 f.1 in
      let bound = Fits-bound (offset + len) bs f.1 in
      (
        extended n offset b rest f.0,
        rw (r.0, write_temp_files)
            (rw (keeps_length len f.0, add64-eq offset len (omega arith), e) refl),
        WrittenAs-cons n offset b rest f.0 bs bound w,
      )
