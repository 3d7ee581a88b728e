-- ===== src/Persistence/Archiver/Unloaded.antt =====
-- A batch whose last block has a number of more than ten digits: its archive is not loaded.
use rock_node.Base.{
  ℕ, ◌+◌, ◌^◌, ◌≤◌, ◌<◌, ◌≡◌, refl, ◌∙◌, List, ◌∷◌, none, some, arith, length, All,
}
use rock_node.Base.Word.{u64_max}
use rock_node.Base.Results.{ok}
use rock_node.Block.{Block, Codec}
use rock_node.Rocks.{Rocks}
use rock_node.Persistence.HotTier.{read_block_batch}
use rock_node.Persistence.Cold.Names.{
  archive_name, parse_block_range, parse_block_range-archive_name,
}
use rock_node.Persistence.Cold.Files.{Zstd, Archive, Disk}
use rock_node.Persistence.Cold.Writer.{name_for, finish_archive, write_archive, write_temp_files}
use rock_node.Persistence.Cold.Reader as Reader
use rock_node.Persistence.Cold.Reader.{Indices, chunk_for, load_index_file, read_chunk}
use rock_node.Persistence.Cold.Laid.{Run}
use rock_node.Persistence.Cold.Chunks.{Before, chunk_for-All}
use rock_node.Persistence.Cold.RoundTrip.{renamed, get_record-past}
use rock_node.Persistence.Archiver.{Node, store_archive, archive_batch, read_stored}
use rock_node.Persistence.Archiver.Stored.{number-last_of}
use rock_node.Persistence.Archiver.Moves.{commit-Moved, either_tier, read_stored-either_tier}
use rock_node.Persistence.Archiver.Steps.{moved, archive_steps-stored, archive_batch-steps}

not_loaded :
    (first last : ℕ) (disk : Disk) (old : Indices)
    → 10 ^ 10 ≤ last
    → load_index_file (archive_name first last) disk old ≡ none
unfolding load_index_file
not_loaded first last disk old long =
    let e : parse_block_range (archive_name first last) ≡ none =
      parse_block_range-archive_name first last ∙ ground arith in
    rw (e, load_index_file) refl

-- No older archive has the block.
read_block-past :
    (z : Zstd) (disk : Disk) (old : Indices) (first n : ℕ)
    → All (Before first) old
    → first ≤ n
    → Reader.read_block z disk old n ≡ ok none
unfolding Reader.read_block read_chunk
read_block-past z disk old first n before le = at (chunk_for n old) refl
  where
    at : (o : _) → chunk_for n old ≡ o → read_chunk z disk n o ≡ ok none
    at none f = refl
    at (some (k, m)) f =
        let ((s, l, below, named), le') = chunk_for-All (Before first) n old (k, m) before f in
        rw (get_record-past m n (omega arith), read_chunk) refl

module _ {R : Rocks} (z : Zstd) (c : Codec) (node : Node R) (e : ℕ) (b : Block) (bs : List Block)
    (a : Archive) (run : Run e (b ∷ bs)) (written : write_temp_files z c 0 (b ∷ bs) ≡ some a)
    (long : 10 ^ 10 ≤ e + length bs) where
  store_archive-long :
      store_archive z c (b ∷ bs) node.disk node.indices
      ≡ some (renamed e (e + length bs) a node.disk, node.indices)
  unfolding store_archive write_archive name_for finish_archive
  store_archive-long =
      rw (run.0, store_archive)
        (rw (number-last_of e b bs run) (
          rw (written) (
            rw
              (not_loaded e (e + length bs) (renamed e (e + length bs) a node.disk) node.indices
                long)
              refl)))

  -- A batch of consecutive blocks that the hot tier has is written to an archive, its last block has
  -- a number of 10^10 or more, and the older archives end before it: its blocks leave the hot tier,
  -- and a read of one of them finds nothing.
  pub read_stored-long :
      (n : ℕ)
      → read_block_batch c node.db e (length (b ∷ bs)) ≡ some (b ∷ bs)
      → e + length (b ∷ bs) ≤ u64_max
      → All (Before e) node.indices
      → e ≤ n
      → n < e + length (b ∷ bs)
      → (node' : Node R) × (archive_batch z c e (length (b ∷ bs)) node ≡ some node')
        × (read_stored z node' n ≡ ok none)
  read_stored-long n r bound before le lt =
      let disk = renamed e (e + length bs) a node.disk in
      let m = commit-Moved node.db e (length (b ∷ bs)) bound in
      let gone : R.get (moved node e (length (b ∷ bs)) disk node.indices).db.hot_blocks n ≡ none =
        m.hot n ∙ ground arith in
      (
        moved node e (length (b ∷ bs)) disk node.indices,
        archive_batch-steps z c node e (length (b ∷ bs)) disk node.indices (
            archive_steps-stored z c node e (length (b ∷ bs)) b bs disk node.indices r
              store_archive-long),
        read_stored-either_tier z (moved node e (length (b ∷ bs)) disk node.indices) n
            ∙ ((λ i. either_tier (gone i) (Reader.read_block z disk node.indices n))
                ∙ read_block-past z disk node.indices e n before le),
      )
