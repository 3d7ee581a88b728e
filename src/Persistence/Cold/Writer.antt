-- ===== src/Persistence/Cold/Writer.antt =====
-- `ColdWriter` (writer.rs).
use rock_node.Base.{ℕ, ◌%◌, ◌^◌, List, [], ◌∷◌, ◌++◌, Option, none, some, length}
use rock_node.Base.Word.{add64}
use rock_node.Block.{Block, Bytes, Codec, get_block_number}
use rock_node.Persistence.Cold.Names.{ArchiveName, archive_name}
use rock_node.Persistence.Cold.Files.{
  Zstd, Archive, Disk, IndexRecord, record_bytes, rename_archive,
}

-- One round of the loop of `write_temp_files`: what is written for block `n`.
unfoldable pub index_record : ℕ → ℕ → Bytes → IndexRecord
index_record n offset compressed = record {
  block_number = n;
  offset = offset;
  len = length compressed % 2 ^ 32;
}

unfoldable pub append_block : IndexRecord → Bytes → Option Archive → Option Archive
append_block r compressed none = none
append_block r compressed (some rest) =
    some (record { contents = compressed ++ rest.contents; index = record_bytes r ++ rest.index })

-- `write_temp_files`, from `current_offset`; `none` is the error for a malformed block.
unfoldable pub write_temp_files : Zstd → Codec → ℕ → List Block → Option Archive
unfolding append_block
write_temp_files z c offset [] = some (record { contents = []; index = [] })
write_temp_files z c offset (block ∷ blocks) = elim (get_block_number block) [
  | none ↦ none
  | some n ↦
      let compressed = z.encode_all (c.encode block) in
      let r = index_record n offset compressed in
      append_block r compressed (write_temp_files z c (add64 offset r.len) blocks)
]

unfoldable pub last_of : Block → List Block → Block
last_of b [] = b
last_of b (x ∷ xs) = last_of x xs

-- The name from the first block's number and the last one's.
unfoldable pub name_for : Option ℕ → Option ℕ → Option ArchiveName
name_for none last = none
name_for (some first) none = none
name_for (some first) (some last) = some (archive_name first last)

unfoldable pub finish_archive :
    Disk → Option ArchiveName → Option Archive → Option (ArchiveName × Disk)
finish_archive disk none archive = none
finish_archive disk (some name) none = none
finish_archive disk (some name) (some archive) = some (name, rename_archive name archive disk)

-- `write_archive`: the path of the index, and the directory; `none` is an error.
unfoldable pub write_archive : Zstd → Codec → List Block → Disk → Option (ArchiveName × Disk)
unfolding finish_archive name_for
write_archive z c [] disk = none
write_archive z c (block ∷ blocks) disk =
    finish_archive disk
      (name_for (get_block_number block) (get_block_number (last_of block blocks)))
      (write_temp_files z c 0 (block ∷ blocks))
