-- ===== src/Persistence/Cold/Reader.antt =====
-- `ColdReader` (reader.rs): the indices in memory, and reads through them.
use rock_node.Base.{
  ℕ, ◌*◌, ◌%◌, ◌^◌, ◌&&◌, List, [], ◌∷◌, Option, none, some, ltb, leb, if◌then◌else◌, length, take,
  drop,
}
use rock_node.Base.Word.{add64, sub64}
use rock_node.Base.Assoc.{insert}
use rock_node.Base.Results.{Fallible, err, ok}
use rock_node.Block.{Bytes}
use rock_node.Persistence.Cold.Names.{ArchiveName, parse_block_range}
use rock_node.Persistence.Cold.Files.{
  Zstd, Archive, Disk, IndexRecord, record_size, read_record, open_archive, read_exact_at,
}

-- `MappedIndex`: the index file's bytes, and the name under which the data file is opened.
pub record MappedIndex : Type 0 where
  pub mmap : Bytes
  pub start_block : ℕ
  pub end_block : ℕ
  pub data_path : ArchiveName

-- `indices`, by the first block of the archive.
abbrev pub Indices : Type 0
Indices = List (ℕ × MappedIndex)

-- `MappedIndex::get_record`
unfoldable pub get_record : MappedIndex → ℕ → Option IndexRecord
get_record m n =
    let offset = sub64 n m.start_block * record_size % 2 ^ 64 in
    if leb m.start_block n && leb n m.end_block
    then (if ltb (length m.mmap) (add64 offset record_size)
        then none
        else some (read_record (take record_size (drop offset m.mmap))))
    else none

-- `load_index_file`; `none` is the error for a name that does not parse or a missing file.
unfoldable pub load_index_file : ArchiveName → Disk → Indices → Option Indices
load_index_file name disk indices = elim (parse_block_range name) [
  | none ↦ none
  | some (start, end) ↦ elim (open_archive name disk) [
    | none ↦ none
    | some archive ↦ some (
        insert start
          (record { mmap = archive.index; start_block = start; end_block = end; data_path = name })
          indices)
  ]
]

-- The caller of `load_index_file` logs its error and goes on.
abbrev pub or_keep : Indices → Option Indices → Indices
or_keep old none = old
or_keep old (some new) = new

-- `scan_and_build_index`, for the index files of the directory as they are listed.
unfoldable pub scan_and_build_index : List ArchiveName → Disk → Indices → Indices
scan_and_build_index [] disk indices = indices
scan_and_build_index (name ∷ names) disk indices =
    scan_and_build_index names disk (or_keep indices (load_index_file name disk indices))

-- `get_earliest_indexed_block`: the least key.
unfoldable pub get_earliest_indexed_block : Indices → Option ℕ
get_earliest_indexed_block [] = none
get_earliest_indexed_block ((k, m) ∷ rest) = elim (get_earliest_indexed_block rest) [
  | none ↦ some k
  | some j ↦ if ltb k j then some k else some j
]

abbrev pub greater_key : ℕ × MappedIndex → Option (ℕ × MappedIndex) → ℕ × MappedIndex
greater_key e none = e
greater_key e (some f) = if ltb e.0 f.0 then f else e

-- The chunk with the greatest start at or before the block.
unfoldable pub chunk_for : ℕ → Indices → Option (ℕ × MappedIndex)
chunk_for n [] = none
chunk_for n ((k, m) ∷ rest) =
    let later = chunk_for n rest in if leb k n then some (greater_key (k, m) later) else later

-- The bytes that a record points to.
unfoldable pub read_data : Zstd → IndexRecord → Option Archive → Fallible (Option Bytes)
read_data z r none = err
read_data z r (some archive) = elim (read_exact_at r.offset r.len archive.contents) [
  | none ↦ err
  | some compressed ↦ elim (z.decode_all compressed) [ none ↦ err | some bytes ↦ ok (some bytes) ]
]

unfoldable pub read_chunk : Zstd → Disk → ℕ → Option (ℕ × MappedIndex) → Fallible (Option Bytes)
read_chunk z disk n none = ok none
read_chunk z disk n (some (k, m)) = elim (get_record m n) [
  | none ↦ ok none
  | some r ↦ read_data z r (open_archive m.data_path disk)
]

-- `read_block`
unfoldable pub read_block : Zstd → Disk → Indices → ℕ → Fallible (Option Bytes)
unfolding read_chunk chunk_for
read_block z disk indices n = read_chunk z disk n (chunk_for n indices)
