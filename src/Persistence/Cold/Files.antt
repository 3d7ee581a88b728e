-- ===== src/Persistence/Cold/Files.antt =====
-- The files of cold storage. The file system keeps what is written; a rename replaces an archive of
-- the same name. zstd is a third-party library: decompressing gives back what was compressed.
use rock_node.Base.{
  ℕ, ◌+◌, ◌≡◌, Bool, true, false, ◌&&◌, List, [], ◌∷◌, ◌++◌, Option, none, some, ◌==◌, ltb,
  if◌then◌else◌, length, take, drop,
}
use rock_node.Base.BigEndian.{to_be, from_be}
use rock_node.Block.{Bytes}
use rock_node.Persistence.Cold.Names.{ArchiveName}

pub record Zstd : Type 0 where
  pub encode_all : Bytes → Bytes
  pub decode_all : Bytes → Option Bytes
  pub decode_all-encode_all : (bytes : Bytes) → decode_all (encode_all bytes) ≡ some bytes

-- The two files of an archive, `.rba` and `.rbi`.
pub record Archive : Type 0 where
  pub contents : Bytes
  pub index : Bytes

-- The directory of the archives, the one renamed last first.
abbrev pub Disk : Type 0
Disk = List (ArchiveName × Archive)

unfoldable pub same_digits : List ℕ → List ℕ → Bool
same_digits [] [] = true
same_digits [] (d ∷ ds) = false
same_digits (d ∷ ds) [] = false
same_digits (d ∷ ds) (e ∷ es) = d == e && same_digits ds es

unfoldable pub same_name : ArchiveName → ArchiveName → Bool
unfolding same_digits
same_name a b = same_digits a.first b.first && same_digits a.last b.last

unfoldable pub open_archive : ArchiveName → Disk → Option Archive
open_archive name [] = none
open_archive name ((n, a) ∷ rest) =
    let later = open_archive name rest in if same_name n name then some a else later

-- The two renames at the end of `write_archive`.
unfoldable pub rename_archive : ArchiveName → Archive → Disk → Disk
rename_archive name a disk = (name, a) ∷ disk

-- `read_exact_at`: an error where the file is too short, unless nothing is to be read.
unfoldable pub read_exact_at : ℕ → ℕ → Bytes → Option Bytes
read_exact_at offset len file =
    if ltb 0 len && ltb (length file) (offset + len)
    then none
    else some (take len (drop offset file))

-- `IndexRecord`, with its fields big-endian and packed.
pub record IndexRecord : Type 0 where
  pub block_number : ℕ
  pub offset : ℕ
  pub len : ℕ

abbrev pub record_size : ℕ
record_size = 20

unfoldable pub record_bytes : IndexRecord → Bytes
record_bytes r = to_be 8 r.block_number ++ (to_be 8 r.offset ++ to_be 4 r.len)

unfoldable pub read_record : Bytes → IndexRecord
read_record bytes = record {
  block_number = from_be 0 (take 8 bytes);
  offset = from_be 0 (take 8 (drop 8 bytes));
  len = from_be 0 (take 4 (drop 16 bytes));
}
