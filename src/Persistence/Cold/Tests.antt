-- ===== src/Persistence/Cold/Tests.antt =====
-- Cold storage on concrete inputs.
use rock_node.Base.{◌≡◌, refl, [], ◌∷◌, some, arith}
use rock_node.Block.{get_block_number}
use rock_node.Samples.{sample_codec, sample_block}
use rock_node.Persistence.Cold.Names.{
  archive_name, parse_block_range, parse_block_range-archive_name,
}
use rock_node.Persistence.Cold.Files.{Zstd}
use rock_node.Persistence.Cold.Laid.{Run, Fits}

-- A compression that leaves the bytes as they are.
abbrev pub plain_zstd : Zstd
plain_zstd = record {
  encode_all = λ bytes. bytes;
  decode_all = some;
  decode_all-encode_all = λ bytes. refl;
}

pub sample_Run : Run 7 (sample_block 7 ∷ sample_block 8 ∷ [])
unfolding get_block_number
sample_Run = (refl, (refl, tt))

pub sample_Fits : Fits plain_zstd sample_codec 0 (sample_block 7 ∷ sample_block 8 ∷ [])
sample_Fits = (omega arith, (omega arith, omega arith))

parse_block_range-archive_name_example : parse_block_range (archive_name 7 12000) ≡ some (7, 12000)
parse_block_range-archive_name_example = parse_block_range-archive_name 7 12000
