-- ===== src/Persistence/HotTier.antt =====
-- `HotTier` (hot_tier.rs): the blocks of the `hot_blocks` column, each the contents of its
-- `StoredBlock`. bincode, which wraps the contents, is taken to read back what it wrote.
use rock_node.Base.{
  ℕ, zero, suc, Bool, true, false, List, [], ◌∷◌, Option, none, some, if◌then◌else◌, is_some,
}
use rock_node.Base.Word.{add64}
use rock_node.Block.{Block, Bytes, Codec}
use rock_node.Rocks.{Rocks}
use rock_node.Persistence.Db.{Db, WriteBatch, put_hot, delete_hot}

unfoldable pub add_block_to_batch : Codec → Block → ℕ → WriteBatch
add_block_to_batch c block n = put_hot n (c.encode block) ∷ []

unfoldable pub add_delete_to_batch : ℕ → WriteBatch
add_delete_to_batch n = delete_hot n ∷ []

unfoldable pub first_key : List (ℕ × Bytes) → Option ℕ
first_key [] = none
first_key ((k, v) ∷ rest) = some k

module _ {R : Rocks} where
  unfoldable pub read_block : Db R → ℕ → Option Bytes
  read_block db n = R.get db.hot_blocks n

  unfoldable pub get_earliest_block_number : Db R → Option ℕ
  unfolding first_key
  get_earliest_block_number db = first_key (R.iter_from db.hot_blocks 0)

  -- Rounds `i`, … of the loop `for i in 0..batch_size`, with `rounds` of them left.
  unfoldable pub batch_complete_from : Db R → ℕ → ℕ → ℕ → Bool
  batch_complete_from db start i zero = true
  batch_complete_from db start i (suc rounds) =
      let rest = batch_complete_from db start (suc i) rounds in
      if is_some (R.get db.hot_blocks (add64 start i)) then rest else false

  unfoldable pub is_batch_complete : Db R → ℕ → ℕ → Bool
  unfolding batch_complete_from
  is_batch_complete db start batch_size = batch_complete_from db start 0 batch_size

  -- `none` is the error for a missing block, or for one that does not decode.
  unfoldable pub read_batch_from : Codec → Db R → ℕ → ℕ → ℕ → Option (List Block)
  read_batch_from c db start i zero = some []
  read_batch_from c db start i (suc rounds) =
      let rest = read_batch_from c db start (suc i) rounds in
      elim (read_block db (add64 start i)) [
        | none ↦ none
        | some bytes ↦ elim (c.decode bytes) [
          | none ↦ none
          | some block ↦ elim rest [ none ↦ none | some blocks ↦ some (block ∷ blocks) ]
        ]
      ]

  unfoldable pub read_block_batch : Codec → Db R → ℕ → ℕ → Option (List Block)
  unfolding read_batch_from
  read_block_batch c db start count = read_batch_from c db start 0 count
