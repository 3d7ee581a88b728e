-- ===== src/BlockReader.antt =====
-- `BlockReader` (crates/rock-node-core/src/block_reader.rs): what other plugins read of the stored
-- blocks; and the reader of `PersistenceService`.
use rock_node.Base.{ℕ, Option}
pub use rock_node.Base.Results.{Fallible, err, ok}
use rock_node.Block.{Bytes}
use rock_node.Rocks.{Rocks}
use rock_node.Persistence.Db.{Db}
use rock_node.Persistence.State.{get_highest_contiguous}
use rock_node.Persistence.Service.{read_block}

pub record BlockReader : Type 0 where
  pub get_latest_persisted_block_number : Fallible (Option ℕ)
  pub get_earliest_persisted_block_number : Fallible (Option ℕ)
  pub read_block : ℕ → Fallible (Option Bytes)
  pub get_highest_contiguous_block_number : Fallible ℕ

-- The reader of `PersistenceService`, for a store without faults; cold storage is `cold`.
abbrev pub persistence_reader : {R : Rocks} → (ℕ → Option Bytes) → Db R → BlockReader
persistence_reader cold db = record {
  get_latest_persisted_block_number = ok db.metadata.latest_persisted;
  get_earliest_persisted_block_number = ok db.metadata.true_earliest;
  read_block = λ n. ok (read_block cold db n);
  get_highest_contiguous_block_number = ok (get_highest_contiguous db);
}
