-- ===== src/Persistence/Archiver.antt =====
-- `Archiver` (cold_storage/archiver.rs): it moves batches of blocks from the hot tier to cold
-- storage. Reads and historical batches (service.rs) over both tiers stand here too.
pub mod Batch
pub mod Stored
pub mod Steps
pub mod Moves
pub mod Reads
pub mod Cycles
pub mod Moments
pub mod Unloaded
pub mod Historical
pub mod Tests
use rock_node.Base.{
  ℕ, zero, suc, ◌≤◌, Bool, true, false, List, [], ◌∷◌, ◌++◌, Option, none, some, leb, if◌then◌else◌,
  unwrap_or,
}
use rock_node.Base.Word.{add64, saturating_sub}
use rock_node.Base.Results.{Fallible, err, ok}
use rock_node.Block.{Block, Bytes, Codec, get_block_number}
use rock_node.Rocks.{Rocks}
use rock_node.Persistence.Db.{Db, WriteBatch, commit}
use rock_node.Persistence.State.{
  set_earliest_hot, add_skipped_batch, remove_skipped_batch, update_true_earliest_if_less,
}
use rock_node.Persistence.HotTier.{is_batch_complete, read_block_batch, add_delete_to_batch}
use rock_node.Persistence.Service.{Config}
use rock_node.Persistence.Cold.Names.{ArchiveName}
use rock_node.Persistence.Cold.Files.{Zstd, Disk}
use rock_node.Persistence.Cold.Writer.{write_archive}
use rock_node.Persistence.Cold.Reader as Reader
use rock_node.Persistence.Cold.Reader.{Indices, load_index_file, or_keep}

-- The store, the directory of the archives and the cold reader's indices.
pub record Node (R : Rocks) : Type 0 where
  pub db : Db R
  pub disk : Disk
  pub indices : Indices

-- `write_archive`, then `load_index_file`, whose failure is only logged.
unfoldable pub store_archive : Zstd → Codec → List Block → Disk → Indices → Option (Disk × Indices)
store_archive z c blocks disk indices = elim (write_archive z c blocks disk) [
  | none ↦ none
  | some (name, disk') ↦ some (disk', or_keep indices (load_index_file name disk' indices))
]

-- Rounds `i`, … of the loop `for i in 0..count` that deletes, with `rounds` of them left.
unfoldable pub deletes_from : ℕ → ℕ → ℕ → WriteBatch
unfolding add_delete_to_batch
deletes_from start i zero = []
deletes_from start i (suc rounds) =
    add_delete_to_batch (add64 start i) ++ deletes_from start (suc i) rounds

-- The batch at the end of `archive_batch`.
unfoldable pub archived_ops : ℕ → ℕ → WriteBatch
unfolding deletes_from
archived_ops start count =
    deletes_from start 0 count
    ++ (set_earliest_hot (add64 start count) ++ remove_skipped_batch start)

-- What `run_archival_cycle` comes to: it returns, with an error or not, or is still in its loop.
pub data Cycle (R : Rocks) : Type 0 where
  returned : Node R → Cycle R
  failed : Node R → Cycle R
  running : Node R → Cycle R

-- One round of the loop: it ends the cycle, or leaves a new state.
pub data Round (R : Rocks) : Type 0 where
  stop : Cycle R → Round R
  again : Node R → Round R

module _ {R : Rocks} where
  -- What `archive_batch` does once the archive is in the directory: its index is loaded, a failure of
  -- which is only logged, then the batch that takes the blocks from the hot tier is committed. The
  -- states in their order, from the one with the archive written.
  unfoldable pub steps_after : ℕ → ℕ → ArchiveName → Node R → List (Node R)
  steps_after start count name written =
      let with_index : Node R = record written {
        indices = or_keep written.indices (load_index_file name written.disk written.indices);
      } in
      let committed : Node R = record with_index {
        db = commit with_index.db (archived_ops start count);
      } in
      written ∷ with_index ∷ committed ∷ []

  -- The states that `archive_batch` takes the node through; `none` is an error, before anything is
  -- changed.
  unfoldable pub archive_steps : Zstd → Codec → ℕ → ℕ → Node R → Option (List (Node R))
  unfolding steps_after
  archive_steps z c start count node = elim (read_block_batch c node.db start count) [
    | none ↦ none
    | some [] ↦ some []
    | some (block ∷ blocks) ↦ elim (write_archive z c (block ∷ blocks) node.disk) [
      | none ↦ none
      | some (name, disk) ↦ some (steps_after start count name (record node { disk = disk }))
    ]
  ]

  unfoldable pub last_state : Node R → List (Node R) → Node R
  last_state node [] = node
  last_state node (next ∷ rest) = last_state next rest

  -- `archive_batch`: it leaves the last of these states.
  unfoldable pub archive_batch : Zstd → Codec → ℕ → ℕ → Node R → Option (Node R)
  unfolding last_state
  archive_batch z c start count node = elim (archive_steps z c start count node) [
    | none ↦ none
    | some steps ↦ some (last_state node steps)
  ]

  unfoldable pub skip_batch : ℕ → Node R → Node R
  skip_batch start node = record node { db = commit node.db (add_skipped_batch start) }

  -- `hot_tier_total_blocks`
  unfoldable pub total_blocks : Db R → ℕ → ℕ
  total_blocks db earliest =
      add64 (saturating_sub (unwrap_or db.metadata.latest_persisted 0) earliest) 1

  unfoldable pub after_archive : Node R → Option (Node R) → Round R
  after_archive node none = stop (failed node)
  after_archive node (some node') = again node'

  unfoldable pub archive_round : Zstd → Codec → Config → Node R → Round R
  unfolding after_archive
  archive_round z c cfg node = elim node.db.metadata.earliest_hot [
    | none ↦ stop (returned node)
    | some earliest ↦
        if leb (total_blocks node.db earliest) cfg.hot_storage_block_count
        then stop (returned node)
        else if is_batch_complete node.db earliest cfg.archive_batch_size
        then after_archive node (archive_batch z c earliest cfg.archive_batch_size node)
        else stop (returned (skip_batch earliest node))
  ]

  -- `run_archival_cycle`, with the rounds it may take.
  unfoldable pub run_archival_cycle : Zstd → Codec → Config → ℕ → Node R → Cycle R
  run_archival_cycle z c cfg zero node = running node
  run_archival_cycle z c cfg (suc fuel) node = elim (archive_round z c cfg node) [
    | stop result ↦ result
    | again node' ↦ run_archival_cycle z c cfg fuel node'
  ]

  unfoldable pub states_of : Option (List (Node R)) → List (Node R)
  states_of none = []
  states_of (some steps) = steps

  -- The states that a round takes the node through.
  unfoldable pub round_moments : Zstd → Codec → Config → Node R → List (Node R)
  unfolding states_of
  round_moments z c cfg node = elim node.db.metadata.earliest_hot [
    | none ↦ []
    | some earliest ↦
        if leb (total_blocks node.db earliest) cfg.hot_storage_block_count
        then []
        else if is_batch_complete node.db earliest cfg.archive_batch_size
        then states_of (archive_steps z c earliest cfg.archive_batch_size node)
        else skip_batch earliest node ∷ []
  ]

  -- The states that a cycle takes the node through, in the rounds it may take.
  unfoldable pub cycle_moments : Zstd → Codec → Config → ℕ → Node R → List (Node R)
  unfolding round_moments
  cycle_moments z c cfg zero node = []
  cycle_moments z c cfg (suc fuel) node =
      round_moments z c cfg node ++ elim (archive_round z c cfg node) [
        | stop result ↦ []
        | again node' ↦ cycle_moments z c cfg fuel node'
      ]

  -- The state in which a cycle leaves the node.
  unfoldable pub node_of : Cycle R → Node R
  node_of (returned node) = node
  node_of (failed node) = node
  node_of (running node) = node

  -- `PersistenceService::read_block`, over both tiers.
  unfoldable pub read_stored : Zstd → Node R → ℕ → Fallible (Option Bytes)
  read_stored z node n = elim (R.get node.db.hot_blocks n) [
    | some bytes ↦ ok (some bytes)
    | none ↦ Reader.read_block z node.disk node.indices n
  ]

  unfoldable pub after_batch : Node R → Option ℕ → Option (Disk × Indices) → Option (Node R)
  after_batch node earliest none = none
  after_batch node none (some (disk, indices)) = none
  after_batch node (some earliest) (some (disk, indices)) = some (record {
    db = update_true_earliest_if_less earliest node.db;
    disk = disk;
    indices = indices;
  })

  -- `write_block_batch`: a historical batch goes to cold storage at once.
  unfoldable pub write_block_batch : Zstd → Codec → List Block → Node R → Option (Node R)
  unfolding after_batch
  write_block_batch z c [] node = some node
  write_block_batch z c (block ∷ blocks) node =
      after_batch node (get_block_number block)
        (store_archive z c (block ∷ blocks) node.disk node.indices)
