-- ===== src/Persistence/Plugin.antt =====
-- `PersistencePlugin::initialize` (lib.rs), as far as it sets the counters, and runs of writes.
use rock_node.Base.{ℕ, List, [], ◌∷◌, Option, none, some, ltb, if◌then◌else◌}
use rock_node.Base.Word.{saturating_sub}
use rock_node.Block.{Block, Codec}
use rock_node.Rocks.{Rocks}
use rock_node.Persistence.Db.{Db}
use rock_node.Persistence.State.{initialize_true_earliest_persisted, initialize_highest_contiguous}
use rock_node.Persistence.HotTier.{get_earliest_block_number}
use rock_node.Persistence.Service.{Config, Written, malformed, written, panicked, write_block}

-- The match on the earliest block of cold storage and of the hot tier.
unfoldable earliest_of : Option ℕ → Option ℕ → Option ℕ
earliest_of (some c) (some h) = some (if ltb h c then h else c)
earliest_of (some c) none = some c
earliest_of none (some h) = some h
earliest_of none none = none

module _ {R : Rocks} where
  unfoldable set_earliest : Option ℕ → Db R → Db R
  set_earliest (some e) db = initialize_true_earliest_persisted e db
  set_earliest none db = db

  -- `earliest_cold` is what the cold reader's index begins with.
  unfoldable pub initialize : Config → Option ℕ → Db R → Db R
  unfolding earliest_of set_earliest
  initialize cfg earliest_cold db =
      let found : Db R = elim db.metadata.true_earliest [
        | some _ ↦ db
        | none ↦ set_earliest (earliest_of earliest_cold (get_earliest_block_number db)) db
      ] in
      initialize_highest_contiguous (saturating_sub cfg.start_block_number 1) found

  -- The store that a write leaves, on each outcome.
  unfoldable pub state_after : Db R → Written R → Db R
  state_after db malformed = db
  state_after db (written db' _) = db'
  state_after db (panicked db') = db'

  -- The blocks that arrive one after the other.
  unfoldable pub write_all : Codec → Config → Db R → List Block → Db R
  write_all c cfg db [] = db
  write_all c cfg db (block ∷ blocks) =
      write_all c cfg (state_after db (write_block c cfg db block)) blocks

  -- A store with nothing in it.
  abbrev pub fresh : Db R
  fresh = record {
    metadata = record {
      latest_persisted = none;
      earliest_hot = none;
      highest_contiguous = none;
      true_earliest = none;
    };
    gaps = R.empty;
    hot_blocks = R.empty;
    skipped_batches = R.empty;
  }
