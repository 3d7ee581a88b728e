-- ===== src/StateManagement.antt =====
-- `StateManager` of crates/rock-node-state-management-plugin/src/state_manager.rs, and the event loop
-- of plugin.rs. The messages of state changes are generated from .proto files: keys, values and
-- timestamps stand as their encodings, and the decoder of a block is a parameter. The column
-- `state_data` has bytes for keys and is a parameter too.
pub mod Changes
pub mod Replay
pub mod CatchUp
pub mod Tests
use rock_node.Base.{
  ℕ, zero, suc, ◌-◌, Bool, List, [], ◌∷◌, ◌++◌, Option, none, some, ltb, if◌then◌else◌,
}
use rock_node.Base.Word.{add64}
use rock_node.Base.Results.{Fallible, err, ok}
use rock_node.Block.{Bytes}
use rock_node.Pipeline.{BlockDataCache, BlockData, BlockEvent, cache_get, mark_for_removal}
use rock_node.StateManagement.Changes.{StateColumn, StateBlock, StateOps, write_ops, block_ops}

-- The column `state_data`, and the block under `STATE_LAST_PROCESSED_BLOCK` in `metadata`.
pub record StateDb (K : StateColumn) : Type 0 where
  pub state_data : K.Column
  pub last_processed : Option ℕ

-- The event loop between two events: the store, the cache, and `last_processed_block`.
pub record Loop (K : StateColumn) : Type 0 where
  pub db : StateDb K
  pub cache : BlockDataCache
  pub last_processed_block : Option ℕ

-- The loop goes on, or has ended.
pub data LoopStep (K : StateColumn) : Type 0 where
  on : Loop K → LoopStep K
  halted : Loop K → LoopStep K

-- `last_processed_block.map_or(0, |n| n + 1)`
unfoldable pub expected_block : Option ℕ → ℕ
expected_block none = 0
expected_block (some n) = add64 n 1

module _ {K : StateColumn} (decode : Bytes → Option StateBlock) where
  -- The batch is written at once, with the number of the block.
  unfoldable pub write_state : ℕ → Option StateOps → StateDb K → Option (StateDb K)
  write_state n none db = none
  write_state n (some ops) db =
      some (record { state_data = write_ops K db.state_data ops; last_processed = some n })

  -- `apply_state_changes`; `none` is an error, and nothing is written.
  unfoldable pub apply_state_changes : ℕ → Bytes → StateDb K → Option (StateDb K)
  unfolding write_state
  apply_state_changes n bytes db = elim (decode bytes) [
    | none ↦ none
    | some block ↦ write_state n (block_ops K db.state_data block) db
  ]

  -- `apply_state_from_storage`
  unfoldable pub apply_state_from_storage :
      (ℕ → Fallible (Option Bytes)) → ℕ → StateDb K → Option (StateDb K)
  apply_state_from_storage read n db = elim (read n) [
    | err ↦ none
    | ok none ↦ none
    | ok (some bytes) ↦ apply_state_changes n bytes db
  ]

  -- `apply_state_from_block_event`
  unfoldable pub apply_state_from_block_event : BlockEvent → Loop K → Option (Loop K)
  apply_state_from_block_event event s = elim (cache_get s.cache event.cache_key) [
    | none ↦ none
    | some item ↦ elim (apply_state_changes event.block_number item.contents s.db) [
      | none ↦ none
      | some db ↦ some (record s { db = db; cache = mark_for_removal event.cache_key s.cache })
    ]
  ]

  -- The loop `for b in expected_block..event.block_number`, with `count` rounds left; an error
  -- breaks it off.
  unfoldable pub catch_up : (ℕ → Fallible (Option Bytes)) → ℕ → ℕ → StateDb K → StateDb K
  catch_up read b zero db = db
  catch_up read b (suc count) db = elim (apply_state_from_storage read b db) [
    | none ↦ db
    | some db' ↦ catch_up read (suc b) count db'
  ]

  unfoldable pub after_event : BlockEvent → Loop K → Option (Loop K) → LoopStep K
  after_event event s none = halted s
  after_event event s (some s') = on (record s' { last_processed_block = some event.block_number })

  -- One event of the loop.
  unfoldable pub on_event : (ℕ → Fallible (Option Bytes)) → BlockEvent → Loop K → LoopStep K
  unfolding after_event
  on_event read event s =
      let expected = expected_block s.last_processed_block in
      let caught_up = record s {
        db = catch_up read expected (event.block_number - expected) s.db;
      } in
      if ltb event.block_number expected
      then on s
      else after_event event caught_up (apply_state_from_block_event event caught_up)
