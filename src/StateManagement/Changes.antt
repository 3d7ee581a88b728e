-- ===== src/StateManagement/Changes.antt =====
-- `apply_single_state_change` (state_manager.rs): what one change of a block does to the column.
use rock_node.Base.{ℕ, List, [], ◌∷◌, ◌++◌, Option, none, some}
use rock_node.Base.BigEndian.{to_be}
use rock_node.Block.{Bytes}

-- The column `state_data` of RocksDB, with bytes for keys. `first_from` is the first step of
-- `prefix_iterator_cf`.
pub record StateColumn : Type 1 where
  pub Column : Type 0
  pub empty : Column
  pub put : Column → Bytes → Bytes → Column
  pub delete : Column → Bytes → Column
  pub first_from : Column → Bytes → Option Bytes

-- A value that the source has a case for, as its encoding, or another one.
pub data NewValue : Type 0 where
  known : Bytes → NewValue
  unhandled : NewValue

pub data ChangeOperation : Type 0 where
  map_update : Option Bytes → Option Bytes → ChangeOperation
  map_delete : Option Bytes → ChangeOperation
  singleton_update : Option NewValue → ChangeOperation
  queue_push : Option NewValue → ChangeOperation
  queue_pop : ChangeOperation
  other_operation : ChangeOperation

pub record StateChange : Type 0 where
  pub state_id : ℕ
  pub change_operation : Option ChangeOperation

-- An item of a block: state changes with the encoded timestamp, or another item.
pub data StateItem : Type 0 where
  state_changes : Option Bytes → List StateChange → StateItem
  no_changes : StateItem

abbrev pub StateBlock : Type 0
StateBlock = List StateItem

-- An operation of the batch.
pub data StateOp : Type 0 where
  put_state : Bytes → Bytes → StateOp
  delete_state : Bytes → StateOp

abbrev pub StateOps : Type 0
StateOps = List StateOp

-- `construct_db_key`
unfoldable pub construct_db_key : ℕ → Option Bytes → Option Bytes
construct_db_key state_id none = none
construct_db_key state_id (some key) = some (to_be 4 state_id ++ key)

unfoldable pub put_value : Bytes → Option NewValue → Option StateOps
put_value key none = none
put_value key (some (known bytes)) = some (put_state key bytes ∷ [])
put_value key (some unhandled) = some []

unfoldable pub put_at : Option Bytes → Option Bytes → Option StateOps
put_at none value = none
put_at (some key) none = none
put_at (some key) (some value) = some (put_state key value ∷ [])

unfoldable pub delete_at : Option Bytes → Option StateOps
delete_at none = none
delete_at (some key) = some (delete_state key ∷ [])

unfoldable pub pop_first : Option Bytes → StateOps
pop_first none = []
pop_first (some key) = delete_state key ∷ []

-- The operations of a batch, with what comes after them.
unfoldable pub join_ops : Option StateOps → Option StateOps → Option StateOps
join_ops none rest = none
join_ops (some ops) none = none
join_ops (some ops) (some rest) = some (ops ++ rest)

module _ (K : StateColumn) where
  -- The operations that one change adds to the batch; the column is read as it was before the batch.
  unfoldable pub change_ops : K.Column → ℕ → Bytes → Option ChangeOperation → Option StateOps
  unfolding put_at put_value delete_at pop_first construct_db_key
  change_ops db state_id timestamp none = some []
  change_ops db state_id timestamp (some (map_update key value)) =
      put_at (construct_db_key state_id key) value
  change_ops db state_id timestamp (some (map_delete key)) =
      delete_at (construct_db_key state_id key)
  change_ops db state_id timestamp (some (singleton_update value)) =
      put_value (to_be 4 state_id) value
  change_ops db state_id timestamp (some (queue_push value)) =
      put_value (to_be 4 state_id ++ timestamp) value
  change_ops db state_id timestamp (some queue_pop) =
      some (pop_first (K.first_from db (to_be 4 state_id)))
  change_ops db state_id timestamp (some other_operation) = some []

  unfoldable pub changes_ops : K.Column → Bytes → List StateChange → Option StateOps
  unfolding change_ops join_ops
  changes_ops db timestamp [] = some []
  changes_ops db timestamp (change ∷ changes) =
      join_ops (change_ops db change.state_id timestamp change.change_operation)
        (changes_ops db timestamp changes)

  -- The loop over the items; a set without a timestamp is an error.
  unfoldable pub block_ops : K.Column → StateBlock → Option StateOps
  unfolding changes_ops join_ops
  block_ops db [] = some []
  block_ops db (no_changes ∷ items) = block_ops db items
  block_ops db (state_changes none changes ∷ items) = none
  block_ops db (state_changes (some timestamp) changes ∷ items) =
      join_ops (changes_ops db timestamp changes) (block_ops db items)

  -- `db.write(batch)`
  unfoldable pub write_ops : K.Column → StateOps → K.Column
  write_ops db [] = db
  write_ops db (put_state key value ∷ ops) = write_ops (K.put db key value) ops
  write_ops db (delete_state key ∷ ops) = write_ops (K.delete db key) ops
