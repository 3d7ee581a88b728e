-- ===== src/Persistence/Db.antt =====
-- The column families that the persistence plugin keeps (core/src/database.rs), and write batches:
-- operations that `db.write` applies in order, all at once.
pub mod Batches
use rock_node.Base.{ℕ, List, [], ◌∷◌, ◌++◌, Option, none, some}
use rock_node.Rocks.{Rocks}

-- The keys of the `metadata` column.
pub data MetaKey : Type 0 where
  latest_persisted_key earliest_hot_key highest_contiguous_key true_earliest_key : MetaKey

-- The `metadata` column has just these four keys.
pub record Metadata : Type 0 where
  pub latest_persisted : Option ℕ
  pub earliest_hot : Option ℕ
  pub highest_contiguous : Option ℕ
  pub true_earliest : Option ℕ

pub record Db (R : Rocks) : Type 0 where
  pub metadata : Metadata
  pub gaps : R.Column ℕ
  pub hot_blocks : R.Column (List ℕ)
  pub skipped_batches : R.Column (Unit {0})

pub data BatchOp : Type 0 where
  put_metadata : MetaKey → ℕ → BatchOp
  put_gap : ℕ → ℕ → BatchOp
  delete_gap : ℕ → BatchOp
  put_hot : ℕ → List ℕ → BatchOp
  delete_hot : ℕ → BatchOp
  put_skipped : ℕ → BatchOp
  delete_skipped : ℕ → BatchOp

abbrev pub WriteBatch : Type 0
WriteBatch = List BatchOp

abbrev pub set_metadata : MetaKey → ℕ → Metadata → Metadata
set_metadata latest_persisted_key v m = record m { latest_persisted = some v }
set_metadata earliest_hot_key v m = record m { earliest_hot = some v }
set_metadata highest_contiguous_key v m = record m { highest_contiguous = some v }
set_metadata true_earliest_key v m = record m { true_earliest = some v }

module _ {R : Rocks} where
  abbrev pub apply_op : Db R → BatchOp → Db R
  apply_op db (put_metadata key v) = record db { metadata = set_metadata key v db.metadata }
  apply_op db (put_gap s e) = record db { gaps = R.put db.gaps s e }
  apply_op db (delete_gap s) = record db { gaps = R.delete db.gaps s }
  apply_op db (put_hot n b) = record db { hot_blocks = R.put db.hot_blocks n b }
  apply_op db (delete_hot n) = record db { hot_blocks = R.delete db.hot_blocks n }
  apply_op db (put_skipped s) = record db { skipped_batches = R.put db.skipped_batches s tt }
  apply_op db (delete_skipped s) = record db { skipped_batches = R.delete db.skipped_batches s }

  -- `db.write(batch)`
  abbrev pub commit : Db R → WriteBatch → Db R
  commit db [] = db
  commit db (op ∷ ops) = commit (apply_op db op) ops
