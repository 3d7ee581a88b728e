-- ===== src/Persistence/Service.antt =====
-- `PersistenceService` (service.rs): the writes of single blocks.
pub mod Walk
pub mod Effects
pub mod Contiguity
pub mod Cases
pub mod After
pub mod Keeps
use rock_node.Base.{
  ℕ, zero, suc, ◌+◌, ◌*◌, ◌/◌, ◌≤◌, Bool, true, false, List, [], ◌∷◌, ◌++◌, Option, none, some, ltb,
  leb, ◌==◌, if◌then◌else◌, is_some, unwrap_or,
}
use rock_node.Base.Word.{add64, sub64, saturating_sub, max}
use rock_node.Block.{Block, Bytes, Codec, get_block_number}
use rock_node.Rocks.{Rocks}
use rock_node.Persistence.Db.{Db, WriteBatch, commit}
use rock_node.Persistence.State.{
  set_latest_persisted, set_true_earliest_persisted, set_highest_contiguous,
  initialize_earliest_hot, get_highest_contiguous, find_containing_gap, add_gap_range,
  fill_gap_block, is_batch_skipped,
}
use rock_node.Persistence.HotTier.{add_block_to_batch}

-- The settings that the persistence plugin reads.
pub record Config : Type 0 where
  pub start_block_number : ℕ
  pub hot_storage_block_count : ℕ
  pub archive_batch_size : ℕ

-- What `write_block` comes to: an error before anything is written, the new state and whether the
-- archiver was notified, or an error after the commit: the blocking task panics where it divides by
-- a batch size of 0.
pub data Written (R : Rocks) : Type 0 where
  malformed : Written R
  written : Db R → Bool → Written R
  panicked : Db R → Written R

module _ {R : Rocks} where
  -- The loop `while next_to_check <= new_latest_persisted`, from `current_highest`.
  unfoldable pub walk : Db R → ℕ → ℕ → ℕ → ℕ
  walk db latest zero highest = highest
  walk db latest (suc fuel) highest =
      let next = add64 highest 1 in
      let rest = walk db latest fuel next in
      if leb next latest
      then (if is_some (find_containing_gap db next) then highest else rest)
      else highest

  -- The part of the batch that keeps `highest_contiguous` and the gaps.
  unfoldable pub contiguous_ops : Db R → ℕ → ℕ → WriteBatch
  contiguous_ops db n latest =
      let highest = get_highest_contiguous db in
      if ltb (add64 highest 1) n
      then add_gap_range db (add64 highest 1) (sub64 n 1)
      else if n == add64 highest 1
      then set_highest_contiguous (walk db latest latest n)
      else fill_gap_block db n ++ set_highest_contiguous (walk db latest latest highest)

  unfoldable pub latest_or_start : Config → Db R → ℕ
  latest_or_start cfg db =
      unwrap_or db.metadata.latest_persisted (saturating_sub cfg.start_block_number 1)

  -- The batch that `write_block` commits for block `n`.
  unfoldable pub write_ops : Codec → Config → Db R → Block → ℕ → WriteBatch
  write_ops c cfg db block n =
      let latest = latest_or_start cfg db in
      let new_latest = max latest n in
      add_block_to_batch c block n
      ++ ((if ltb latest new_latest then set_latest_persisted new_latest else [])
          ++ ((if is_some db.metadata.true_earliest then [] else set_true_earliest_persisted n)
              ++ (contiguous_ops db n new_latest ++ initialize_earliest_hot n db)))

  -- After the commit: a gap fill may have completed a batch that the archiver skipped.
  unfoldable pub after_commit : Config → Db R → ℕ → Bool → Written R
  after_commit cfg db n was_gap_fill =
      if was_gap_fill
      then (if cfg.archive_batch_size == 0
          then panicked db
          else written db
              (is_batch_skipped db (n / cfg.archive_batch_size * cfg.archive_batch_size)))
      else written db false

  unfoldable pub write_block : Codec → Config → Db R → Block → Written R
  unfolding after_commit
  write_block c cfg db block = elim (get_block_number block) [
    | none ↦ malformed
    | some n ↦
        after_commit cfg (commit db (write_ops c cfg db block n)) n
          (is_some (find_containing_gap db n))
  ]

  -- `read_block`: the hot tier first, then cold storage, which is `cold`.
  unfoldable pub read_block : (ℕ → Option Bytes) → Db R → ℕ → Option Bytes
  read_block cold db n = elim (R.get db.hot_blocks n) [ some bytes ↦ some bytes | none ↦ cold n ]
