-- ===== src/Persistence/State.antt =====
-- `StateManager` (state.rs): the counters, the gap ranges and the skipped batches. A function that
-- the source hands `&mut WriteBatch` returns the operations that it adds at the end of the batch.
-- Storage faults and malformed keys, which the source returns as errors, are not modelled.
use rock_node.Base.{
  ℕ, Bool, ◌&&◌, List, [], ◌∷◌, ◌++◌, map, Option, none, some, ltb, leb, if◌then◌else◌, is_some,
  unwrap_or,
}
use rock_node.Base.Word.{add64, sub64, saturating_add, max}
use rock_node.Rocks.{Rocks}
use rock_node.Persistence.Db.{
  Db, WriteBatch, latest_persisted_key, earliest_hot_key, highest_contiguous_key, true_earliest_key,
  put_metadata, put_gap, delete_gap, put_skipped, delete_skipped, apply_op,
}

unfoldable pub set_latest_persisted : ℕ → WriteBatch
set_latest_persisted n = put_metadata latest_persisted_key n ∷ []

unfoldable pub set_earliest_hot : ℕ → WriteBatch
set_earliest_hot n = put_metadata earliest_hot_key n ∷ []

unfoldable pub set_highest_contiguous : ℕ → WriteBatch
set_highest_contiguous n = put_metadata highest_contiguous_key n ∷ []

unfoldable pub set_true_earliest_persisted : ℕ → WriteBatch
set_true_earliest_persisted n = put_metadata true_earliest_key n ∷ []

unfoldable pub add_skipped_batch : ℕ → WriteBatch
add_skipped_batch s = put_skipped s ∷ []

unfoldable pub remove_skipped_batch : ℕ → WriteBatch
remove_skipped_batch s = delete_skipped s ∷ []

-- The forward sweep of `add_gap_range` over what the iterator yields: the end of the merged range,
-- and the keys that it removes.
unfoldable pub sweep : ℕ → List (ℕ × ℕ) → ℕ × List ℕ
sweep final_end [] = (final_end, [])
sweep final_end ((k, v) ∷ rest) =
    let (e, removed) = sweep (max final_end v) rest in
    if ltb (saturating_add final_end 1) k then (final_end, []) else (e, k ∷ removed)

-- The bounds after the look to the left.
unfoldable pub expand_left : ℕ → ℕ → Option (ℕ × ℕ) → ℕ × ℕ
expand_left start end none = (start, end)
expand_left start end (some (k, v)) =
    if leb start (saturating_add v 1)
    then (if ltb k start then k else start, max end v)
    else (start, end)

-- The range that a reverse seek found, if the block lies in it.
unfoldable containing : ℕ → Option (ℕ × ℕ) → Option (ℕ × ℕ)
containing b none = none
containing b (some (start, end)) = if leb start b && leb b end then some (start, end) else none

-- Cuts one block out of the gap that holds it.
unfoldable fill_in : ℕ → Option (ℕ × ℕ) → WriteBatch
fill_in b none = []
fill_in b (some (start, end)) =
    delete_gap start
    ∷ ((if ltb start b then put_gap start (sub64 b 1) ∷ [] else [])
        ++ (if ltb b end then put_gap (add64 b 1) end ∷ [] else []))

module _ {R : Rocks} where
  unfoldable pub get_highest_contiguous : Db R → ℕ
  get_highest_contiguous db = unwrap_or db.metadata.highest_contiguous 0

  unfoldable pub update_true_earliest_if_less : ℕ → Db R → Db R
  update_true_earliest_if_less n db = elim db.metadata.true_earliest [
    | some current ↦ if ltb n current then apply_op db (put_metadata true_earliest_key n) else db
    | none ↦ apply_op db (put_metadata true_earliest_key n)
  ]

  unfoldable pub initialize_true_earliest_persisted : ℕ → Db R → Db R
  initialize_true_earliest_persisted n db = elim db.metadata.true_earliest [
    | some _ ↦ db
    | none ↦ apply_op db (put_metadata true_earliest_key n)
  ]

  unfoldable pub initialize_earliest_hot : ℕ → Db R → WriteBatch
  initialize_earliest_hot n db = elim db.metadata.earliest_hot [
    | some _ ↦ []
    | none ↦ set_earliest_hot n
  ]

  unfoldable pub initialize_highest_contiguous : ℕ → Db R → Db R
  initialize_highest_contiguous n db = elim db.metadata.highest_contiguous [
    | some _ ↦ db
    | none ↦ apply_op db (put_metadata highest_contiguous_key n)
  ]

  unfoldable pub find_containing_gap : Db R → ℕ → Option (ℕ × ℕ)
  unfolding containing
  find_containing_gap db b = containing b (R.seek_reverse db.gaps b)

  unfoldable pub add_gap_range : Db R → ℕ → ℕ → WriteBatch
  add_gap_range db start end =
      let (final_start, end') = expand_left start end (R.seek_reverse db.gaps start) in
      let (final_end, removed) = sweep end' (R.iter_from db.gaps final_start) in
      if ltb end start then [] else map delete_gap removed ++ (put_gap final_start final_end ∷ [])

  unfoldable pub fill_gap_block : Db R → ℕ → WriteBatch
  unfolding fill_in
  fill_gap_block db b = fill_in b (find_containing_gap db b)

  unfoldable pub is_batch_skipped : Db R → ℕ → Bool
  is_batch_skipped db s = is_some (R.get db.skipped_batches s)
