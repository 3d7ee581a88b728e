-- ===== src/StateManagement/CatchUp.antt =====
-- A catch-up that fails does not stop the event loop.
use rock_node.Base.{ℕ, suc, ◌-◌, ◌≤◌, ◌<◌, ◌≡◌, refl, false, Option, none, some, arith, ltb}
use rock_node.Base.Word.{u64_max}
use rock_node.Base.Results.{Fallible}
use rock_node.Block.{Bytes}
use rock_node.Pipeline.{BlockData, BlockEvent, cache_get, mark_for_removal}
use rock_node.StateManagement.Changes.{StateColumn, StateBlock}
use rock_node.StateManagement.{
  StateDb, Loop, on, apply_state_changes, apply_state_from_storage, apply_state_from_block_event,
  catch_up, after_event, on_event,
}
use rock_node.StateManagement.Replay.{count_of, expected-count}

module _ {K : StateColumn} (decode : Bytes → Option StateBlock)
    (read : ℕ → Fallible (Option Bytes)) where
  catch_up-failed :
      (b count : ℕ) (db : StateDb K)
      → apply_state_from_storage decode read b db ≡ none
      → catch_up decode read b (suc count) db ≡ db
  unfolding catch_up
  catch_up-failed b count db failed = rw (failed, catch_up) refl

  -- Where the first missed block cannot be applied from storage, the loop goes on all the same: the
  -- event's block is applied to the state without the missed blocks, and becomes the last one.
  pub on_event-skipped :
      (event : BlockEvent) (item : BlockData) (s : Loop K) (db : StateDb K)
      → count_of s.last_processed_block ≤ u64_max
      → count_of s.last_processed_block < event.block_number
      → apply_state_from_storage decode read (count_of s.last_processed_block) s.db ≡ none
      → cache_get s.cache event.cache_key ≡ some item
      → apply_state_changes decode event.block_number item.contents s.db ≡ some db
      → on_event decode read event s
        ≡ on (record {
          db = db;
          cache = mark_for_removal event.cache_key s.cache;
          last_processed_block = some event.block_number;
        })
  unfolding on_event apply_state_from_block_event
  on_event-skipped event item s db bound ahead failed cached applied =
      let count = count_of s.last_processed_block in
      let expected = expected-count s.last_processed_block bound in
      let due : ltb event.block_number count ≡ false = ground arith in
      let some_left : event.block_number - count ≡ suc (event.block_number - count - 1) =
        omega arith in
      let stays = catch_up-failed count (event.block_number - count - 1) s.db failed in
      simp (expected, on_event)
        (rw due (
          rw (some_left) (
            rw (stays)
              (rw (cached, apply_state_from_block_event) (simp (applied, after_event) refl)))))
