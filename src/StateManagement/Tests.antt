-- ===== src/StateManagement/Tests.antt =====
-- The state's event loop on a concrete chain.
use rock_node.Base.{ℕ, ◌≡◌, refl, List, [], ◌∷◌, Option, none, some, arith, if◌then◌else◌}
use rock_node.Base.Word.{max}
use rock_node.Base.Results.{ok}
use rock_node.Block.{Bytes}
use rock_node.Persistence.Cold.Files.{same_digits}
use rock_node.Pipeline.{BlockData, BlockEvent, cache_get, mark_for_removal}
use rock_node.StateManagement.Changes.{
  StateColumn, StateBlock, state_changes, map_update, write_ops, block_ops, changes_ops, change_ops,
  join_ops, put_at, construct_db_key,
}
use rock_node.StateManagement.{
  StateDb, Loop, on, apply_state_changes, apply_state_from_storage, write_state, on_event,
}
use rock_node.StateManagement.Replay.{count_of, replay, IsInStep, on_event-IsInStep}
use rock_node.StateManagement.CatchUp.{on_event-skipped}

abbrev delete_key : List (Bytes × Bytes) → Bytes → List (Bytes × Bytes)
delete_key [] key = []
delete_key ((k, v) ∷ rest) key =
    let later = delete_key rest key in if same_digits k key then later else (k, v) ∷ later

abbrev first_key : List (Bytes × Bytes) → Bytes → Option Bytes
first_key [] key = none
first_key ((k, v) ∷ rest) key = some k

-- A column as a list of its entries, the last one put first.
abbrev list_column : StateColumn
list_column = record {
  Column = List (Bytes × Bytes);
  empty = [];
  put = λ column key value. (key, value) ∷ column;
  delete = delete_key;
  first_from = first_key;
}

-- A block sets one entry.
abbrev one_entry : Bytes → Option StateBlock
one_entry bytes = some (
    state_changes (some [])
      (record { state_id = 7; change_operation = some (map_update (some bytes) (some bytes)) } ∷ [])
    ∷ [])

abbrev chain : ℕ → Bytes
chain n = n ∷ []

abbrev item_two : BlockData
item_two = record { block_number = 2; contents = chain 2 }

abbrev start : Loop list_column
start = record {
  db = record { state_data = []; last_processed = none };
  cache = record { cache = (9, item_two) ∷ []; cleanup_queue = [] };
  last_processed_block = none;
}

abbrev event_two : BlockEvent
event_two = record { block_number = 2; cache_key = 9 }

start-IsInStep : IsInStep one_entry chain start
start-IsInStep = record { replayed = refl; bound = omega arith }

three_blocks : (end : StateDb list_column) × (replay one_entry chain 3 ≡ some end)
unfolding apply_state_changes write_state write_ops block_ops changes_ops change_ops join_ops put_at
    construct_db_key
three_blocks = (_, refl)

cached_two : cache_get start.cache 9 ≡ some item_two
unfolding cache_get
cached_two = refl

on_event-IsInStep_example :
    (s' : Loop list_column) × (on_event one_entry (λ n. ok (some (chain n))) event_two start
      ≡ on s')
    × IsInStep one_entry chain s'
    × (count_of s'.last_processed_block ≡ max 0 3)
on_event-IsInStep_example =
    on_event-IsInStep one_entry chain (λ n. ok (some (chain n))) event_two item_two start
      three_blocks.0 start-IsInStep (omega arith) cached_two refl (λ n l m. refl) three_blocks.1

only_two :
    (db : StateDb list_column) × (apply_state_changes one_entry 2 (chain 2) start.db ≡ some db)
unfolding apply_state_changes write_state write_ops block_ops changes_ops change_ops join_ops put_at
    construct_db_key
only_two = (_, refl)

not_found : apply_state_from_storage one_entry (λ n. ok none) 0 start.db ≡ none
unfolding apply_state_from_storage
not_found = refl

on_event-skipped_example :
    on_event one_entry (λ n. ok none) event_two start
    ≡ on (record {
      db = only_two.0;
      cache = mark_for_removal 9 start.cache;
      last_processed_block = some 2;
    })
on_event-skipped_example =
    on_event-skipped one_entry (λ n. ok none) event_two item_two start only_two.0 (omega arith)
      (omega arith) not_found cached_two only_two.1
