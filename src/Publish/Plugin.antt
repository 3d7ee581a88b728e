-- ===== src/Publish/Plugin.antt =====
-- `PublishPlugin` (lib.rs): the shared state that it starts with, the task that cleans the winners,
-- and what it tells the publishers when it stops.
use rock_node.Base.{ℕ, ◌-◌, List, [], ◌∷◌, Bool, ◌&&◌, Option, none, some, ltb, leb, if◌then◌else◌}
use rock_node.Base.Results.{Fallible, err, ok}
use rock_node.Base.Signed.{ℤ, pos, negsuc, lt_i64, as_i64, as_u64}
use rock_node.Publish.State.{SharedState, initial, end_stream, error_code, broadcast}

-- The latest block of the node's block reader, if it has one; -1 without one.
unfoldable pub latest_at_start : Option (Fallible (Option ℕ)) → ℤ
latest_at_start none = negsuc 0
latest_at_start (some err) = negsuc 0
latest_at_start (some (ok none)) = negsuc 0
latest_at_start (some (ok (some n))) = as_i64 n

-- `initialize`
unfoldable pub start_state : Option (Fallible (Option ℕ)) → SharedState
unfolding latest_at_start
start_state reader = record initial { latest_persisted_block = latest_at_start reader }

-- `retain(|&k, _| k >= cut)`
unfoldable pub retain_from : ℕ → List (ℕ × ℕ) → List (ℕ × ℕ)
retain_from cut [] = []
retain_from cut ((k, id) ∷ rest) =
    let kept = retain_from cut rest in if leb cut k then (k, id) ∷ kept else kept

-- The clean-up is due when the latest block is positive and greater than the threshold.
unfoldable pub clean_up_due : ℕ → SharedState → Bool
clean_up_due threshold shared =
    lt_i64 (pos 0) shared.latest_persisted_block
    && ltb threshold (as_u64 shared.latest_persisted_block)

-- The first block that the clean-up spares.
unfoldable pub clean_up_before : ℕ → SharedState → ℕ
unfolding clean_up_due
clean_up_before threshold shared =
    if clean_up_due threshold shared then as_u64 shared.latest_persisted_block - threshold else 0

-- A round of the clean-up task.
unfoldable pub clean_up : ℕ → SharedState → SharedState
unfolding clean_up_due retain_from
clean_up threshold shared =
    if clean_up_due threshold shared
    then record shared {
      block_winners =
          retain_from (as_u64 shared.latest_persisted_block - threshold) shared.block_winners;
    }
    else shared

-- `stop`: every publisher is told that its stream ends, with the latest block, or 0.
unfoldable pub stop : SharedState → SharedState
unfolding broadcast
stop shared =
    let n =
      if lt_i64 shared.latest_persisted_block (pos 0)
      then 0
      else as_u64 shared.latest_persisted_block in
    broadcast shared.active_sessions (end_stream error_code n) shared
