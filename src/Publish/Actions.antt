-- ===== src/Publish/Actions.antt =====
-- The decisions of session_manager.rs: what to do with a header, and with the items after it.
use rock_node.Base.{ℕ, Option, none, some, ◌==◌, if◌then◌else◌}
use rock_node.Base.Signed.{ℤ, as_u64, lt_i64, eq_i64}
use rock_node.Base.Assoc.{lookup, insert}
use rock_node.Publish.State.{
  primary, behind, BlockAction, accept, skip, resend, end_behind, end_duplicate, end_error,
  bad_block_proof, SharedState,
}
use rock_node.Publish.Session.{Session, World}

abbrev pub Decision : Type 0
Decision = BlockAction × Session × SharedState

-- The block has a winner already: a duplicate if it is this session, else it is skipped.
unfoldable pub on_winner : ℕ → ℤ → Session → SharedState → Decision
on_winner winner n s shared =
    (if winner == s.id then end_duplicate else skip, record s { current_block_number = n }, shared)

-- `block_winners.entry(..)`: vacant, the session wins; occupied, another session was faster.
unfoldable pub elect : ℤ → Session → SharedState → Decision
elect n s shared = elim (lookup (as_u64 n) shared.block_winners) [
  | none ↦ (
    accept,
    record s { current_block_number = n; state = primary },
    record shared { block_winners = insert (as_u64 n) s.id shared.block_winners },
  )
  | some _ ↦ (skip, record s { state = behind }, shared)
]

-- `get_action_for_header`
unfoldable pub get_action_for_header : World → ℤ → Session → SharedState → Decision
unfolding on_winner elect
get_action_for_header w n s shared =
    if lt_i64 n shared.latest_persisted_block
    then (end_behind, record s { current_block_number = n }, shared)
    else if eq_i64 n shared.latest_persisted_block
    then (end_duplicate, record s { current_block_number = n }, shared)
    else elim (lookup (as_u64 n) shared.block_winners) [
      | some winner ↦ on_winner winner n s shared
      | none ↦ elect n s (w.meanwhile shared)
    ]

-- `get_action_for_currently_streaming`
unfoldable pub get_action_for_currently_streaming : ℤ → Session → SharedState → BlockAction
get_action_for_currently_streaming n s shared =
    if eq_i64 n s.current_block_number
    then elim (lookup (as_u64 n) shared.block_winners) [
      | some winner ↦ if winner == s.id then accept else resend
      | none ↦ end_error
    ]
    else end_error

-- `get_action_for_block`
unfoldable pub get_action_for_block :
    World → ℤ → Option BlockAction → Session → SharedState → Decision
unfolding get_action_for_header get_action_for_currently_streaming
get_action_for_block w n none s shared = get_action_for_header w n s shared
get_action_for_block w n (some accept) s shared =
    (get_action_for_currently_streaming n s shared, s, shared)
get_action_for_block w n (some skip) s shared = (end_error, s, shared)
get_action_for_block w n (some resend) s shared = (end_error, s, shared)
get_action_for_block w n (some end_behind) s shared = (end_error, s, shared)
get_action_for_block w n (some end_duplicate) s shared = (end_error, s, shared)
get_action_for_block w n (some end_error) s shared = (end_error, s, shared)
get_action_for_block w n (some bad_block_proof) s shared = (end_error, s, shared)
