-- ===== src/Publish/Handler.antt =====
-- The request handlers of session_manager.rs, and the task of service.rs that runs a session.
use rock_node.Base.{
  ℕ, List, [], ◌∷◌, ◌++◌, Option, none, some, Bool, true, false, ◌==◌, if◌then◌else◌, is_some,
  unwrap_or,
}
use rock_node.Base.Word.{add64}
use rock_node.Base.Signed.{ℤ, as_u64, as_i64, eq_i64}
use rock_node.Base.Assoc.{remove}
use rock_node.Block.{BlockItem, block_header, block_proof, other_item}
use rock_node.Publish.State.{
  BlockAction, accept, skip, resend, end_behind, end_duplicate, end_error, bad_block_proof,
  end_stream, error_code, resend_block, SharedState, send, broadcast, others,
}
use rock_node.Publish.Validation.{validate_block_items}
use rock_node.Publish.Session.{
  Session, World, State, handle_skip, handle_resend, handle_end_behind, handle_end_duplicate,
  handle_end_error,
}
use rock_node.Publish.Actions.{Decision, get_action_for_block}
use rock_node.Publish.Completion.{complete_block}

-- `publish_stream_request::Request`
pub data Request : Type 0 where
  block_items : List BlockItem → Request
  end_of_block : ℕ → Request
  end_of_stream : ℕ → ℕ → Request

-- The loop of `handle_accept`: the buffer, and whether a proof ended it.
unfoldable pub accept_items : List BlockItem → List BlockItem → List BlockItem × Bool
accept_items buffer [] = (buffer, false)
accept_items buffer (some (block_proof n) ∷ rest) = (buffer ++ (some (block_proof n) ∷ []), true)
accept_items buffer (some (block_header n) ∷ rest) =
    accept_items (buffer ++ (some (block_header n) ∷ [])) rest
accept_items buffer (some (other_item c) ∷ rest) =
    accept_items (buffer ++ (some (other_item c) ∷ [])) rest
accept_items buffer (none ∷ rest) = accept_items (buffer ++ (none ∷ [])) rest

-- `handle_accept`
unfoldable pub handle_accept : World → List BlockItem → Session → SharedState → State × Bool
handle_accept w items s shared =
    let (buffer, proven) = accept_items s.item_buffer items in
    let s' = record s { item_buffer = buffer } in
    if proven then complete_block w s' shared else ((s', shared), false)

-- The first pass of `handle_block_items`: the number of the first header among the items.
unfoldable pub header_number : List BlockItem → Option ℤ
header_number [] = none
header_number (some (block_header n) ∷ rest) = some (as_i64 n)
header_number (some (block_proof n) ∷ rest) = header_number rest
header_number (some (other_item c) ∷ rest) = header_number rest
header_number (none ∷ rest) = header_number rest

-- "Determine what action to take": a header starts a block, items without one go on with it.
unfoldable pub decide : World → Option ℤ → Session → SharedState → Decision
decide w (some n) s shared = get_action_for_block w n none s shared
decide w none s shared = elim s.current_block_action [
  | some action ↦ get_action_for_block w s.current_block_number (some action) s shared
  | none ↦ (end_error, s, shared)
]

-- "Execute action"
unfoldable pub execute : World → BlockAction → List BlockItem → Session → SharedState → State × Bool
unfolding handle_accept
execute w accept items s shared = handle_accept w items s shared
execute w skip items s shared = (handle_skip s shared, false)
execute w resend items s shared = (handle_resend s shared, false)
execute w end_behind items s shared = ((s, handle_end_behind s shared), true)
execute w end_duplicate items s shared = ((s, handle_end_duplicate s shared), true)
execute w end_error items s shared = ((s, handle_end_error end_error s shared), true)
execute w bad_block_proof items s shared = ((s, handle_end_error bad_block_proof s shared), true)

-- The decision is stored as the current action, then executed.
unfoldable pub act : World → List BlockItem → Decision → State × Bool
act w items (action, s, shared) =
    execute w action items (record s { current_block_action = some action }) shared

-- `handle_block_items`
unfoldable pub handle_block_items : World → List BlockItem → Session → SharedState → State × Bool
unfolding act decide
handle_block_items w items s shared =
    let s' = record s { blocks_received = add64 s.blocks_received 1 } in
    let number = header_number items in
    elim (validate_block_items s.max_items items (is_some number)) [
      | some _ ↦ (
        (
          s',
          send s.id (end_stream error_code (as_u64 (unwrap_or number s.current_block_number)))
              shared,
        ),
        true,
      )
      | none ↦ act w items (decide w number s' shared)
    ]

unfoldable pub refuse_end : Session → SharedState → State × Bool
refuse_end s shared =
    let s' = record s { current_block_action = some end_error } in
    ((s', handle_end_error end_error s' shared), true)

-- `handle_block_end`
unfoldable pub handle_block_end : World → ℕ → Session → SharedState → State × Bool
unfolding refuse_end
handle_block_end w n s shared = elim s.current_block_action [
  | some accept ↦
      if eq_i64 (as_i64 n) s.current_block_number
      then complete_block w s shared
      else refuse_end s shared
  | _ ↦ refuse_end s shared
]

-- `handle_request`. `handle_end_stream` only logs.
unfoldable pub handle_request : World → Request → Session → SharedState → State × Bool
unfolding handle_block_items handle_block_end
handle_request w (block_items items) s shared = handle_block_items w items s shared
handle_request w (end_of_block n) s shared = handle_block_end w n s shared
handle_request w (end_of_stream earliest latest) s shared = ((s, shared), true)

-- The keys whose winner is the session, as service.rs collects them.
unfoldable pub won_by : ℕ → List (ℕ × ℕ) → List ℕ
won_by id [] = []
won_by id ((n, w) ∷ rest) = let won = won_by id rest in if w == id then n ∷ won else won

unfoldable pub give_up : ℕ → List ℕ → SharedState → SharedState
give_up id [] shared = shared
give_up id (n ∷ ns) shared = give_up id ns (
    broadcast (others id shared.active_sessions) (resend_block n)
      (record shared { block_winners = remove n shared.block_winners }))

-- The end of the task in service.rs: the session's blocks are up for election again.
unfoldable pub close_session : ℕ → SharedState → SharedState
unfolding won_by give_up
close_session id shared =
    let freed = give_up id (won_by id shared.block_winners) shared in
    record freed { active_sessions = others id freed.active_sessions }

-- The loop of the task: requests until one ends the stream, or there are no more.
unfoldable pub serve : List (World × Request) → Session → SharedState → SharedState
unfolding close_session
serve [] s shared = close_session s.id shared
serve ((w, request) ∷ rest) s shared =
    let ((s', shared'), ended) = handle_request w request s shared in
    let later = serve rest s' shared' in if ended then close_session s'.id shared' else later
