-- ===== src/Publish/Session.antt =====
-- `SessionManager` (session_manager.rs): its state, and the answers that end or skip a block. Times
-- and metrics are not modelled.
use rock_node.Base.{ℕ, List, [], Option, none, Bool}
use rock_node.Base.Word.{add64}
use rock_node.Base.Signed.{ℤ, pos, as_u64}
use rock_node.Block.{Block, BlockItem, Bytes}
use rock_node.Publish.State.{
  SessionState, new, BlockAction, accept, skip, resend, end_behind, end_duplicate, end_error,
  bad_block_proof, Code, error_code, behind_code, duplicate_block_code, bad_block_proof_code,
  skip_block, resend_block, end_stream, SharedState, send,
}

pub record Session : Type 0 where
  pub id : ℕ
  pub max_items : ℕ
  pub state : SessionState
  pub current_block_number : ℤ
  pub current_block_action : Option BlockAction
  pub item_buffer : List BlockItem
  pub blocks_received : ℕ
  pub blocks_accepted : ℕ
  pub blocks_skipped : ℕ

-- `SessionManager::new`
unfoldable pub new_session : ℕ → ℕ → Session
new_session id max_items = record {
  id = id;
  max_items = max_items;
  state = new;
  current_block_number = pos 0;
  current_block_action = none;
  item_buffer = [];
  blocks_received = 0;
  blocks_accepted = 0;
  blocks_skipped = 0;
}

-- What the bus of the node tells a session that waits for its block.
pub data BusEvent : Type 0 where
  verification_failed : ℕ → ℕ → BusEvent
  persisted : ℕ → ℕ → BusEvent

-- What one request meets outside the session: the other sessions, between its two looks at the
-- winners and while it waits; the prost encoder, which may fail; the key that the block data cache
-- draws; whether the verification channel is open; and the events that its receivers yield before
-- the timeout.
pub record World : Type 0 where
  pub meanwhile : SharedState → SharedState
  pub during_wait : SharedState → SharedState
  pub encode : Block → Option Bytes
  pub cache_key : ℕ
  pub verification_open : Bool
  pub events : List BusEvent

abbrev pub State : Type 0
State = Session × SharedState

-- `reset_for_next_block`
unfoldable pub reset_for_next_block : Session → Session
reset_for_next_block s = record s {
  item_buffer = [];
  state = new;
  current_block_number = pos 0;
  current_block_action = none;
}

-- `handle_skip`
unfoldable pub handle_skip : Session → SharedState → State
unfolding reset_for_next_block send
handle_skip s shared = (
  reset_for_next_block (record s { blocks_skipped = add64 s.blocks_skipped 1 }),
  send s.id (skip_block (as_u64 s.current_block_number)) shared,
)

-- `handle_resend`
unfoldable pub handle_resend : Session → SharedState → State
unfolding reset_for_next_block send
handle_resend s shared =
    (reset_for_next_block s, send s.id (resend_block (as_u64 s.current_block_number)) shared)

-- `handle_end_behind`
unfoldable pub handle_end_behind : Session → SharedState → SharedState
unfolding send
handle_end_behind s shared =
    send s.id (end_stream behind_code (as_u64 shared.latest_persisted_block)) shared

-- `handle_end_duplicate`
unfoldable pub handle_end_duplicate : Session → SharedState → SharedState
unfolding send
handle_end_duplicate s shared =
    send s.id (end_stream duplicate_block_code (as_u64 s.current_block_number)) shared

abbrev pub error_code_of : BlockAction → Code
error_code_of bad_block_proof = bad_block_proof_code
error_code_of accept = error_code
error_code_of skip = error_code
error_code_of resend = error_code
error_code_of end_behind = error_code
error_code_of end_duplicate = error_code
error_code_of end_error = error_code

-- `handle_end_error`
unfoldable pub handle_end_error : BlockAction → Session → SharedState → SharedState
unfolding send
handle_end_error action s shared =
    send s.id (end_stream (error_code_of action) (as_u64 s.current_block_number)) shared
