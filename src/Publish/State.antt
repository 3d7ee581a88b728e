-- ===== src/Publish/State.antt =====
-- state.rs: what the publisher sessions share; and the messages of the publish stream.
use rock_node.Base.{ℕ, List, [], ◌∷◌, ◌++◌, map, ◌==◌, if◌then◌else◌}
use rock_node.Base.Signed.{ℤ, negsuc}
use rock_node.Block.{Bytes}

pub data SessionState : Type 0 where
  new primary behind : SessionState

pub data BlockAction : Type 0 where
  accept skip resend end_behind end_duplicate end_error bad_block_proof : BlockAction

-- `end_of_stream::Code`, as far as the plugin sends it.
pub data Code : Type 0 where
  error_code behind_code duplicate_block_code bad_block_proof_code : Code

-- `publish_stream_response::Response`
pub data Response : Type 0 where
  acknowledgement : ℕ → Response
  skip_block : ℕ → Response
  resend_block : ℕ → Response
  end_stream : Code → ℕ → Response

-- What a session hands the verification plugin: the block's number, its key in the block data
-- cache, and the contents under that key.
pub record Submission : Type 0 where
  pub block_number : ℕ
  pub cache_key : ℕ
  pub contents : Bytes

-- `SharedState`, with the messages that the sessions' channels were handed so far (the receiver's
-- session first) and the blocks that were submitted. A send to a closed channel counts as well: the
-- source ignores its failure.
pub record SharedState : Type 0 where
  pub block_winners : List (ℕ × ℕ)
  pub latest_persisted_block : ℤ
  pub active_sessions : List ℕ
  pub sent : List (ℕ × Response)
  pub submitted : List Submission

abbrev pub initial : SharedState
initial = record {
  block_winners = [];
  latest_persisted_block = negsuc 0;
  active_sessions = [];
  sent = [];
  submitted = [];
}

unfoldable pub send : ℕ → Response → SharedState → SharedState
send id response s = record s { sent = s.sent ++ ((id, response) ∷ []) }

-- The receivers of a message to all sessions but `id`.
unfoldable pub others : ℕ → List ℕ → List ℕ
others id [] = []
others id (x ∷ xs) = let rest = others id xs in if x == id then rest else x ∷ rest

unfoldable pub broadcast : List ℕ → Response → SharedState → SharedState
broadcast ids response s = record s { sent = s.sent ++ map (λ id. (id, response)) ids }
