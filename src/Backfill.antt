-- ===== src/Backfill.antt =====
-- `BackfillWorker` of crates/rock-node-backfill-plugin/src/worker.rs: it fetches blocks from peers and
-- writes them through the persistence plugin. What the peers answer is a parameter. Delays, metrics and
-- the order of the peers, which is drawn at random, are not modelled. The archiver, which a write may
-- notify, does not run between two writes here.
pub mod Receive
pub mod Peers
pub mod Checks
pub mod Filled
pub mod AllFilled
pub mod Attempts
pub mod Continuous
pub mod External
pub mod Tests
use rock_node.Base.{
  ◌&&◌, Option, none, some, ℕ, zero, suc, ◌+◌, ◌*◌, ◌^◌, Bool, true, false, ◌&&◌, ◌||◌, List, [],
  ◌∷◌, Option, none, some, ltb, if◌then◌else◌,
}
use rock_node.Base.Signed.{ℤ, pos, negsuc, lt_i64, as_i64, as_u64}
use rock_node.Base.Word.{u64_max, max}
use rock_node.Block.{Block, Codec}
use rock_node.Rocks.{Rocks}
use rock_node.Persistence.Db.{Db}
use rock_node.Persistence.Service.{Config, Written, malformed, written, panicked, write_block}

abbrev pub peer_retry_limit : ℕ
peer_retry_limit = 3

-- The fields of `ServerStatusResponse` that are read.
pub record PeerStatus : Type 0 where
  pub first_available_block : ℕ
  pub last_available_block : ℕ

-- What `get_peer_status` comes to: an error for an address that is none, `None` where the peer cannot
-- be reached or refuses, or a status.
pub data StatusReply : Type 0 where
  bad_address : StatusReply
  unreachable : StatusReply
  available : PeerStatus → StatusReply

-- A message of the stream of blocks.
pub data Message : Type 0 where
  block_items : Block → Message
  other_response : Message
  stream_error : Message

-- What a request for a stream comes to.
pub data StreamReply : Type 0 where
  refused : StreamReply
  streaming : List Message → StreamReply

-- The answers of the peers: by the number of the attempt and the peer, and the range asked for.
pub record Answer : Type 0 where
  pub status : StatusReply
  pub stream : ℕ → ℕ → StreamReply

abbrev pub Network : Type 0
Network = ℕ → ℕ → Answer

-- `stream_from_peer`: it ends with the stream, or with an error.
pub data Streamed (R : Rocks) : Type 0 where
  finished : Db R → Streamed R
  aborted : Db R → Streamed R

-- The store, the number of attempts so far, the peers they were made at and the streams asked for, the
-- last one first.
pub record Worker (R : Rocks) : Type 0 where
  pub db : Db R
  pub attempts : ℕ
  pub attempted : List ℕ
  pub requests : List (ℕ × (ℕ × ℕ))

-- One round of the loop over the attempts at one peer.
pub data Attempted (R : Rocks) : Type 0 where
  done : Worker R → Attempted R
  next_peer : Worker R → Attempted R
  retry : Worker R → Attempted R

-- What the attempts at one peer come to.
pub data Tried (R : Rocks) : Type 0 where
  filled : Worker R → Tried R
  not_filled : Worker R → Tried R

module _ {R : Rocks} where
  -- The loop over the messages; each set of items is written as one block.
  unfoldable pub receive : Codec → Config → List Message → Db R → Streamed R
  receive c cfg [] db = finished db
  receive c cfg (stream_error ∷ messages) db = aborted db
  receive c cfg (other_response ∷ messages) db = receive c cfg messages db
  receive c cfg (block_items items ∷ messages) db = elim (write_block c cfg db items) [
    | malformed ↦ aborted db
    | panicked db' ↦ aborted db'
    | written db' notified ↦ receive c cfg messages db'
  ]

  unfoldable pub stream_from_peer : Codec → Config → StreamReply → Db R → Streamed R
  unfolding receive
  stream_from_peer c cfg refused db = aborted db
  stream_from_peer c cfg (streaming messages) db = receive c cfg messages db

  unfoldable pub asked : ℕ → ℕ → ℕ → Worker R → Worker R
  asked peer start end w = record w { requests = (peer, (start, end)) ∷ w.requests }

  unfoldable pub counted : ℕ → Worker R → Worker R
  counted peer w = record w { attempts = suc w.attempts; attempted = peer ∷ w.attempted }

  unfoldable pub after_stream : Worker R → Streamed R → Attempted R
  after_stream w (finished db) = done (record w { db = db })
  after_stream w (aborted db) = retry (record w { db = db })

  -- One attempt of `run_single_gap_check` at a gap and a peer.
  unfoldable pub attempt_gap : Codec → Config → ℕ → ℕ → ℕ → Answer → Worker R → Attempted R
  unfolding after_stream asked
  attempt_gap c cfg peer start end answer w = elim answer.status [
    | bad_address ↦ retry w
    | unreachable ↦ next_peer w
    | available status ↦
        if ltb start status.first_available_block || ltb status.last_available_block end
        then next_peer w
        else after_stream (asked peer start end w)
            (stream_from_peer c cfg (answer.stream start end) w.db)
  ]

  -- The attempts at one peer, with `left` retries left.
  unfoldable pub try_peer : Codec → Config → Network → ℕ → ℕ → ℕ → ℕ → Worker R → Tried R
  unfolding attempt_gap counted
  try_peer c cfg net peer start end zero w =
      elim (attempt_gap c cfg peer start end (net w.attempts peer) (counted peer w)) [
        | done w' ↦ filled w'
        | next_peer w' ↦ not_filled w'
        | retry w' ↦ not_filled w'
      ]
  try_peer c cfg net peer start end (suc left) w =
      elim (attempt_gap c cfg peer start end (net w.attempts peer) (counted peer w)) [
        | done w' ↦ filled w'
        | next_peer w' ↦ not_filled w'
        | retry w' ↦ try_peer c cfg net peer start end left w'
      ]

  -- The loop over the peers for one gap.
  unfoldable pub fill_gap : Codec → Config → Network → List ℕ → ℕ → ℕ → Worker R → Worker R
  fill_gap c cfg net [] start end w = w
  fill_gap c cfg net (peer ∷ peers) start end w =
      elim (try_peer c cfg net peer start end peer_retry_limit w) [
        | filled w' ↦ w'
        | not_filled w' ↦ fill_gap c cfg net peers start end w'
      ]

  -- The loop over the gaps.
  unfoldable pub fill_gaps : Codec → Config → Network → List ℕ → List (ℕ × ℕ) → Worker R → Worker R
  fill_gaps c cfg net peers [] w = w
  fill_gaps c cfg net peers ((start, end) ∷ gaps) w =
      let effective_start = max start cfg.start_block_number in
      fill_gaps c cfg net peers gaps
        (if ltb end effective_start then w else fill_gap c cfg net peers effective_start end w)

  unfoldable pub get_all_gaps : Db R → List (ℕ × ℕ)
  get_all_gaps db = R.iter_from db.gaps 0

  unfoldable pub run_single_gap_check : Codec → Config → Network → List ℕ → Worker R → Worker R
  run_single_gap_check c cfg net peers w = fill_gaps c cfg net peers (get_all_gaps w.db) w

-- One round of the loop of `run_continuous_stream_cycle` at one peer.
pub data Followed (R : Rocks) : Type 0 where
  ended : Worker R → Followed R
  leave : Worker R → Followed R
  wait : Worker R → Followed R
  again : Worker R → Followed R

-- What the loop over the peers comes to: the cycle ends, or it is still at a peer.
pub data ContinuousCycle (R : Rocks) : Type 0 where
  returned : Worker R → ContinuousCycle R
  at_peer : ℕ → Worker R → ContinuousCycle R

-- What the loop at one peer comes to.
pub data Stay (R : Rocks) : Type 0 where
  graceful : Worker R → Stay R
  passed : Worker R → Stay R
  staying : Worker R → Stay R

-- `local_latest_block`: -1 where nothing is stored.
unfoldable pub local_latest : Option ℕ → ℤ
local_latest none = negsuc 0
local_latest (some n) = as_i64 n

-- `local_latest_block + 1`
unfoldable pub next_i64 : ℤ → ℤ
next_i64 (pos n) = as_i64 (suc n)
next_i64 (negsuc zero) = pos 0
next_i64 (negsuc (suc n)) = negsuc n

module _ {R : Rocks} where
  unfoldable pub after_follow : Worker R → Streamed R → Followed R
  after_follow w (finished db) = ended (record w { db = db })
  after_follow w (aborted db) = again (record w { db = db })

  unfoldable pub follow_from : Codec → Config → ℕ → ℤ → ℤ → Answer → Worker R → Followed R
  unfolding after_follow asked
  follow_from c cfg peer latest peer_latest answer w =
      let start = next_i64 latest in
      if lt_i64 peer_latest latest
      then leave w
      else if lt_i64 peer_latest start && lt_i64 (pos 0) start
      then wait w
      else after_follow (asked peer (as_u64 start) u64_max w)
          (stream_from_peer c cfg (answer.stream (as_u64 start) u64_max) w.db)

  unfoldable pub attempt_follow : Codec → Config → ℕ → ℤ → Answer → Worker R → Followed R
  unfolding follow_from
  attempt_follow c cfg peer latest answer w = elim answer.status [
    | bad_address ↦ again w
    | unreachable ↦ leave w
    | available status ↦ follow_from c cfg peer latest (as_i64 status.last_available_block) answer w
  ]

  -- The loop at one peer, for some rounds; `left` are the retries left, and a wait takes none.
  unfoldable pub follow_peer : Codec → Config → Network → ℕ → ℤ → ℕ → ℕ → Worker R → Stay R
  unfolding attempt_follow counted
  follow_peer c cfg net peer latest zero left w = staying w
  follow_peer c cfg net peer latest (suc fuel) left w =
      elim (attempt_follow c cfg peer latest (net w.attempts peer) (counted peer w)) [
        | ended w' ↦ graceful w'
        | leave w' ↦ passed w'
        | wait w' ↦ follow_peer c cfg net peer latest fuel left w'
        | again w' ↦ elim left [
          | zero ↦ passed w'
          | suc left' ↦ follow_peer c cfg net peer latest fuel left' w'
        ]
      ]

  -- `run_continuous_stream_cycle`, with at most `fuel` rounds at each peer.
  unfoldable pub run_continuous_stream_cycle :
      Codec → Config → Network → ℕ → List ℕ → Worker R → ContinuousCycle R
  run_continuous_stream_cycle c cfg net fuel [] w = returned w
  run_continuous_stream_cycle c cfg net fuel (peer ∷ peers) w =
      elim (follow_peer c cfg net peer (local_latest w.db.metadata.latest_persisted) fuel
        peer_retry_limit w) [
          | graceful w' ↦ returned w'
          | passed w' ↦ run_continuous_stream_cycle c cfg net fuel peers w'
          | staying w' ↦ at_peer peer w'
        ]
