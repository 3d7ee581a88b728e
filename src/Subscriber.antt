-- ===== src/Subscriber.antt =====
-- crates/rock-node-subscriber-plugin: the session that streams stored blocks to a subscriber
-- (session.rs), and its errors (error.rs). Metrics, logs and the failure's text are not modelled.
pub mod Request
pub mod Streaming
pub mod Status
pub mod Tests
use rock_node.Base.{
  ℕ, Bool, true, false, ◌&&◌, List, [], ◌∷◌, ◌++◌, Option, none, some, ltb, leb, ◌==◌,
  if◌then◌else◌, unwrap_or,
}
use rock_node.Base.Word.{u64_max, add64}
use rock_node.Block.{Block, Bytes, Codec}
use rock_node.BlockReader.{BlockReader, Fallible, err, ok}

-- `subscribe_stream_response::Code`, as far as the plugin names it.
pub data StatusCode : Type 0 where
  success error invalid_start_block_number invalid_end_block_number not_available unknown :
      StatusCode

pub data SubscriberError : Type 0 where
  validation : StatusCode → SubscriberError
  persistence : SubscriberError
  client_disconnected : SubscriberError
  stream_lagged : SubscriberError
  timeout_waiting_for_block : ℕ → SubscriberError
  server_shutdown : SubscriberError
  internal : SubscriberError

-- `to_status_code`
unfoldable pub to_status_code : SubscriberError → StatusCode
to_status_code (validation code) = code
to_status_code persistence = error
to_status_code client_disconnected = error
to_status_code stream_lagged = error
to_status_code (timeout_waiting_for_block n) = error
to_status_code server_shutdown = error
to_status_code internal = error

-- `SubscribeStreamRequest`; `u64::MAX` stands for the earliest block, and for a stream without end.
pub record StreamRequest : Type 0 where
  pub start_block_number : ℕ
  pub end_block_number : ℕ

-- `subscribe_stream_response::Response`
pub data StreamResponse : Type 0 where
  block_items : Block → StreamResponse
  status : StatusCode → StreamResponse

-- What a session does next: an error, or the number of the first block.
pub data Checked : Type 0 where
  refused : SubscriberError → Checked
  start_at : ℕ → Checked

-- Case 2, from the earliest block to a given end.
unfoldable pub from_earliest : ℕ → Option ℕ → Checked
from_earliest end none = refused (validation not_available)
from_earliest end (some earliest) =
    if leb earliest end then start_at earliest else refused (validation not_available)

-- The start is not too far in the future.
unfoldable pub check_future : ℕ → ℕ → Option ℕ → Checked
check_future lookahead start none = start_at start
check_future lookahead start (some latest) =
    if ltb (add64 latest lookahead) start
    then refused (validation not_available)
    else start_at start

-- The cases with an explicit start.
unfoldable pub check_explicit : ℕ → ℕ → Option ℕ → Option ℕ → Checked
unfolding check_future
check_explicit lookahead start none latest = check_future lookahead start latest
check_explicit lookahead start (some earliest) latest =
    if ltb start earliest
    then refused (validation invalid_start_block_number)
    else check_future lookahead start latest

unfoldable pub check_request : ℕ → StreamRequest → Option ℕ → Option ℕ → Checked
unfolding from_earliest check_explicit
check_request lookahead r earliest latest =
    if r.start_block_number == u64_max
    then (if r.end_block_number == u64_max
        then start_at (unwrap_or earliest 0)
        else from_earliest r.end_block_number earliest)
    else if r.end_block_number == u64_max
    then check_explicit lookahead r.start_block_number earliest latest
    else if ltb r.end_block_number r.start_block_number
    then refused (validation invalid_end_block_number)
    else check_explicit lookahead r.start_block_number earliest latest

unfoldable pub with_latest : ℕ → StreamRequest → Option ℕ → Fallible (Option ℕ) → Checked
with_latest lookahead r earliest err = refused persistence
with_latest lookahead r earliest (ok latest) = check_request lookahead r earliest latest

unfoldable pub with_earliest :
    ℕ → StreamRequest → Fallible (Option ℕ) → Fallible (Option ℕ) → Checked
unfolding with_latest
with_earliest lookahead r err latest = refused persistence
with_earliest lookahead r (ok earliest) latest = with_latest lookahead r earliest latest

-- `validate_and_check_fulfillment`
unfoldable pub validate_and_check_fulfillment : ℕ → StreamRequest → BlockReader → Checked
unfolding with_earliest
validate_and_check_fulfillment lookahead r reader =
    with_earliest lookahead r reader.get_earliest_persisted_block_number
      reader.get_latest_persisted_block_number

-- What a receiver of the persisted events yields; the list ends where the timeout strikes.
pub data Received : Type 0 where
  persisted : ℕ → Received
  lagged : Received
  closed : Received

-- What one round of the loop meets: a shutdown signal first, or the reader, whether the client is
-- there, and the events while the session waits.
pub record Round : Type 0 where
  pub shutdown : Bool
  pub reader : BlockReader
  pub client_open : Bool
  pub received : List Received

-- `wait_for_new_block`
unfoldable pub wait_for_new_block : ℕ → List Received → Option SubscriberError
wait_for_new_block n [] = some (timeout_waiting_for_block n)
wait_for_new_block n (persisted m ∷ rest) =
    let later = wait_for_new_block n rest in if leb n m then none else later
wait_for_new_block n (lagged ∷ rest) = none
wait_for_new_block n (closed ∷ rest) = some internal

-- The result of `process_next_block`: the next block, the end of the stream, or an error.
pub data Progress : Type 0 where
  next : ℕ → Progress
  finished : Progress
  failed : SubscriberError → Progress

-- `send_block`, with what was sent before.
unfoldable pub send_block :
    Codec → Bool → Bytes → ℕ → List StreamResponse → Progress × List StreamResponse
send_block c client_open bytes n sent = elim (c.decode bytes) [
  | none ↦ (failed persistence, sent)
  | some block ↦
      if client_open
      then (next (add64 n 1), sent ++ (block_items block ∷ []))
      else (failed client_disconnected, sent)
]

unfoldable pub after_wait : ℕ → Option SubscriberError → Progress
after_wait n none = next n
after_wait n (some e) = failed e

unfoldable pub after_read :
    Codec
    → Round
    → ℕ
    → List StreamResponse
    → Fallible (Option Bytes)
    → Progress × List StreamResponse
unfolding send_block after_wait
after_read c w n sent err = (failed persistence, sent)
after_read c w n sent (ok (some bytes)) = send_block c w.client_open bytes n sent
after_read c w n sent (ok none) = (after_wait n (wait_for_new_block n w.received), sent)

-- `process_next_block`
unfoldable pub process_next_block :
    Codec → StreamRequest → Round → ℕ → List StreamResponse → Progress × List StreamResponse
unfolding after_read
process_next_block c r w n sent =
    if r.end_block_number == u64_max
    then after_read c w n sent (w.reader.read_block n)
    else if ltb r.end_block_number n
    then (finished, sent)
    else after_read c w n sent (w.reader.read_block n)

-- One round of the loop of `execute_stream`.
unfoldable pub round :
    Codec → StreamRequest → Round → ℕ → List StreamResponse → Progress × List StreamResponse
unfolding process_next_block
round c r w n sent =
    if w.shutdown then (failed server_shutdown, sent) else process_next_block c r w n sent

-- The loop of `execute_stream`, for the rounds that there have been: `next` is a stream that is
-- still open.
unfoldable pub stream :
    Codec → StreamRequest → List Round → ℕ → List StreamResponse → Progress × List StreamResponse
stream c r [] n sent = (next n, sent)
stream c r (w ∷ ws) n sent =
    let (progress, sent') = round c r w n sent in
    elim progress [
      | next m ↦ stream c r ws m sent'
      | finished ↦ (finished, sent')
      | failed e ↦ (failed e, sent')
    ]

-- `execute_stream`
unfoldable pub execute_stream :
    Codec → ℕ → StreamRequest → BlockReader → List Round → Progress × List StreamResponse
unfolding stream
execute_stream c lookahead r reader ws = elim (validate_and_check_fulfillment lookahead r reader) [
  | refused e ↦ (failed e, [])
  | start_at n ↦ stream c r ws n []
]

-- `send_final_status`, to a client that is there or not.
unfoldable pub send_final_status : StatusCode → Bool → List StreamResponse → List StreamResponse
send_final_status unknown client_open sent = sent
send_final_status success client_open sent =
    if client_open then sent ++ (status success ∷ []) else sent
send_final_status error client_open sent = if client_open then sent ++ (status error ∷ []) else sent
send_final_status invalid_start_block_number client_open sent =
    if client_open then sent ++ (status invalid_start_block_number ∷ []) else sent
send_final_status invalid_end_block_number client_open sent =
    if client_open then sent ++ (status invalid_end_block_number ∷ []) else sent
send_final_status not_available client_open sent =
    if client_open then sent ++ (status not_available ∷ []) else sent

-- `finalize_stream`; a stream that is still open has no status yet.
unfoldable pub finalize_stream : Bool → Progress → List StreamResponse → List StreamResponse
unfolding send_final_status to_status_code
finalize_stream client_open (next n) sent = sent
finalize_stream client_open finished sent = send_final_status success client_open sent
finalize_stream client_open (failed e) sent = send_final_status (to_status_code e) client_open sent

-- `run`: all that the client is sent.
unfoldable pub run :
    Codec → ℕ → StreamRequest → BlockReader → List Round → Bool → List StreamResponse
unfolding execute_stream finalize_stream
run c lookahead r reader ws client_open =
    let (progress, sent) = execute_stream c lookahead r reader ws in
    finalize_stream client_open progress sent
