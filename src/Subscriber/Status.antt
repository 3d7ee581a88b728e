-- ===== src/Subscriber/Status.antt =====
-- The statuses that a subscriber is sent.
use rock_node.Base.{
  ℕ, ◌≡◌, refl, ap, inl, inr, Bool, true, List, [], ◌∷◌, ◌++◌, Option, none, some, ltb, ◌==◌,
  Option-cases, Bool-cases,
}
use rock_node.Base.Word.{u64_max}
use rock_node.Block.{Block, Bytes, Codec}
use rock_node.BlockReader.{BlockReader, Fallible, err, ok}
use rock_node.Subscriber.{
  StatusCode, success, error, invalid_start_block_number, invalid_end_block_number, not_available,
  unknown, validation, persistence, client_disconnected, stream_lagged, timeout_waiting_for_block,
  server_shutdown, internal, to_status_code, StreamRequest, StreamResponse, block_items, status,
  Checked, refused, start_at, Round, Progress, next, finished, failed, send_block, after_read,
  process_next_block, round, stream, execute_stream, finalize_stream, send_final_status, run,
  validate_and_check_fulfillment,
}

-- The statuses among the responses.
abbrev pub statuses : List StreamResponse → List StatusCode
statuses [] = []
statuses (block_items b ∷ rest) = statuses rest
statuses (status code ∷ rest) = code ∷ statuses rest

-- The status of a code: `Unknown` is not sent.
abbrev pub status_of : StatusCode → List StatusCode
status_of unknown = []
status_of success = success ∷ []
status_of error = error ∷ []
status_of invalid_start_block_number = invalid_start_block_number ∷ []
status_of invalid_end_block_number = invalid_end_block_number ∷ []
status_of not_available = not_available ∷ []

-- The statuses due for a stream that is open, has finished, or has failed: the code of a request that
-- was not valid, and `Error` for every other failure.
abbrev pub due : Progress → List StatusCode
due (next n) = []
due finished = success ∷ []
due (failed (validation code)) = status_of code
due (failed persistence) = error ∷ []
due (failed client_disconnected) = error ∷ []
due (failed stream_lagged) = error ∷ []
due (failed (timeout_waiting_for_block n)) = error ∷ []
due (failed server_shutdown) = error ∷ []
due (failed internal) = error ∷ []

statuses-append : (xs ys : List StreamResponse) → statuses (xs ++ ys) ≡ statuses xs ++ statuses ys
statuses-append [] ys = refl
statuses-append (block_items b ∷ xs) ys = statuses-append xs ys
statuses-append (status code ∷ xs) ys = ap (λ l. code ∷ l) (statuses-append xs ys)

statuses-block :
    (xs : List StreamResponse) (b : Block)
    → statuses xs ≡ []
    → statuses (xs ++ (block_items b ∷ [])) ≡ []
statuses-block xs b h = rw (statuses-append xs (block_items b ∷ []), h) refl

module _ (c : Codec) (r : StreamRequest) where
  statuses-send_block :
      (open_client : Bool) (bytes : Bytes) (n : ℕ) (sent : List StreamResponse)
      → statuses sent ≡ []
      → statuses (send_block c open_client bytes n sent).1 ≡ []
  unfolding send_block
  statuses-send_block open_client bytes n sent h = elim (Option-cases (c.decode bytes)) [
    | inl e ↦ rw (e, send_block) h
    | inr (block, e) ↦ elim (Bool-cases open_client) [
      | inl there ↦ rw (e, send_block, there) (statuses-block sent block h)
      | inr gone ↦ rw (e, send_block, gone) h
    ]
  ]

  statuses-after_read :
      (w : Round) (n : ℕ) (sent : List StreamResponse) (o : Fallible (Option Bytes))
      → statuses sent ≡ []
      → statuses (after_read c w n sent o).1 ≡ []
  unfolding after_read
  statuses-after_read w n sent err h = h
  statuses-after_read w n sent (ok none) h = h
  statuses-after_read w n sent (ok (some bytes)) h =
      statuses-send_block w.client_open bytes n sent h

  statuses-round :
      (w : Round) (n : ℕ) (sent : List StreamResponse)
      → statuses sent ≡ []
      → statuses (round c r w n sent).1 ≡ []
  unfolding round process_next_block
  statuses-round w n sent h = elim (Bool-cases w.shutdown) [
    | inl down ↦ rw (down, round) h
    | inr up ↦ elim (Bool-cases (r.end_block_number == u64_max)) [
      | inl endless ↦ rw (up, round, endless) (statuses-after_read w n sent _ h)
      | inr finite ↦ elim (Bool-cases (ltb r.end_block_number n)) [
        | inl past ↦ rw (up, round, finite, past) h
        | inr more ↦ rw (up, round, finite, more) (statuses-after_read w n sent _ h)
      ]
    ]
  ]

  follow :
      (ws : List Round) (p : Progress) (sent : List StreamResponse)
      → statuses sent ≡ []
      → ((m : ℕ) → statuses (stream c r ws m sent).1 ≡ [])
      → statuses
          (elim p as (λ _. Progress × List StreamResponse) [
            | next m ↦ stream c r ws m sent
            | finished ↦ (finished, sent)
            | failed e ↦ (failed e, sent)
          ]).1
        ≡ []
  follow ws (next m) sent h ih = ih m
  follow ws finished sent h ih = h
  follow ws (failed e) sent h ih = h

  statuses-stream :
      (ws : List Round) (n : ℕ) (sent : List StreamResponse)
      → statuses sent ≡ []
      → statuses (stream c r ws n sent).1 ≡ []
  unfolding stream
  statuses-stream [] n sent h = h
  statuses-stream (w ∷ ws) n sent h =
      let quiet = statuses-round w n sent h in
      follow ws (round c r w n sent).0 (round c r w n sent).1 quiet
        (λ m. statuses-stream ws m (round c r w n sent).1 quiet)

  statuses-execute_stream :
      (lookahead : ℕ) (reader : BlockReader) (ws : List Round)
      → statuses (execute_stream c lookahead r reader ws).1 ≡ []
  unfolding execute_stream
  statuses-execute_stream lookahead reader ws =
      begin_at (validate_and_check_fulfillment lookahead r reader)
    where
      begin_at :
          (k : Checked)
          → statuses
              (elim k as (λ _. Progress × List StreamResponse) [
                | refused e ↦ (failed e, [])
                | start_at n ↦ stream c r ws n []
              ]).1
            ≡ []
      begin_at (refused e) = refl
      begin_at (start_at n) = statuses-stream ws n [] refl

  statuses-code :
      (code : StatusCode) (sent : List StreamResponse)
      → statuses sent ≡ []
      → statuses (send_final_status code true sent) ≡ status_of code
  unfolding send_final_status
  statuses-code unknown sent h = h
  statuses-code success sent h = rw (statuses-append sent (status success ∷ []), h) refl
  statuses-code error sent h = rw (statuses-append sent (status error ∷ []), h) refl
  statuses-code invalid_start_block_number sent h =
      rw (statuses-append sent (status invalid_start_block_number ∷ []), h) refl
  statuses-code invalid_end_block_number sent h =
      rw (statuses-append sent (status invalid_end_block_number ∷ []), h) refl
  statuses-code not_available sent h = rw (statuses-append sent (status not_available ∷ []), h) refl

  statuses-finalize_stream :
      (p : Progress) (sent : List StreamResponse)
      → statuses sent ≡ []
      → statuses (finalize_stream true p sent) ≡ due p
  unfolding finalize_stream to_status_code
  statuses-finalize_stream (next n) sent h = h
  statuses-finalize_stream finished sent h = statuses-code success sent h
  statuses-finalize_stream (failed (validation code)) sent h = statuses-code code sent h
  statuses-finalize_stream (failed persistence) sent h = statuses-code error sent h
  statuses-finalize_stream (failed client_disconnected) sent h = statuses-code error sent h
  statuses-finalize_stream (failed stream_lagged) sent h = statuses-code error sent h
  statuses-finalize_stream (failed (timeout_waiting_for_block n)) sent h =
      statuses-code error sent h
  statuses-finalize_stream (failed server_shutdown) sent h = statuses-code error sent h
  statuses-finalize_stream (failed internal) sent h = statuses-code error sent h

  -- A client that is there to the end is sent no status while its stream is open, and one when it
  -- has ended, for each way in which a stream ends: success when it has finished, when its request was
  -- refused the code of the refusal, unless this is `Unknown`, which is not sent, and `Error` when it
  -- has failed in any other way, also when a read failed or the wait for a block timed out.
  pub statuses-run :
      (lookahead : ℕ) (reader : BlockReader) (ws : List Round)
      → statuses (run c lookahead r reader ws true) ≡ due (execute_stream c lookahead r reader ws).0
  unfolding run
  statuses-run lookahead reader ws =
      statuses-finalize_stream (execute_stream c lookahead r reader ws).0
        (execute_stream c lookahead r reader ws).1 (statuses-execute_stream lookahead reader ws)
