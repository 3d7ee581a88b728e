-- ===== src/Subscriber/Tests.antt =====
-- The theorems on subscribers' streams at concrete inputs.
use rock_node.Base.{
  ℕ, ◌+◌, ◌-◌, ◌≡◌, ◌≤◌, ◌<◌, refl, List, [], ◌∷◌, Option, none, some, true, false, All, arith, inl,
  inr, leb, Bool-cases, if◌then◌else◌,
}
use rock_node.Base.Word.{u64_max, add64}
use rock_node.Block.{Bytes}
use rock_node.Samples.{sample_codec, sample_block, encode}
use rock_node.BlockReader.{BlockReader, Fallible, ok}
use rock_node.Subscriber.{
  run, execute_stream, StreamRequest, Round, persisted, finished, stream, round, process_next_block,
  after_read, send_block, after_wait, wait_for_new_block, start_at, validate_and_check_fulfillment,
  check_request, check_explicit, check_future, with_earliest, with_latest,
}
use rock_node.Subscriber.Status.{statuses, due, statuses-run}
use rock_node.Subscriber.Request.{Permits, validate-Permits}
use rock_node.Subscriber.Streaming.{Reads, blocks_from, stream-in_order, stream-delivered}

-- A reader that has the blocks up to `top`.
abbrev find : ℕ → ℕ → Fallible (Option Bytes)
find top n = if leb n top then ok (some (encode (sample_block n))) else ok none

abbrev reader : (ℕ → Fallible (Option Bytes)) → BlockReader
reader f = record {
  get_latest_persisted_block_number = ok (some 3);
  get_earliest_persisted_block_number = ok (some 3);
  read_block = f;
  get_highest_contiguous_block_number = ok 3;
}

abbrev request : StreamRequest
request = record { start_block_number = 3; end_block_number = 4 }

abbrev meets : BlockReader → Round
meets r = record { shutdown = false; reader = r; client_open = true; received = persisted 4 ∷ [] }

-- Block 3 is sent, block 4 is waited for, then sent.
abbrev rounds : List Round
rounds =
    meets (reader (find 3))
    ∷ meets (reader (find 3))
    ∷ meets (reader (find 4))
    ∷ meets (reader (find 4))
    ∷ []

below : request.end_block_number < u64_max
below = ground arith

found : (top n : ℕ) (bytes : Bytes) → find top n ≡ ok (some bytes) → bytes ≡ encode (sample_block n)
found top n bytes h = elim (Bool-cases (leb n top)) [
  | inl there ↦
      let same : ok (some (encode (sample_block n))) ≡ ok (some bytes) = rw there at h in cc
  | inr missing ↦ let same : ok none ≡ ok (some bytes) = rw missing at h in cc
]

faithful : All (Reads sample_codec sample_block) rounds
faithful = (found 3, (found 3, (found 4, (found 4, tt))))

done : (stream sample_codec request rounds 3 []).0 ≡ finished
unfolding stream round process_next_block after_read send_block after_wait wait_for_new_block add64
done = refl

stream-in_order_example :
    (k : ℕ) × ((stream sample_codec request rounds 3 []).1 ≡ blocks_from sample_block 3 k)
    × (3 + k ≤ request.end_block_number + 1)
stream-in_order_example =
    stream-in_order sample_codec sample_block request below rounds 3 faithful (ground arith)

stream-delivered_example :
    (stream sample_codec request rounds 3 []).1
    ≡ blocks_from sample_block 3 (request.end_block_number + 1 - 3)
stream-delivered_example =
    stream-delivered sample_codec sample_block request below rounds 3 faithful (ground arith) done

accepted : validate_and_check_fulfillment 10 request (reader (find 4)) ≡ start_at 3
unfolding validate_and_check_fulfillment with_earliest with_latest check_request check_explicit
    check_future add64
accepted = refl

validate-Permits_example : Permits 10 request (some 3) (some 3) 3
validate-Permits_example =
    validate-Permits 10 request 3 (reader (find 4)) (some 3) (some 3) refl refl accepted

statuses-run_example :
    statuses (run sample_codec 10 request (reader (find 4)) rounds true)
    ≡ due (execute_stream sample_codec 10 request (reader (find 4)) rounds).0
statuses-run_example = statuses-run sample_codec request 10 (reader (find 4)) rounds
