-- ===== src/Subscriber/Request.antt =====
-- Which requests a session accepts, and where it starts.
use rock_node.Base.{
  ℕ, ◌≡◌, ◌≤◌, ◌⊎◌, inr, Option, none, some, arith, ◌==◌, if◌then◌else◌, unwrap_or,
}
use rock_node.Base.Word.{u64_max, add64}
use rock_node.BlockReader.{BlockReader, ok}
use rock_node.Subscriber.{
  StreamRequest, start_at, from_earliest, check_future, check_explicit, check_request, with_latest,
  with_earliest, validate_and_check_fulfillment,
}

-- The start is at most the permitted distance after the latest block, if there is one.
abbrev pub NotAhead : ℕ → ℕ → Option ℕ → Type 0
NotAhead lookahead n none = Unit
NotAhead lookahead n (some latest) = n ≤ add64 latest lookahead

-- A stream for the request may start at block `n`.
pub record Permits (lookahead : ℕ) (r : StreamRequest) (earliest latest : Option ℕ) (n : ℕ)
    : Type 0 where
  pub start :
      n ≡ (if r.start_block_number == u64_max then unwrap_or earliest 0 else r.start_block_number)
  pub before_end : (r.end_block_number ≡ u64_max) ⊎ (n ≤ r.end_block_number)
  pub available : unwrap_or earliest 0 ≤ n
  pub not_ahead : (r.start_block_number ≡ u64_max) ⊎ NotAhead lookahead n latest

module _ (lookahead : ℕ) (r : StreamRequest) (n : ℕ) where
  check_request-Permits :
      (earliest latest : Option ℕ)
      → check_request lookahead r earliest latest ≡ start_at n
      → Permits lookahead r earliest latest n
  unfolding check_request from_earliest check_explicit check_future
  check_request-Permits none none h = record {
    start = ground arith;
    before_end = ground arith;
    available = ground arith;
    not_ahead = inr tt;
  }
  check_request-Permits none (some l) h = record {
    start = ground arith;
    before_end = ground arith;
    available = ground arith;
    not_ahead = ground arith;
  }
  check_request-Permits (some e) none h = record {
    start = ground arith;
    before_end = ground arith;
    available = ground arith;
    not_ahead = inr tt;
  }
  check_request-Permits (some e) (some l) h = record {
    start = ground arith;
    before_end = ground arith;
    available = ground arith;
    not_ahead = ground arith;
  }

  -- A request that is accepted starts where it says, or at the earliest block where it leaves this
  -- open: not behind its end, not before the earliest block, and, if it names its start, not
  -- further ahead of the latest block than configured. The reader reports
  -- both without a fault.
  pub validate-Permits :
      (reader : BlockReader) (earliest latest : Option ℕ)
      → reader.get_earliest_persisted_block_number ≡ ok earliest
      → reader.get_latest_persisted_block_number ≡ ok latest
      → validate_and_check_fulfillment lookahead r reader ≡ start_at n
      → Permits lookahead r earliest latest n
  unfolding validate_and_check_fulfillment with_earliest with_latest
  validate-Permits reader earliest latest e l h =
      check_request-Permits earliest latest (rw (e, l) at h)
