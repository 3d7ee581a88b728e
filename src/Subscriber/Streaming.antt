-- ===== src/Subscriber/Streaming.antt =====
-- The blocks of a stream with an end: in order, none left out, none twice.
use mathlib.Core.Path.{subst}
use mathlib.Core.List.{append_assoc, append-nil}
use rock_node.Base.{
  ℕ, zero, suc, ◌+◌, ◌-◌, ◌≡◌, ◌≤◌, ◌<◌, refl, sym, ap, ◌∙◌, inl, inr, false, List, [], ◌∷◌, ◌++◌,
  Option, none, some, arith, ltb, ◌==◌, Bool-cases, All,
}
use rock_node.Base.Word.{u64_max, add64-eq}
use rock_node.Block.{Block, Bytes, Codec}
use rock_node.BlockReader.{Fallible, err, ok}
use rock_node.Subscriber.{
  StreamRequest, StreamResponse, block_items, Round, Progress, next, finished, failed,
  SubscriberError, server_shutdown, persistence, client_disconnected, wait_for_new_block,
  send_block, after_wait, after_read, process_next_block, round, stream,
}

-- What the round's reader finds under a number is the encoding of the chain's block.
abbrev pub Reads : Codec → (ℕ → Block) → Round → Type 0
Reads c chain w =
    (n : ℕ) (bytes : Bytes) → w.reader.read_block n ≡ ok (some bytes) → bytes ≡ c.encode (chain n)

-- The responses for `k` blocks from number `n`.
abbrev pub blocks_from : (ℕ → Block) → ℕ → ℕ → List StreamResponse
blocks_from chain n zero = []
blocks_from chain n (suc k) = block_items (chain n) ∷ blocks_from chain (n + 1) k

-- What one round may come to.
data Went (chain : ℕ → Block) (end n : ℕ) (sent : List StreamResponse)
    (r : Progress × List StreamResponse) : Type 0 where
  advanced :
      n ≤ end → r ≡ (next (n + 1), sent ++ (block_items (chain n) ∷ [])) → Went chain end n sent r
  waited : r ≡ (next n, sent) → Went chain end n sent r
  ended : end < n → r ≡ (finished, sent) → Went chain end n sent r
  broke : (e : SubscriberError) → r ≡ (failed e, sent) → Went chain end n sent r

-- A finished stream has sent all to the end; an open one goes on behind what it has sent.
abbrev Ends : ℕ → ℕ → Progress → Type 0
Ends end m finished = m ≡ end + 1
Ends end m (next n) = n ≡ m
Ends end m (failed e) = Unit

count_on : (n k : ℕ) → n + 1 + k ≡ n + suc k
count_on n k = omega arith

record Streamed (chain : ℕ → Block) (end n : ℕ) (sent : List StreamResponse)
    (r : Progress × List StreamResponse) : Type 0 where
  count : ℕ
  responses : r.1 ≡ sent ++ blocks_from chain n count
  within : n + count ≤ end + 1
  ends : Ends end (n + count) r.0

module _ (c : Codec) (chain : ℕ → Block) (r : StreamRequest)
    (finite : r.end_block_number < u64_max) where
  sent-Went :
      (w : Round) (n : ℕ) (sent : List StreamResponse) (bytes : Bytes)
      → n ≤ r.end_block_number
      → bytes ≡ c.encode (chain n)
      → Went chain r.end_block_number n sent (send_block c w.client_open bytes n sent)
  unfolding send_block
  sent-Went w n sent bytes l e = elim (Bool-cases w.client_open) [
    | inl there ↦
        rw (e, send_block, c.decode-encode (chain n), there, add64-eq n 1 (omega (arith, finite)))
          (advanced l refl)
    | inr gone ↦
        rw (e, send_block, c.decode-encode (chain n), gone) (broke client_disconnected refl)
  ]

  waited-Went :
      (n : ℕ) (sent : List StreamResponse) (o : Option SubscriberError)
      → Went chain r.end_block_number n sent (after_wait n o, sent)
  unfolding after_wait
  waited-Went n sent none = waited refl
  waited-Went n sent (some e) = broke e refl

  read-Went :
      (w : Round) (n : ℕ) (sent : List StreamResponse) (o : Fallible (Option Bytes))
      → n ≤ r.end_block_number
      → ((bytes : Bytes) → o ≡ ok (some bytes) → bytes ≡ c.encode (chain n))
      → Went chain r.end_block_number n sent (after_read c w n sent o)
  unfolding after_read
  read-Went w n sent err l h = broke persistence refl
  read-Went w n sent (ok none) l h = waited-Went n sent (wait_for_new_block n w.received)
  read-Went w n sent (ok (some bytes)) l h = sent-Went w n sent bytes l (h bytes refl)

  has_end : (r.end_block_number == u64_max) ≡ false
  has_end = ground (arith, finite)

  round-Went :
      (w : Round) (n : ℕ) (sent : List StreamResponse)
      → Reads c chain w
      → Went chain r.end_block_number n sent (round c r w n sent)
  unfolding round process_next_block
  round-Went w n sent h = elim (Bool-cases w.shutdown) [
    | inl down ↦ rw (down, round) (broke server_shutdown refl)
    | inr up ↦ elim (Bool-cases (ltb r.end_block_number n)) [
      | inl past ↦ rw (up, round, has_end, past) (ended (ground arith) refl)
      | inr more ↦
          rw (up, round, has_end, more)
            (read-Went w n sent (w.reader.read_block n) (ground arith) (h n))
    ]
  ]

  stream-next :
      (w : Round) (ws : List Round) (n m : ℕ) (sent sent' : List StreamResponse)
      → round c r w n sent ≡ (next m, sent')
      → stream c r (w ∷ ws) n sent ≡ stream c r ws m sent'
  unfolding stream
  stream-next w ws n m sent sent' e = rw (ap (λ p. p.0) e, ap (λ p. p.1) e, stream) refl

  stream-finished :
      (w : Round) (ws : List Round) (n : ℕ) (sent : List StreamResponse)
      → round c r w n sent ≡ (finished, sent)
      → stream c r (w ∷ ws) n sent ≡ (finished, sent)
  unfolding stream
  stream-finished w ws n sent e = rw (ap (λ p. p.0) e, ap (λ p. p.1) e, stream) refl

  stream-failed :
      (w : Round) (ws : List Round) (n : ℕ) (sent : List StreamResponse) (fault : SubscriberError)
      → round c r w n sent ≡ (failed fault, sent)
      → stream c r (w ∷ ws) n sent ≡ (failed fault, sent)
  unfolding stream
  stream-failed w ws n sent fault e = rw (ap (λ p. p.0) e, ap (λ p. p.1) e, stream) refl

  -- One block, then the rest of the stream.
  Streamed-next :
      (n : ℕ) (sent : List StreamResponse) (p : Progress × List StreamResponse)
      → Streamed chain r.end_block_number (n + 1) (sent ++ (block_items (chain n) ∷ [])) p
      → Streamed chain r.end_block_number n sent p
  Streamed-next n sent p t = record {
    count = suc t.count;
    responses = t.responses ∙ append_assoc sent (block_items (chain n) ∷ []) _;
    within = omega (arith, t.within);
    ends = subst (λ m. Ends r.end_block_number m p.0) (count_on n t.count) t.ends;
  }

  Streamed-none :
      (n : ℕ) (sent : List StreamResponse) (p : Progress)
      → n ≤ r.end_block_number + 1
      → Ends r.end_block_number (n + 0) p
      → Streamed chain r.end_block_number n sent (p, sent)
  Streamed-none n sent p l e = record {
    count = 0;
    responses = sym (append-nil sent);
    within = omega arith;
    ends = e;
  }

  stream-round :
      (w : Round) (ws : List Round) (n : ℕ) (sent : List StreamResponse)
      → n ≤ r.end_block_number + 1
      → Went chain r.end_block_number n sent (round c r w n sent)
      → ((m : ℕ) (sent' : List StreamResponse)
          → m ≤ r.end_block_number + 1
          → Streamed chain r.end_block_number m sent' (stream c r ws m sent'))
      → Streamed chain r.end_block_number n sent (stream c r (w ∷ ws) n sent)
  stream-round w ws n sent l (advanced m e) ih =
      rw (stream-next w ws n (n + 1) sent _ e) (Streamed-next n sent _ (ih (n + 1) _ (omega arith)))
  stream-round w ws n sent l (waited e) ih = rw (stream-next w ws n n sent sent e) (ih n sent l)
  stream-round w ws n sent l (ended m e) ih =
      rw (stream-finished w ws n sent e) (Streamed-none n sent finished l (omega arith))
  stream-round w ws n sent l (broke fault e) ih =
      rw (stream-failed w ws n sent fault e) (Streamed-none n sent (failed fault) l tt)

  stream-Streamed :
      (ws : List Round) (n : ℕ) (sent : List StreamResponse)
      → All (Reads c chain) ws
      → n ≤ r.end_block_number + 1
      → Streamed chain r.end_block_number n sent (stream c r ws n sent)
  unfolding stream
  stream-Streamed [] n sent a l = record {
    count = 0;
    responses = sym (append-nil sent);
    within = omega arith;
    ends = omega arith;
  }
  stream-Streamed (w ∷ ws) n sent a l =
      stream-round w ws n sent l (round-Went w n sent a.0)
        (λ m sent' k. stream-Streamed ws m sent' a.1 k)

  -- A stream with an end, over a reader that finds the blocks of one chain: whatever happens, what
  -- it has sent are the chain's blocks from the first one on, in order, none left out and none
  -- twice, and none behind the end. It starts at most one behind the end, which is not `u64::MAX`.
  pub stream-in_order :
      (ws : List Round) (n : ℕ)
      → All (Reads c chain) ws
      → n ≤ r.end_block_number + 1
      → (k : ℕ) × ((stream c r ws n []).1 ≡ blocks_from chain n k)
        × (n + k ≤ r.end_block_number + 1)
  stream-in_order ws n a l = let t = stream-Streamed ws n [] a l in (t.count, t.responses, t.within)

  finished_count :
      (n k : ℕ) (p : Progress)
      → p ≡ finished
      → Ends r.end_block_number (n + k) p
      → k ≡ r.end_block_number + 1 - n
  finished_count n k finished h e = omega arith
  finished_count n k (next m) h e = cc
  finished_count n k (failed fault) h e = cc

  -- A stream that finishes has sent every block of the chain from the first one to the end. It is
  -- over a reader that finds the blocks of this chain, and starts at most one behind the end, which
  -- is not `u64::MAX`.
  pub stream-delivered :
      (ws : List Round) (n : ℕ)
      → All (Reads c chain) ws
      → n ≤ r.end_block_number + 1
      → (stream c r ws n []).0 ≡ finished
      → (stream c r ws n []).1 ≡ blocks_from chain n (r.end_block_number + 1 - n)
  stream-delivered ws n a l h =
      let t = stream-Streamed ws n [] a l in
      t.responses ∙ ap (blocks_from chain n) (finished_count n t.count _ h t.ends)
