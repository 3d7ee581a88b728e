-- ===== src/Backfill/External.antt =====
-- `stream_blocks_from_peers` of worker.rs: a stream of blocks for other programs. The order of the
-- peers, which is drawn anew for each round, is a parameter.
use mathlib.Core.Path.{subst}
use rock_node.Base.{
  ◌++◌, ap, ◌∙◌, ℕ, zero, suc, ◌≡◌, refl, ◌&&◌, List, [], ◌∷◌, Option, none, some, ltb, ◌==◌,
  if◌then◌else◌, unwrap_or,
}
use rock_node.Base.Word.{u64_max}
use rock_node.Base.Results.{Fallible, err, ok}
use rock_node.Block.{Block}
use rock_node.Backfill.{
  bad_address, unreachable, available, Message, block_items, other_response, stream_error,
  StreamReply, refused, streaming, Answer, Network, peer_retry_limit,
}

abbrev max_peer_connection_attempts : ℕ
max_peer_connection_attempts = 5

-- What the spawned task sends on: the blocks, up to the first error, which it sends too.
unfoldable forward : List Message → List (Fallible Block)
forward [] = []
forward (block_items items ∷ messages) = ok items ∷ forward messages
forward (other_response ∷ messages) = forward messages
forward (stream_error ∷ messages) = err ∷ []

unfoldable open_stream : StreamReply → Fallible (Option (List (Fallible Block)))
unfolding forward
open_stream refused = err
open_stream (streaming messages) = ok (some (forward messages))

-- The checks of the range against the peer's latest block.
unfoldable connect : ℕ → ℕ → ℕ → Answer → Fallible (Option (List (Fallible Block)))
unfolding open_stream
connect start end peer_latest answer =
    if ltb end start
    then err
    else if ltb peer_latest start && end == u64_max
    then open_stream (answer.stream start end)
    else if ltb peer_latest start
    then ok none
    else open_stream (answer.stream start end)

unfoldable pub try_connect_and_stream :
    Option ℕ → Option ℕ → Answer → Fallible (Option (List (Fallible Block)))
unfolding connect
try_connect_and_stream start end answer = elim answer.status [
  | bad_address ↦ err
  | unreachable ↦ err
  | available status ↦
      connect (unwrap_or start status.last_available_block) (unwrap_or end u64_max)
        status.last_available_block answer
]

-- What the attempts come to: the stream, or the number of attempts so far.
pub data Connected : Type 0 where
  connected : ℕ → List (Fallible Block) → Connected
  not_connected : ℕ → Connected

module _ (start end : Option ℕ) (net : Network) where
  -- The attempts at one peer, with `left` retries left, after `attempts` attempts.
  unfoldable connect_peer : ℕ → ℕ → ℕ → Connected
  connect_peer peer zero attempts = elim (try_connect_and_stream start end (net attempts peer)) [
    | err ↦ not_connected (suc attempts)
    | ok none ↦ not_connected (suc attempts)
    | ok (some blocks) ↦ connected attempts blocks
  ]
  connect_peer peer (suc left) attempts =
      elim (try_connect_and_stream start end (net attempts peer)) [
        | err ↦ connect_peer peer left (suc attempts)
        | ok none ↦ not_connected (suc attempts)
        | ok (some blocks) ↦ connected attempts blocks
      ]

  unfoldable connect_peers : List ℕ → ℕ → Connected
  unfolding connect_peer
  connect_peers [] attempts = not_connected attempts
  connect_peers (peer ∷ peers) attempts = elim (connect_peer peer peer_retry_limit attempts) [
    | connected k blocks ↦ connected k blocks
    | not_connected k ↦ connect_peers peers k
  ]

  -- The rounds that are left, each with the order of its peers.
  unfoldable connect_rounds : (ℕ → List ℕ) → ℕ → ℕ → Connected
  unfolding connect_peers
  connect_rounds order zero attempts = not_connected attempts
  connect_rounds order (suc left) attempts = elim (connect_peers (order left) attempts) [
    | connected k blocks ↦ connected k blocks
    | not_connected k ↦ connect_rounds order left k
  ]

  unfoldable pub stream_blocks_from_peers : (ℕ → List ℕ) → Connected
  unfolding connect_rounds
  stream_blocks_from_peers order = connect_rounds order max_peer_connection_attempts 0

  -- What is reported of the attempts: the stream is the one that some peer gave at its attempt.
  abbrev IsServed : Connected → Type 0
  IsServed (connected k blocks) =
      (peer : ℕ) × (try_connect_and_stream start end (net k peer) ≡ ok (some blocks))
  IsServed (not_connected k) = Unit

  connect_peer-IsServed : (peer left attempts : ℕ) → IsServed (connect_peer peer left attempts)
  unfolding connect_peer
  connect_peer-IsServed peer zero attempts =
      on_try (try_connect_and_stream start end (net attempts peer)) refl
    where
      on_try :
          (r : Fallible (Option (List (Fallible Block))))
          → try_connect_and_stream start end (net attempts peer) ≡ r
          → IsServed (connect_peer peer 0 attempts)
      on_try err e = rw (e, connect_peer) tt
      on_try (ok none) e = rw (e, connect_peer) tt
      on_try (ok (some blocks)) e = rw (e, connect_peer) (peer, e)
  connect_peer-IsServed peer (suc left) attempts =
      on_try (try_connect_and_stream start end (net attempts peer)) refl
        (connect_peer-IsServed peer left (suc attempts))
    where
      on_try :
          (r : Fallible (Option (List (Fallible Block))))
          → try_connect_and_stream start end (net attempts peer) ≡ r
          → IsServed (connect_peer peer left (suc attempts))
          → IsServed (connect_peer peer (suc left) attempts)
      on_try err e rest = rw (e, connect_peer) rest
      on_try (ok none) e rest = rw (e, connect_peer) tt
      on_try (ok (some blocks)) e rest = rw (e, connect_peer) (peer, e)

  connect_peers-IsServed : (peers : List ℕ) (attempts : ℕ) → IsServed (connect_peers peers attempts)
  unfolding connect_peers
  connect_peers-IsServed [] attempts = tt
  connect_peers-IsServed (peer ∷ peers) attempts =
      on_peer (connect_peer peer peer_retry_limit attempts) refl
        (connect_peer-IsServed peer peer_retry_limit attempts) (λ k. connect_peers-IsServed peers k)
    where
      on_peer :
          (r : Connected)
          → connect_peer peer peer_retry_limit attempts ≡ r
          → IsServed (connect_peer peer peer_retry_limit attempts)
          → ((k : ℕ) → IsServed (connect_peers peers k))
          → IsServed (connect_peers (peer ∷ peers) attempts)
      on_peer (connected k blocks) e served rest = rw (e, connect_peers) (rw e at served)
      on_peer (not_connected k) e served rest = rw (e, connect_peers) (rest k)

  -- The peer gives a stream whenever it is asked.
  abbrev pub AlwaysServes : ℕ → Type 0
  AlwaysServes peer =
      (k : ℕ)
      → (blocks : List (Fallible Block)) × (try_connect_and_stream start end (net k peer)
          ≡ ok (some blocks))

  connect_peers-connected :
      (before after : List ℕ) (peer attempts : ℕ)
      → AlwaysServes peer
      → (k : ℕ) × (blocks : List (Fallible Block)) × (connect_peers
            (before ++ (peer ∷ after))
            attempts
          ≡ connected k blocks)
  unfolding connect_peers connect_peer
  connect_peers-connected [] after peer attempts serves =
      let (blocks, e) = serves attempts in (attempts, blocks, rw (e, connect_peers) refl)
  connect_peers-connected (other ∷ before) after peer attempts serves =
      on_peer (connect_peer other peer_retry_limit attempts) refl
        (λ k. connect_peers-connected before after peer k serves)
    where
      on_peer :
          (r : Connected)
          → connect_peer other peer_retry_limit attempts ≡ r
          → ((k : ℕ)
              → (j : ℕ) × (blocks : List (Fallible Block)) × (connect_peers
                    (before ++ (peer ∷ after))
                    k
                  ≡ connected j blocks))
          → (j : ℕ) × (blocks : List (Fallible Block)) × (connect_peers
                (other ∷ (before ++ (peer ∷ after)))
                attempts
              ≡ connected j blocks)
      on_peer (connected k blocks) e rest = (k, blocks, rw (e, connect_peers) refl)
      on_peer (not_connected k) e rest =
          let (j, blocks, f) = rest k in (j, blocks, rw (e, connect_peers) f)

  -- If one of the peers, wherever it stands, gives a stream whenever it is asked, a stream is
  -- returned in the first round, and it is the one that some peer gave at its attempt.
  pub stream_blocks_from_peers-connected :
      (order : ℕ → List ℕ) (before after : List ℕ) (peer : ℕ)
      → order 4 ≡ before ++ (peer ∷ after)
      → AlwaysServes peer
      → (k : ℕ) × (blocks : List (Fallible Block)) × (stream_blocks_from_peers order
          ≡ connected k blocks)
        × ((server : ℕ) × (try_connect_and_stream start end (net k server) ≡ ok (some blocks)))
  unfolding stream_blocks_from_peers connect_rounds
  stream_blocks_from_peers-connected order before after peer first serves =
      let (k, blocks, e) = connect_peers-connected before after peer 0 serves in
      let round : connect_peers (order 4) 0 ≡ connected k blocks =
        ap (λ l. connect_peers l 0) first ∙ e in
      let served : IsServed (connected k blocks) =
        subst IsServed round (connect_peers-IsServed (order 4) 0) in
      (k, blocks, rw (round, connect_rounds) refl, served)
