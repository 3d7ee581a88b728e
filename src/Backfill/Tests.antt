-- ===== src/Backfill/Tests.antt =====
-- The backfill on concrete peers, over a store that holds blocks 1 and 4.
use rock_node.Base.{
  some, ℕ, zero, suc, ◌+◌, ◌-◌, ◌*◌, ◌≤◌, ◌<◌, ◌≡◌, refl, inl, inr, true, List, [], ◌∷◌, arith, ltb,
  if◌then◌else◌, length, All, Bool-cases,
}
use rock_node.Base.Word.{u64_max, max}
use rock_node.Block.{Block, get_block_number}
use rock_node.Samples.{sample_codec, sample_block}
use rock_node.Rocks.Table.{table_rocks}
use rock_node.Persistence.Gaps.Ranges.{gap_view}
use rock_node.Persistence.Service.Contiguity.{IsContiguous}
use rock_node.Persistence.Writes.{HasRoom, first_block}
use rock_node.Persistence.Tests.{
  settings, gapped, gapped_two, gapped_latest, NothingCold, room, gapped_promise,
}
use rock_node.Backfill.{
  available, unreachable, Message, block_items, other_response, StreamReply, refused, streaming,
  Network, Worker, get_all_gaps, run_single_gap_check, run_continuous_stream_cycle, at_peer,
}
use rock_node.Backfill.Receive.{OnBlocks, Serves, InOrder, IsHot}
use rock_node.Backfill.Checks.{GapRange, Asked, run_single_gap_check-IsContiguous}
use rock_node.Backfill.Filled.{IsHonest, Provides}
use rock_node.Backfill.AllFilled.{run_single_gap_check-filled}
use rock_node.Backfill.Attempts.{count, run_single_gap_check-Asked}
use rock_node.Base.Results.{Fallible, ok}
use rock_node.Backfill.External.{
  connected, try_connect_and_stream, stream_blocks_from_peers, stream_blocks_from_peers-connected,
}
use rock_node.Backfill.Continuous.{run_continuous_stream_cycle-at_peer}

-- The blocks, and the status with which a peer ends its stream.
abbrev blocks_from : ℕ → ℕ → List Message
blocks_from n zero = other_response ∷ []
blocks_from n (suc count) = block_items (sample_block n) ∷ blocks_from (n + 1) count

abbrev range : ℕ → ℕ → StreamReply
range start end =
    if ltb end u64_max then streaming (blocks_from start (suc end - start)) else refused

-- Peer 0 cannot be reached, and the others have every block.
abbrev sample_net : Network
sample_net attempt zero = record { status = unreachable; stream = λ start end. refused }
sample_net attempt (suc peer) = record {
  status = available (record { first_available_block = 0; last_available_block = u64_max });
  stream = range;
}

-- A peer that has the blocks up to 4.
abbrev net_at_four : Network
net_at_four attempt peer = record {
  status = available (record { first_available_block = 0; last_available_block = 4 });
  stream = λ start end. refused;
}

abbrev sample_worker : Worker table_rocks
sample_worker = record { db = gapped; attempts = 0; attempted = []; requests = [] }

blocks-InOrder : (n count : ℕ) → InOrder n count (blocks_from n count)
unfolding get_block_number
blocks-InOrder n zero = tt
blocks-InOrder n (suc count) = (refl, blocks-InOrder (n + 1) count)

blocks-HasRoom : (n count : ℕ) → n + count ≤ u64_max → All (OnBlocks HasRoom) (blocks_from n count)
blocks-HasRoom n zero h = (tt, tt)
blocks-HasRoom n (suc count) h = (room n (omega arith), blocks-HasRoom (n + 1) count (omega arith))

range-HasRoom : (start end : ℕ) → Serves HasRoom (range start end)
range-HasRoom start end = elim (Bool-cases (ltb end u64_max)) [
  | inr big ↦ rw big tt
  | inl small ↦ rw small (elim (Bool-cases (ltb end start)) [
    | inl none_left ↦ let nothing : suc end - start ≡ 0 = ground arith in rw nothing (tt, tt)
    | inr some_left ↦ blocks-HasRoom start (suc end - start) (ground arith)
  ])
]

net-HasRoom : (k peer start end : ℕ) → Serves HasRoom ((sample_net k peer).stream start end)
net-HasRoom k zero start end = tt
net-HasRoom k (suc peer) start end = range-HasRoom start end

net-IsHonest : (start end k peer : ℕ) → IsHonest start end ((sample_net k peer).stream start end)
net-IsHonest start end k zero = tt
net-IsHonest start end k (suc peer) = elim (Bool-cases (ltb end u64_max)) [
  | inr big ↦ rw big tt
  | inl small ↦ rw small (inl (blocks-InOrder start (suc end - start)))
]

net-Provides :
    (start end k : ℕ)
    → GapRange settings (gap_view gapped) start end
    → Provides start end (sample_net k 1)
net-Provides start end k (from, gap, e, le) =
    let below : end < u64_max = gapped_promise.gaps.below from end gap in
    let small : ltb end u64_max ≡ true = ground arith in
    (
      record { first_available_block = 0; last_available_block = u64_max },
      blocks_from start (suc end - start),
      refl,
      (omega arith, omega arith),
      rw small refl,
      blocks-InOrder start (suc end - start),
    )

run_single_gap_check-IsContiguous_example :
    IsContiguous NothingCold settings
      (first_block settings)
      (run_single_gap_check sample_codec settings sample_net (0 ∷ 1 ∷ []) sample_worker).db
run_single_gap_check-IsContiguous_example =
    run_single_gap_check-IsContiguous sample_codec settings sample_net NothingCold
      (first_block settings) (0 ∷ 1 ∷ []) sample_worker net-HasRoom gapped_promise

run_single_gap_check-filled_example :
    IsHot (run_single_gap_check sample_codec settings sample_net (0 ∷ 1 ∷ []) sample_worker).db 3
unfolding max
run_single_gap_check-filled_example =
    run_single_gap_check-filled sample_codec settings sample_net (0 ∷ []) [] 1 sample_worker 2 3 3
      (omega arith) net-IsHonest net-Provides gapped_two (omega arith) (omega arith) (omega arith)

run_single_gap_check-Asked_example :
    (count 1
        (run_single_gap_check sample_codec settings sample_net (0 ∷ 1 ∷ []) sample_worker).attempted
      ≤ 0 + length (get_all_gaps gapped) * (1 * 4))
    × All
        (Asked settings sample_net (gap_view gapped))
        (run_single_gap_check sample_codec settings sample_net (0 ∷ 1 ∷ []) sample_worker).requests
run_single_gap_check-Asked_example =
    run_single_gap_check-Asked sample_codec settings sample_net (0 ∷ 1 ∷ []) sample_worker 1 tt

served_range :
    (k : ℕ)
    → (blocks : List (Fallible Block)) × (try_connect_and_stream (some 2) (some 3) (sample_net k 1)
        ≡ ok (some blocks))
unfolding try_connect_and_stream
served_range k = (_, refl)

stream_blocks_from_peers-connected_example :
    (k : ℕ) × (blocks : List (Fallible Block)) × (stream_blocks_from_peers
        (some 2)
        (some 3)
        sample_net
        (λ round. 0 ∷ 1 ∷ [])
      ≡ connected k blocks)
    × ((server : ℕ) × (try_connect_and_stream (some 2) (some 3) (sample_net k server)
          ≡ ok (some blocks)))
stream_blocks_from_peers-connected_example =
    stream_blocks_from_peers-connected (some 2) (some 3) sample_net (λ round. 0 ∷ 1 ∷ []) (0 ∷ [])
      [] 1 refl served_range

run_continuous_stream_cycle-at_peer_example :
    (w' : Worker table_rocks) × (run_continuous_stream_cycle sample_codec settings net_at_four 1000
        (7 ∷ 8 ∷ [])
        sample_worker
      ≡ at_peer 7 w')
run_continuous_stream_cycle-at_peer_example =
    run_continuous_stream_cycle-at_peer sample_codec settings net_at_four 7 4 (omega arith)
      (λ k. (record { first_available_block = 0; last_available_block = 4 }, refl, refl)) 1000
      (8 ∷ []) sample_worker gapped_latest
