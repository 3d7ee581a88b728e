-- ===== src/Backfill/Checks.antt =====
-- A check of the gaps: what it asks for, how often, and what it leaves in the store.
use mathlib.Core.Path.{subst}
use rock_node.Base.{ℕ, suc, ◌≤◌, ◌≡◌, refl, List, [], ◌∷◌, Option, some, All}
use rock_node.Base.Word.{max}
use rock_node.Block.{Codec}
use rock_node.Rocks.{Rocks, Scan}
use rock_node.Persistence.Db.{Db}
use rock_node.Persistence.Gaps.Ranges.{gap_view}
use rock_node.Persistence.Service.{Config}
use rock_node.Persistence.Service.Contiguity.{IsContiguous}
use rock_node.Persistence.Writes.{HasRoom, write_block-IsContiguous}
use rock_node.Backfill.{
  PeerStatus, available, StreamReply, Network, Worker, stream_from_peer, asked, counted,
  attempt_gap, get_all_gaps, run_single_gap_check,
}
use rock_node.Backfill.Receive.{Serves, db_of, stream_from_peer_keeps}
use rock_node.Backfill.Peers.{
  attempted_worker, HasRange, moves_on, tries_again, one_stream, attempt_cases, after_stream_worker,
  fill_gaps_keeps,
}

-- The range of a recorded gap, without what is below the start block.
abbrev pub GapRange : Config → (ℕ → Option ℕ) → ℕ → ℕ → Type 0
GapRange cfg gaps start end =
    (from : ℕ) × (gaps from ≡ some end) × (start ≡ max from cfg.start_block_number) × (start ≤ end)

-- The peer reported at one of its attempts that it has the range that it was asked for, and this is
-- the range of a recorded gap.
abbrev pub Asked : Config → Network → (ℕ → Option ℕ) → ℕ × (ℕ × ℕ) → Type 0
Asked cfg net gaps (peer, (start, end)) =
    GapRange cfg gaps start end
    × ((k : ℕ) × (status : PeerStatus) × ((net k peer).status ≡ available status)
        × HasRange start end status)

pub ranges-Scan :
    (cfg : Config) (get : ℕ → Option ℕ) (lo : ℕ) (gaps : List (ℕ × ℕ))
    → Scan get lo gaps
    → All
        (λ g.
          max g.0 cfg.start_block_number ≤ g.1
          → GapRange cfg get (max g.0 cfg.start_block_number) g.1)
        gaps
ranges-Scan cfg get lo [] s = tt
ranges-Scan cfg get lo ((from, end) ∷ gaps) s =
    (λ le. (from, s.1, refl, le), ranges-Scan cfg get (suc from) gaps s.3)

module _ {R : Rocks} (c : Codec) (cfg : Config) (net : Network) where
  -- What holds before and is kept by each attempt at a recorded gap, holds after a check.
  pub check_keeps :
      (I : Worker R → Type 0) (w : Worker R)
      → ((peer start end : ℕ) (v : Worker R)
          → GapRange cfg (gap_view w.db) start end
          → I v
          → I (
              attempted_worker
                (attempt_gap c cfg peer start end (net v.attempts peer) (counted peer v))))
      → (peers : List ℕ) → I w
      → I (run_single_gap_check c cfg net peers w)
  unfolding run_single_gap_check get_all_gaps
  check_keeps I w kept peers i =
      fill_gaps_keeps c cfg net I (GapRange cfg (gap_view w.db)) kept peers _ w
        (ranges-Scan cfg (gap_view w.db) 0 _ (R.iter_from-Scan w.db.gaps 0)) i

  -- A predicate on the store that every write keeps.
  pub attempt_keeps :
      (P : Db R → Type 0)
      → ((r : StreamReply) (k peer start end : ℕ) (db : Db R)
          → (net k peer).stream start end ≡ r
          → P db
          → P (db_of (stream_from_peer c cfg r db)))
      → (peer start end : ℕ) (v : Worker R) → P v.db
      → P
          (attempted_worker
            (attempt_gap c cfg peer start end (net v.attempts peer) (counted peer v))).db
  unfolding counted asked
  attempt_keeps P kept peer start end v i =
      elim (attempt_cases c cfg peer start end (net v.attempts peer) (counted peer v)) [
        | moves_on e ↦ rw e i
        | tries_again e ↦ rw e i
        | one_stream status e has a ↦ rw a (
            rw (after_stream_worker c cfg (asked peer start end (counted peer v)) _)
              (kept _ v.attempts peer start end v.db refl i))
      ]

  -- A check keeps the promise of the counters, whatever the peers answer: from block `first` on, all
  -- up to `highest_contiguous` are stored, and each block from there to the latest is stored or
  -- recorded in a gap. No peer sends a block with the number `u64::MAX`.
  pub run_single_gap_check-IsContiguous :
      (cold : ℕ → Type 0) (first : ℕ) (peers : List ℕ) (w : Worker R)
      → ((k peer start end : ℕ) → Serves HasRoom ((net k peer).stream start end))
      → IsContiguous cold cfg first w.db
      → IsContiguous cold cfg first (run_single_gap_check c cfg net peers w).db
  run_single_gap_check-IsContiguous cold first peers w room v =
      check_keeps (λ w. IsContiguous cold cfg first w.db) w
        (λ peer start end w s i.
          attempt_keeps (IsContiguous cold cfg first)
            (λ r k p s e db same i.
              stream_from_peer_keeps c cfg (IsContiguous cold cfg first) HasRoom
                (λ db b q i. write_block-IsContiguous c cfg cold first db b q i) r db
                (subst (Serves HasRoom) same (room k p s e)) i)
            peer start end w i)
        peers v

  -- What a check asks for.
  pub check-Asked :
      (peers : List ℕ) (w : Worker R)
      → All (Asked cfg net (gap_view w.db)) w.requests
      → All (Asked cfg net (gap_view w.db)) (run_single_gap_check c cfg net peers w).requests
  unfolding counted asked
  check-Asked peers w i =
      check_keeps (λ v. All (Asked cfg net (gap_view w.db)) v.requests) w
        (λ peer start end v s i.
          elim (attempt_cases c cfg peer start end (net v.attempts peer) (counted peer v)) [
            | moves_on e ↦ rw e i
            | tries_again e ↦ rw e i
            | one_stream status e has a ↦ rw a (
                rw (after_stream_worker c cfg (asked peer start end (counted peer v)) _)
                  ((s, (v.attempts, status, e, has)), i))
          ])
        peers i
