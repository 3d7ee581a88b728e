-- ===== src/Backfill/AllFilled.antt =====
-- A check of the gaps with a peer that serves what it reports: all gaps are filled.
use mathlib.Core.Path.{subst}
use rock_node.Base.{
  some_inj, ℕ, suc, ◌≤◌, ◌<◌, ◌≡◌, sym, ap, ◌∙◌, inl, inr, false, List, [], ◌∷◌, ◌++◌, none, some,
  arith, ltb, ◌==◌, if◌then◌else◌, All, Bool-cases,
}
use rock_node.Base.Word.{max, max_cases}
use rock_node.Block.{Codec}
use rock_node.Rocks.{Rocks, Scan}
use rock_node.Persistence.Gaps.Ranges.{gap_view}
use rock_node.Persistence.Service.{Config}
use rock_node.Backfill.{
  Message, block_items, other_response, stream_error, StreamReply, refused, streaming, Network,
  Worker, fill_gap, fill_gaps, get_all_gaps, run_single_gap_check,
}
use rock_node.Backfill.Receive.{OnBlocks, Serves, stream_from_peer_keeps, IsHot, IsHot-write_block}
use rock_node.Backfill.Peers.{fill_gaps_keeps}
use rock_node.Backfill.Checks.{GapRange, ranges-Scan, attempt_keeps}
use rock_node.Backfill.Filled.{IsHonest, Provides, RangeHot, fill_gap_hot}

-- What holds of all that an iterator yields holds of each entry.
Scan_at :
    (P : ℕ × ℕ → Type 0) (get : _) (lo : ℕ) (xs : List (ℕ × ℕ)) (k v : ℕ)
    → Scan get lo xs
    → All P xs
    → lo ≤ k
    → get k ≡ some v
    → P (k, v)
Scan_at P get lo [] k v s a le e = absurd (no_entry (sym (s k le) ∙ e))
  where
    no_entry : none ≡ some v → ⊥
    no_entry h = cc
Scan_at P get lo ((i, w) ∷ xs) k v s a le e = elim (Bool-cases (ltb k i)) [
  | inl low ↦ absurd (no_entry (sym (s.2 k le (ground arith)) ∙ e))
  | inr high ↦ elim (Bool-cases (i == k)) [
    | inr other ↦ Scan_at P get (suc i) xs k v s.3 a.1 (ground arith) e
    | inl same ↦
        let at : i ≡ k = ground arith in
        let value : w ≡ v = some_inj (sym s.1 ∙ (ap get at ∙ e)) in
        subst (λ x. P (k, x)) value (subst (λ x. P (x, w)) at a.0)
  ]
]
  where
    no_entry : none ≡ some v → ⊥
    no_entry h = cc

any_message : (ms : List Message) → All (OnBlocks (λ b. Unit {0})) ms
any_message [] = tt
any_message (block_items b ∷ ms) = (tt, any_message ms)
any_message (other_response ∷ ms) = (tt, any_message ms)
any_message (stream_error ∷ ms) = (tt, any_message ms)

Serves-any : (r : StreamReply) → Serves (λ b. Unit {0}) r
Serves-any refused = tt
Serves-any (streaming ms) = any_message ms

any_gap :
    (cfg : Config) (gaps : List (ℕ × ℕ))
    → All (λ g. max g.0 cfg.start_block_number ≤ g.1 → Unit {0}) gaps
any_gap cfg [] = tt
any_gap cfg (g ∷ gaps) = (λ l. tt, any_gap cfg gaps)

module _ {R : Rocks} (c : Codec) (cfg : Config) (net : Network) where
  gaps_stay-IsHot :
      (peers : List ℕ) (gaps : List (ℕ × ℕ)) (w : Worker R) (n : ℕ)
      → IsHot w.db n
      → IsHot (fill_gaps c cfg net peers gaps w).db n
  gaps_stay-IsHot peers gaps w n h =
      fill_gaps_keeps c cfg net (λ w. IsHot w.db n) (λ start end. Unit {0})
        (λ peer start end v s i.
          attempt_keeps c cfg net (λ db. IsHot db n)
            (λ r k p s e db same i.
              stream_from_peer_keeps c cfg (λ db. IsHot db n) (λ b. Unit {0})
                (λ db b q i. IsHot-write_block c cfg db b n i) r db (Serves-any r) i)
            peer start end v i)
        peers gaps w (any_gap cfg gaps) h

  module _ (before after : List ℕ) (peer : ℕ) (S : ℕ → ℕ → Type 0)
      (size : 0 < cfg.archive_batch_size)
      (honest : (start end k other : ℕ) → IsHonest start end ((net k other).stream start end))
      (provides : (start end k : ℕ) → S start end → Provides start end (net k peer)) where
    -- Each gap of the list is filled, and stays so.
    fill_gaps_hot :
        (gaps : List (ℕ × ℕ)) (w : Worker R)
        → All
            (λ g. max g.0 cfg.start_block_number ≤ g.1 → S (max g.0 cfg.start_block_number) g.1)
            gaps
        → All
            (λ g.
              RangeHot
                (max g.0 cfg.start_block_number)
                g.1
                (fill_gaps c cfg net (before ++ (peer ∷ after)) gaps w).db)
            gaps
    unfolding fill_gaps
    fill_gaps_hot [] w s = tt
    fill_gaps_hot ((start, end) ∷ gaps) w s =
        let peers = before ++ (peer ∷ after) in
        let from = max start cfg.start_block_number in
        let w' = if ltb end from then w else fill_gap c cfg net peers from end w in
        (
          λ n l m.
              let reaches : ltb end from ≡ false = ground arith in
              gaps_stay-IsHot peers gaps w' n (
                rw reaches (
                  fill_gap_hot c cfg from end size net before after peer w
                    (λ k other. honest from end k other)
                    (λ k. provides from end k (s.0 (omega arith))) n l m)),
          fill_gaps_hot gaps w' s.1,
        )

-- After a check every block of a gap that was recorded before, from the start block on, is in the
-- hot tier: if one of the peers, wherever it stands among them, has the gaps and streams them whole,
-- and the other peers, where they do not stream what they are asked for, end with an error. The
-- archiver's batch size is not 0.
pub run_single_gap_check-filled :
    {R : Rocks} (c : Codec) (cfg : Config) (net : Network) (before after : List ℕ) (peer : ℕ)
    (w : Worker R) (from end n : ℕ)
    → 0 < cfg.archive_batch_size
    → ((start end k other : ℕ) → IsHonest start end ((net k other).stream start end))
    → ((start end k : ℕ) → GapRange cfg (gap_view w.db) start end → Provides start end (net k peer))
    → gap_view w.db from ≡ some end
    → from ≤ n
    → cfg.start_block_number ≤ n
    → n ≤ end
    → IsHot (run_single_gap_check c cfg net (before ++ (peer ∷ after)) w).db n
unfolding run_single_gap_check get_all_gaps
run_single_gap_check-filled {R} c cfg net before after peer w from end n size honest provides gap l
      start m =
    let gaps = R.iter_from w.db.gaps 0 in
    let scan = R.iter_from-Scan w.db.gaps 0 in
    Scan_at
      (λ g.
        RangeHot (max g.0 cfg.start_block_number) g.1
          (fill_gaps c cfg net (before ++ (peer ∷ after)) gaps w).db)
      (gap_view w.db) 0 gaps from end scan
      (fill_gaps_hot c cfg net before after peer (GapRange cfg (gap_view w.db)) size honest provides
        gaps w (ranges-Scan cfg (gap_view w.db) 0 gaps scan))
      (omega arith) gap n (max_cases from cfg.start_block_number n l start) m
