-- ===== src/Backfill/Attempts.antt =====
-- How many attempts a check makes, and what it asks for.
use rock_node.Base.{
  ℕ, zero, suc, ◌+◌, ◌*◌, ◌≤◌, ◌≡◌, refl, inl, inr, List, [], ◌∷◌, arith, ltb, ◌==◌, length, All,
  if◌then◌else◌, Bool-cases,
}
use native.Mathlib.Nat.{suc-mul, mul-suc}
use rock_node.Base.Word.{max}
use rock_node.Block.{Codec}
use rock_node.Rocks.{Rocks}
use rock_node.Persistence.Gaps.Ranges.{gap_view}
use rock_node.Persistence.Service.{Config}
use rock_node.Backfill.{
  Network, Worker, Attempted, done, next_peer, retry, Tried, filled, not_filled, peer_retry_limit,
  asked, counted, attempt_gap, try_peer, fill_gap, fill_gaps, get_all_gaps, run_single_gap_check,
}
use rock_node.Backfill.Peers.{
  attempted_worker, tried_worker, moves_on, tries_again, one_stream, attempt_cases,
  after_stream_worker,
}
use rock_node.Backfill.Checks.{Asked, check-Asked}

-- How often the peer stands in the list.
abbrev pub count : ℕ → List ℕ → ℕ
count p [] = 0
count p (q ∷ qs) = (if q == p then 1 else 0) + count p qs

-- 1 where the two peers are the same, else 0.
abbrev one : ℕ → ℕ → ℕ
one p peer = count p (peer ∷ [])

module _ {R : Rocks} (c : Codec) (cfg : Config) (net : Network) (p : ℕ) where
  -- The attempts at peer `p` so far.
  abbrev at : Worker R → ℕ
  at w = count p w.attempted

  abbrev this_try : ℕ → ℕ → ℕ → Worker R → Attempted R
  this_try peer start end w =
      attempt_gap c cfg peer start end (net w.attempts peer) (counted peer w)

  one_attempt :
      (peer start end : ℕ) (w : Worker R)
      → at (attempted_worker (this_try peer start end w)) ≡ one p peer + at w
  unfolding counted asked
  one_attempt peer start end w =
      elim (attempt_cases c cfg peer start end (net w.attempts peer) (counted peer w)) [
        | moves_on e ↦ rw e (omega arith)
        | tries_again e ↦ rw e (omega arith)
        | one_stream status e has a ↦
            rw a (
              rw (after_stream_worker c cfg (asked peer start end (counted peer w)) _)
                (omega arith))
      ]

  try_peer_attempts :
      (peer start end left : ℕ) (w : Worker R)
      → at (tried_worker (try_peer c cfg net peer start end left w)) ≤ at w + one p peer * suc left
  unfolding try_peer
  try_peer_attempts peer start end zero w =
      on_try (this_try peer start end w) refl (one_attempt peer start end w)
    where
      on_try :
          (a : Attempted R)
          → this_try peer start end w ≡ a
          → at (attempted_worker (this_try peer start end w)) ≡ one p peer + at w
          → at (tried_worker (try_peer c cfg net peer start end 0 w)) ≤ at w + one p peer * 1
      on_try (done w') e n = rw (e, try_peer) (let k = rw e at n in omega arith)
      on_try (next_peer w') e n = rw (e, try_peer) (let k = rw e at n in omega arith)
      on_try (retry w') e n = rw (e, try_peer) (let k = rw e at n in omega arith)
  try_peer_attempts peer start end (suc left) w =
      on_try (this_try peer start end w) refl (one_attempt peer start end w)
        (λ w'. try_peer_attempts peer start end left w')
    where
      more : one p peer * suc (suc left) ≡ one p peer * suc left + one p peer
      more = mul-suc (one p peer) (suc left)

      on_try :
          (a : Attempted R)
          → this_try peer start end w ≡ a
          → at (attempted_worker (this_try peer start end w)) ≡ one p peer + at w
          → ((w' : Worker R)
              → at (tried_worker (try_peer c cfg net peer start end left w'))
                ≤ at w' + one p peer * suc left)
          → at (tried_worker (try_peer c cfg net peer start end (suc left) w))
            ≤ at w + one p peer * suc (suc left)
      on_try (done w') e n rest = rw (e, try_peer) (let k = rw e at n in omega (arith, more))
      on_try (next_peer w') e n rest = rw (e, try_peer) (let k = rw e at n in omega (arith, more))
      on_try (retry w') e n rest =
          rw (e, try_peer) (let k = rw e at n in omega (arith, more, rest w'))

  fill_gap_attempts :
      (peers : List ℕ) (start end : ℕ) (w : Worker R)
      → at (fill_gap c cfg net peers start end w) ≤ at w + count p peers * 4
  unfolding fill_gap
  fill_gap_attempts [] start end w = omega arith
  fill_gap_attempts (peer ∷ peers) start end w =
      on_peer (try_peer c cfg net peer start end peer_retry_limit w) refl
        (try_peer_attempts peer start end peer_retry_limit w)
        (λ w'. fill_gap_attempts peers start end w')
    where
      on_peer :
          (t : Tried R)
          → try_peer c cfg net peer start end peer_retry_limit w ≡ t
          → at (tried_worker (try_peer c cfg net peer start end peer_retry_limit w))
            ≤ at w + one p peer * 4
          → ((w' : Worker R)
              → at (fill_gap c cfg net peers start end w') ≤ at w' + count p peers * 4)
          → at (fill_gap c cfg net (peer ∷ peers) start end w) ≤ at w + count p (peer ∷ peers) * 4
      on_peer (filled w') e n rest = rw (e, fill_gap) (let k = rw e at n in omega arith)
      on_peer (not_filled w') e n rest =
          rw (e, fill_gap) (let k = rw e at n in omega (arith, rest w'))

  one_gap :
      (peers : List ℕ) (from end : ℕ) (w : Worker R)
      → at (if ltb end from then w else fill_gap c cfg net peers from end w)
        ≤ at w + count p peers * 4
  one_gap peers from end w = elim (Bool-cases (ltb end from)) [
    | inl before ↦ rw before (omega arith)
    | inr there ↦ rw there (fill_gap_attempts peers from end w)
  ]

  fill_gaps_attempts :
      (peers : List ℕ) (gaps : List (ℕ × ℕ)) (w : Worker R)
      → at (fill_gaps c cfg net peers gaps w) ≤ at w + length gaps * (count p peers * 4)
  unfolding fill_gaps
  fill_gaps_attempts peers [] w = omega arith
  fill_gaps_attempts peers ((start, end) ∷ gaps) w =
      let from = max start cfg.start_block_number in
      let w' = if ltb end from then w else fill_gap c cfg net peers from end w in
      omega (
        arith,
        fill_gaps_attempts peers gaps w',
        one_gap peers from end w,
        suc-mul (length gaps) (count p peers * 4),
      )

-- At each peer, a check makes at most four attempts for each recorded gap, and for each time that the
-- peer stands in the list; every stream that it asks for is the whole range of a gap that was
-- recorded before the check, from the start block on, and its peer has reported that it has this
-- range. What was asked for before the check was so too.
pub run_single_gap_check-Asked :
    {R : Rocks} (c : Codec) (cfg : Config) (net : Network) (peers : List ℕ) (w : Worker R) (p : ℕ)
    → All (Asked cfg net (gap_view w.db)) w.requests
    → (count p (run_single_gap_check c cfg net peers w).attempted
        ≤ count p w.attempted + length (get_all_gaps w.db) * (count p peers * 4))
      × All (Asked cfg net (gap_view w.db)) (run_single_gap_check c cfg net peers w).requests
unfolding run_single_gap_check
run_single_gap_check-Asked c cfg net peers w p asked_before = (
  fill_gaps_attempts c cfg net p peers (get_all_gaps w.db) w,
  check-Asked c cfg net peers w asked_before,
)
