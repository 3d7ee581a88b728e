-- ===== src/Backfill/Peers.antt =====
-- The loops over the attempts, the peers and the gaps: what every attempt keeps, a check keeps.
use mathlib.Core.Path.{subst}
use rock_node.Base.{
  inl, inr, ℕ, zero, suc, ◌≤◌, ◌≡◌, refl, ◌||◌, List, [], ◌∷◌, arith, ltb, All, Bool-cases,
}
use rock_node.Base.Word.{max}
use rock_node.Block.{Codec}
use rock_node.Rocks.{Rocks}
use rock_node.Persistence.Service.{Config}
use rock_node.Backfill.{
  PeerStatus, StatusReply, bad_address, unreachable, available, Streamed, finished, aborted, Answer,
  Network, Worker, Attempted, done, next_peer, retry, Tried, filled, not_filled, peer_retry_limit,
  stream_from_peer, asked, counted, after_stream, attempt_gap, try_peer, fill_gap, fill_gaps,
}
use rock_node.Backfill.Receive.{db_of}

abbrev pub attempted_worker : {R : Rocks} → Attempted R → Worker R
attempted_worker (done w) = w
attempted_worker (next_peer w) = w
attempted_worker (retry w) = w

abbrev pub tried_worker : {R : Rocks} → Tried R → Worker R
tried_worker (filled w) = w
tried_worker (not_filled w) = w

-- The peer has the range.
abbrev pub HasRange : ℕ → ℕ → PeerStatus → Type 0
HasRange start end status =
    (status.first_available_block ≤ start) × (end ≤ status.last_available_block)

module _ {R : Rocks} (c : Codec) (cfg : Config) where
  pub after_stream_worker :
      (w : Worker R) (s : Streamed R)
      → attempted_worker (after_stream w s) ≡ record w { db = db_of s }
  unfolding after_stream
  after_stream_worker w (finished db) = refl
  after_stream_worker w (aborted db) = refl

  -- An attempt asks for nothing, or for the range from a peer that has it.
  pub data AttemptIs (peer start end : ℕ) (answer : Answer) (w : Worker R) : Type 0 where
    moves_on :
        attempt_gap c cfg peer start end answer w ≡ next_peer w → AttemptIs peer start end answer w
    tries_again :
        attempt_gap c cfg peer start end answer w ≡ retry w → AttemptIs peer start end answer w
    one_stream :
        (status : PeerStatus)
        → answer.status ≡ available status
        → HasRange start end status
        → attempt_gap c cfg peer start end answer w
          ≡ after_stream
              (asked peer start end w)
              (stream_from_peer c cfg (answer.stream start end) w.db)
        → AttemptIs peer start end answer w

  pub attempt_cases :
      (peer start end : ℕ) (answer : Answer) (w : Worker R) → AttemptIs peer start end answer w
  unfolding attempt_gap
  attempt_cases peer start end answer w = by_status answer.status refl
    where
      by_status : (s : StatusReply) → answer.status ≡ s → AttemptIs peer start end answer w
      by_status bad_address e = tries_again (simp (e, attempt_gap) refl)
      by_status unreachable e = moves_on (simp (e, attempt_gap) refl)
      by_status (available s) e =
          elim (Bool-cases (ltb start s.first_available_block || ltb s.last_available_block end)) [
            | inl lacks ↦ moves_on (simp (e, attempt_gap) (rw lacks refl))
            | inr has ↦
                one_stream s e (ground arith, ground arith) (simp (e, attempt_gap) (rw has refl))
          ]

  module _ (net : Network) (I : Worker R → Type 0) (S : ℕ → ℕ → Type 0)
      (kept : (peer start end : ℕ) (w : Worker R)
        → S start end
        → I w
        → I (
            attempted_worker
              (attempt_gap c cfg peer start end (net w.attempts peer) (counted peer w)))) where
    try_peer_keeps :
        (peer start end left : ℕ) (w : Worker R)
        → S start end
        → I w
        → I (tried_worker (try_peer c cfg net peer start end left w))
    unfolding try_peer
    try_peer_keeps peer start end zero w s i =
        last_try (attempt_gap c cfg peer start end (net w.attempts peer) (counted peer w)) refl
      where
        last_try :
            (a : Attempted R)
            → attempt_gap c cfg peer start end (net w.attempts peer) (counted peer w) ≡ a
            → I (tried_worker (try_peer c cfg net peer start end 0 w))
        last_try (done w') e =
            rw (e, try_peer) (subst (λ a. I (attempted_worker a)) e (kept peer start end w s i))
        last_try (next_peer w') e =
            rw (e, try_peer) (subst (λ a. I (attempted_worker a)) e (kept peer start end w s i))
        last_try (retry w') e =
            rw (e, try_peer) (subst (λ a. I (attempted_worker a)) e (kept peer start end w s i))
    try_peer_keeps peer start end (suc left) w s i =
        this_try (attempt_gap c cfg peer start end (net w.attempts peer) (counted peer w)) refl
          (λ w' i'. try_peer_keeps peer start end left w' s i')
      where
        this_try :
            (a : Attempted R)
            → attempt_gap c cfg peer start end (net w.attempts peer) (counted peer w) ≡ a
            → ((w' : Worker R)
                → I w'
                → I (tried_worker (try_peer c cfg net peer start end left w')))
            → I (tried_worker (try_peer c cfg net peer start end (suc left) w))
        this_try (done w') e rest =
            rw (e, try_peer) (subst (λ a. I (attempted_worker a)) e (kept peer start end w s i))
        this_try (next_peer w') e rest =
            rw (e, try_peer) (subst (λ a. I (attempted_worker a)) e (kept peer start end w s i))
        this_try (retry w') e rest =
            rw (e, try_peer)
              (rest w' (subst (λ a. I (attempted_worker a)) e (kept peer start end w s i)))

    pub fill_gap_keeps :
        (peers : List ℕ) (start end : ℕ) (w : Worker R)
        → S start end
        → I w
        → I (fill_gap c cfg net peers start end w)
    unfolding fill_gap
    fill_gap_keeps [] start end w s i = i
    fill_gap_keeps (peer ∷ peers) start end w s i =
        tried (try_peer c cfg net peer start end peer_retry_limit w) refl
          (λ w' i'. fill_gap_keeps peers start end w' s i')
      where
        tried :
            (t : Tried R)
            → try_peer c cfg net peer start end peer_retry_limit w ≡ t
            → ((w' : Worker R) → I w' → I (fill_gap c cfg net peers start end w'))
            → I (fill_gap c cfg net (peer ∷ peers) start end w)
        tried (filled w') e rest =
            rw (e, fill_gap)
              (subst (λ t. I (tried_worker t)) e
                (try_peer_keeps peer start end peer_retry_limit w s i))
        tried (not_filled w') e rest =
            rw (e, fill_gap)
              (rest w' (
                subst (λ t. I (tried_worker t)) e
                  (try_peer_keeps peer start end peer_retry_limit w s i)))

    pub fill_gaps_keeps :
        (peers : List ℕ) (gaps : List (ℕ × ℕ)) (w : Worker R)
        → All
            (λ g. max g.0 cfg.start_block_number ≤ g.1 → S (max g.0 cfg.start_block_number) g.1)
            gaps
        → I w
        → I (fill_gaps c cfg net peers gaps w)
    unfolding fill_gaps
    fill_gaps_keeps peers [] w s i = i
    fill_gaps_keeps peers ((start, end) ∷ gaps) w s i =
        let from = max start cfg.start_block_number in
        elim (Bool-cases (ltb end from)) [
          | inl before ↦ rw before (fill_gaps_keeps peers gaps w s.1 i)
          | inr there ↦ rw there (
              fill_gaps_keeps peers gaps (fill_gap c cfg net peers from end w) s.1
                (fill_gap_keeps peers from end w (s.0 (ground arith)) i))
        ]
