-- ===== src/Backfill/Filled.antt =====
-- A check with a peer that serves what it reports: the gaps are filled.
use rock_node.Base.{
  ◌++◌, ℕ, zero, suc, ◌-◌, ◌≤◌, ◌<◌, ◌≡◌, refl, ◌⊎◌, inl, inr, false, ◌||◌, List, [], ◌∷◌, arith,
  ltb,
}
use rock_node.Block.{Codec}
use rock_node.Rocks.{Rocks}
use rock_node.Persistence.Db.{Db}
use rock_node.Persistence.Service.{Config, Written, malformed, written, panicked, write_block}
use rock_node.Backfill.{
  PeerStatus, available, Answer, StreamReply, refused, streaming, Message, block_items,
  other_response, stream_error, finished, aborted, Network, Worker, Attempted, done, next_peer,
  retry, Tried, filled, not_filled, peer_retry_limit, receive, stream_from_peer, asked, counted,
  after_stream, attempt_gap, try_peer, fill_gap,
}
use rock_node.Backfill.Receive.{InOrder, IsHot, receive-InOrder}
use rock_node.Backfill.Peers.{HasRange, moves_on, tries_again, one_stream, attempt_cases}

-- The stream breaks off with an error.
abbrev pub Breaks : List Message → Type 0
Breaks [] = ⊥
Breaks (stream_error ∷ ms) = Unit
Breaks (block_items b ∷ ms) = Breaks ms
Breaks (other_response ∷ ms) = Breaks ms

-- What is streamed is the range in order, or breaks off with an error.
abbrev pub IsHonest : ℕ → ℕ → StreamReply → Type 0
IsHonest start end refused = Unit
IsHonest start end (streaming ms) = InOrder start (suc end - start) ms ⊎ Breaks ms

-- The peer has the range, and streams it whole.
abbrev pub Provides : ℕ → ℕ → Answer → Type 0
Provides start end answer =
    (status : PeerStatus) × (ms : List Message) × (answer.status ≡ available status)
    × HasRange start end status
    × (answer.stream start end ≡ streaming ms)
    × InOrder start (suc end - start) ms

-- All blocks of the range are in the hot tier.
abbrev pub RangeHot : {R : Rocks} → ℕ → ℕ → Db R → Type 0
RangeHot start end db = (n : ℕ) → start ≤ n → n ≤ end → IsHot db n

abbrev HotIfDone : {R : Rocks} → ℕ → ℕ → Attempted R → Type 0
HotIfDone start end (done w) = RangeHot start end w.db
HotIfDone start end (next_peer w) = Unit
HotIfDone start end (retry w) = Unit

abbrev HotIfFilled : {R : Rocks} → ℕ → ℕ → Tried R → Type 0
HotIfFilled start end (filled w) = RangeHot start end w.db
HotIfFilled start end (not_filled w) = Unit

module _ {R : Rocks} (c : Codec) (cfg : Config) where
  receive-Breaks :
      (ms : List Message) (db : Db R)
      → Breaks ms
      → (db' : Db R) × (receive c cfg ms db ≡ aborted db')
  unfolding receive
  receive-Breaks [] db b = absurd b
  receive-Breaks (stream_error ∷ ms) db b = (db, refl)
  receive-Breaks (other_response ∷ ms) db b = receive-Breaks ms db b
  receive-Breaks (block_items items ∷ ms) db b =
      on_write (write_block c cfg db items) refl (λ db'. receive-Breaks ms db' b)
    where
      on_write :
          (w : Written R)
          → write_block c cfg db items ≡ w
          → ((db' : Db R) → (db'' : Db R) × (receive c cfg ms db' ≡ aborted db''))
          → (db'' : Db R) × (receive c cfg (block_items items ∷ ms) db ≡ aborted db'')
      on_write malformed e rest = (db, rw (e, receive) refl)
      on_write (panicked db') e rest = (db', rw (e, receive) refl)
      on_write (written db' notified) e rest = let (db'', r) = rest db' in (db'', rw (e, receive) r)

  module _ (start end : ℕ) (size : 0 < cfg.archive_batch_size) where
    streamed_hot :
        (ms : List Message) (db : Db R)
        → InOrder start (suc end - start) ms
        → (db' : Db R) × (receive c cfg ms db ≡ finished db') × RangeHot start end db'
    streamed_hot ms db o =
        let (db', r, stored) = receive-InOrder c cfg start (suc end - start) ms db size o in
        (db', r, λ n l m. stored n (inl (l, omega arith)))

    after_stream_hot :
        (r : StreamReply) (w : Worker R) (db : Db R)
        → IsHonest start end r
        → HotIfDone start end (after_stream w (stream_from_peer c cfg r db))
    unfolding after_stream stream_from_peer
    after_stream_hot refused w db h = tt
    after_stream_hot (streaming ms) w db (inl o) =
        let (db', r, hot) = streamed_hot ms db o in rw (r, after_stream) hot
    after_stream_hot (streaming ms) w db (inr b) =
        let (db', r) = receive-Breaks ms db b in rw (r, after_stream) tt

    attempt_hot :
        (peer : ℕ) (answer : Answer) (w : Worker R)
        → IsHonest start end (answer.stream start end)
        → HotIfDone start end (attempt_gap c cfg peer start end answer w)
    attempt_hot peer answer w h = elim (attempt_cases c cfg peer start end answer w) [
      | moves_on e ↦ rw e tt
      | tries_again e ↦ rw e tt
      | one_stream status e has a ↦
          rw a (after_stream_hot (answer.stream start end) (asked peer start end w) w.db h)
    ]

    attempt_done :
        (peer : ℕ) (answer : Answer) (w : Worker R)
        → Provides start end answer
        → (w' : Worker R) × (attempt_gap c cfg peer start end answer w ≡ done w')
          × RangeHot start end w'.db
    unfolding attempt_gap after_stream stream_from_peer asked
    attempt_done peer answer w (status, ms, e, has, s, o) =
        let (db', r, hot) = streamed_hot ms w.db o in
        let here : (ltb start status.first_available_block || ltb status.last_available_block end)
            ≡ false =
          ground (arith, has.0, has.1) in
        (
          record (asked peer start end w) { db = db' },
          simp (e, attempt_gap) (rw (here) (rw (s, stream_from_peer) (rw (r, after_stream) refl))),
          hot,
        )

    module _ (net : Network) where
      try_peer_hot :
          (peer left : ℕ) (w : Worker R)
          → ((k : ℕ) → IsHonest start end ((net k peer).stream start end))
          → HotIfFilled start end (try_peer c cfg net peer start end left w)
      unfolding try_peer
      try_peer_hot peer zero w h =
          on_try (attempt_gap c cfg peer start end (net w.attempts peer) (counted peer w)) refl
            (attempt_hot peer (net w.attempts peer) (counted peer w) (h w.attempts))
        where
          on_try :
              (a : Attempted R)
              → attempt_gap c cfg peer start end (net w.attempts peer) (counted peer w) ≡ a
              → HotIfDone start end
                  (attempt_gap c cfg peer start end (net w.attempts peer) (counted peer w))
              → HotIfFilled start end (try_peer c cfg net peer start end 0 w)
          on_try (done w') e hot = rw (e, try_peer) (rw e at hot)
          on_try (next_peer w') e hot = rw (e, try_peer) tt
          on_try (retry w') e hot = rw (e, try_peer) tt
      try_peer_hot peer (suc left) w h =
          on_try (attempt_gap c cfg peer start end (net w.attempts peer) (counted peer w)) refl
            (attempt_hot peer (net w.attempts peer) (counted peer w) (h w.attempts))
            (λ w'. try_peer_hot peer left w' h)
        where
          on_try :
              (a : Attempted R)
              → attempt_gap c cfg peer start end (net w.attempts peer) (counted peer w) ≡ a
              → HotIfDone start end
                  (attempt_gap c cfg peer start end (net w.attempts peer) (counted peer w))
              → ((w' : Worker R)
                  → HotIfFilled start end (try_peer c cfg net peer start end left w'))
              → HotIfFilled start end (try_peer c cfg net peer start end (suc left) w)
          on_try (done w') e hot rest = rw (e, try_peer) (rw e at hot)
          on_try (next_peer w') e hot rest = rw (e, try_peer) tt
          on_try (retry w') e hot rest = rw (e, try_peer) (rest w')

      try_peer_filled :
          (peer left : ℕ) (w : Worker R)
          → ((k : ℕ) → Provides start end (net k peer))
          → (w' : Worker R) × (try_peer c cfg net peer start end left w ≡ filled w')
            × RangeHot start end w'.db
      unfolding try_peer
      try_peer_filled peer zero w p =
          let (w', a, hot) =
            attempt_done peer (net w.attempts peer) (counted peer w) (p w.attempts) in
          (w', rw (a, try_peer) refl, hot)
      try_peer_filled peer (suc left) w p =
          let (w', a, hot) =
            attempt_done peer (net w.attempts peer) (counted peer w) (p w.attempts) in
          (w', rw (a, try_peer) refl, hot)

      -- With a peer among them that provides the range, the range is filled.
      pub fill_gap_hot :
          (before after : List ℕ) (peer : ℕ) (w : Worker R)
          → ((k other : ℕ) → IsHonest start end ((net k other).stream start end))
          → ((k : ℕ) → Provides start end (net k peer))
          → RangeHot start end (fill_gap c cfg net (before ++ (peer ∷ after)) start end w).db
      unfolding fill_gap
      fill_gap_hot [] after peer w h p =
          let (w', t, hot) = try_peer_filled peer peer_retry_limit w p in rw (t, fill_gap) hot
      fill_gap_hot (other ∷ before) after peer w h p =
          on_peer (try_peer c cfg net other start end peer_retry_limit w) refl
            (try_peer_hot other peer_retry_limit w (λ k. h k other))
            (λ w'. fill_gap_hot before after peer w' h p)
        where
          on_peer :
              (t : Tried R)
              → try_peer c cfg net other start end peer_retry_limit w ≡ t
              → HotIfFilled start end (try_peer c cfg net other start end peer_retry_limit w)
              → ((w' : Worker R)
                  → RangeHot start end
                      (fill_gap c cfg net (before ++ (peer ∷ after)) start end w').db)
              → RangeHot start end
                  (fill_gap c cfg net (other ∷ (before ++ (peer ∷ after))) start end w).db
          on_peer (filled w') e hot rest = rw (e, fill_gap) (rw e at hot)
          on_peer (not_filled w') e hot rest = rw (e, fill_gap) (rest w')
