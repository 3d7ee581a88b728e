-- ===== src/Backfill/Continuous.antt =====
-- The continuous cycle at a peer that has just what is stored already.
use rock_node.Base.{
  ℕ, zero, suc, ◌+◌, ◌^◌, ◌<◌, ◌≡◌, refl, ap, ◌∙◌, true, false, List, ◌∷◌, some, arith, ltb,
}
use rock_node.Base.Signed.{pos, as_i64}
use rock_node.Block.{Codec}
use rock_node.Rocks.{Rocks}
use rock_node.Persistence.Service.{Config}
use rock_node.Backfill.{
  PeerStatus, available, Answer, Network, Worker, wait, staying, at_peer, local_latest, next_i64,
  counted, peer_retry_limit, follow_from, attempt_follow, follow_peer, run_continuous_stream_cycle,
}

-- The peer's status, whenever it is asked, has block `n` as the last one.
abbrev pub StandsAt : ℕ → Network → ℕ → Type 0
StandsAt n net peer =
    (k : ℕ)
    → (status : PeerStatus) × ((net k peer).status ≡ available status)
      × (status.last_available_block ≡ n)

positive_i64 : (n : ℕ) → n < 2 ^ 63 → as_i64 n ≡ pos n
unfolding as_i64
positive_i64 n h = ground arith

module _ {R : Rocks} (c : Codec) (cfg : Config) (net : Network) (peer n : ℕ)
    (small : n + 1 < 2 ^ 63) (stands : StandsAt n net peer) where
  follow_from-wait :
      (answer : Answer) (w : Worker R) → follow_from c cfg peer (pos n) (pos n) answer w ≡ wait w
  unfolding follow_from next_i64
  follow_from-wait answer w =
      let next = positive_i64 (suc n) (omega arith) in
      let same : ltb n n ≡ false = ground arith in
      let behind : ltb n (suc n) ≡ true = ground arith in
      let above : ltb 0 (suc n) ≡ true = ground arith in
      rw (next, follow_from) (rw (same, behind) (rw above refl))

  attempt_follow-wait :
      (k : ℕ) (w : Worker R) → attempt_follow c cfg peer (pos n) (net k peer) w ≡ wait w
  unfolding attempt_follow
  attempt_follow-wait k w =
      let (status, e, last) = stands k in
      let at : as_i64 status.last_available_block ≡ pos n =
        ap as_i64 last ∙ positive_i64 n (omega arith) in
      simp (e, attempt_follow)
        (ap (λ l. follow_from c cfg peer (pos n) l (net k peer) w) at
          ∙ follow_from-wait (net k peer) w)

  follow_peer-staying :
      (fuel left : ℕ) (w : Worker R)
      → (w' : Worker R) × (follow_peer c cfg net peer (pos n) fuel left w ≡ staying w')
  unfolding follow_peer
  follow_peer-staying zero left w = (w, refl)
  follow_peer-staying (suc fuel) left w =
      let (w', e) = follow_peer-staying fuel left (counted peer w) in
      (w', rw (attempt_follow-wait w.attempts (counted peer w), follow_peer) e)

  -- A peer that is always there and has just the blocks up to the latest stored one holds the cycle
  -- for good: however many rounds there are, the cycle is still at this peer, and turns to none of
  -- the peers behind it. The latest block's number is below 2^63 - 1.
  pub run_continuous_stream_cycle-at_peer :
      (fuel : ℕ) (peers : List ℕ) (w : Worker R)
      → w.db.metadata.latest_persisted ≡ some n
      → (w' : Worker R) × (run_continuous_stream_cycle c cfg net fuel (peer ∷ peers) w
          ≡ at_peer peer w')
  unfolding run_continuous_stream_cycle local_latest
  run_continuous_stream_cycle-at_peer fuel peers w e =
      let (w', stays) = follow_peer-staying fuel peer_retry_limit w in
      let latest : local_latest w.db.metadata.latest_persisted ≡ pos n =
        ap local_latest e ∙ positive_i64 n (omega arith) in
      (w', simp (latest, run_continuous_stream_cycle) (simp (stays) refl))
