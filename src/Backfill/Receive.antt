-- ===== src/Backfill/Receive.antt =====
-- What one stream of blocks leaves in the store.
use mathlib.Core.Path.{subst}
use rock_node.Base.{
  ℕ, zero, suc, ◌+◌, ◌*◌, ◌/◌, ◌≤◌, ◌<◌, ◌≢◌, ◌≡◌, refl, ap, ◌∙◌, ◌⊎◌, inl, inr, Bool, true, false,
  List, [], ◌∷◌, some, arith, ◌==◌, is_some, All, Option-cases, Bool-cases,
}
use rock_node.Block.{Block, Codec, get_block_number}
use rock_node.Rocks.{Rocks}
use rock_node.Persistence.Db.{Db}
use rock_node.Persistence.Service.{
  Config, Written, malformed, written, panicked, after_commit, write_block,
}
use rock_node.Persistence.State.{find_containing_gap, is_batch_skipped}
use rock_node.Persistence.Service.After.{after_write, get-after_write}
use rock_node.Persistence.Plugin.{state_after}
use rock_node.Persistence.Writes.{state_after-write_block, write_malformed}
use rock_node.Backfill.{
  Message, block_items, other_response, stream_error, StreamReply, refused, streaming, Streamed,
  finished, aborted, receive, stream_from_peer,
}

abbrev pub db_of : {R : Rocks} → Streamed R → Db R
db_of (finished db) = db
db_of (aborted db) = db

-- A predicate at the block of a message.
abbrev pub OnBlocks : (Block → Type 0) → Message → Type 0
OnBlocks Q (block_items b) = Q b
OnBlocks Q other_response = Unit
OnBlocks Q stream_error = Unit

abbrev pub Serves : (Block → Type 0) → StreamReply → Type 0
Serves Q refused = Unit
Serves Q (streaming ms) = All (OnBlocks Q) ms

-- Blocks with the numbers from `n` up to, not including, `n + count`, each a message; statuses and
-- other responses may stand between them and at the end.
abbrev pub InOrder : ℕ → ℕ → List Message → Type 0
InOrder n zero [] = Unit
InOrder n (suc count) [] = ⊥
InOrder n zero (block_items b ∷ ms) = ⊥
InOrder n (suc count) (block_items b ∷ ms) =
    (get_block_number b ≡ some n) × InOrder (n + 1) count ms
InOrder n zero (other_response ∷ ms) = InOrder n zero ms
InOrder n (suc count) (other_response ∷ ms) = InOrder n (suc count) ms
InOrder n zero (stream_error ∷ ms) = ⊥
InOrder n (suc count) (stream_error ∷ ms) = ⊥

abbrev pub IsHot : {R : Rocks} → Db R → ℕ → Type 0
IsHot {R} db n = is_some (R.get db.hot_blocks n) ≡ true

module _ {R : Rocks} (c : Codec) (cfg : Config) where
  -- What every write keeps, a stream keeps.
  module _ (P : Db R → Type 0) (Q : Block → Type 0)
      (kept : (db : Db R) (b : Block)
        → Q b
        → P db
        → P (state_after db (write_block c cfg db b))) where
    pub receive_keeps :
        (ms : List Message) (db : Db R)
        → All (OnBlocks Q) ms
        → P db
        → P (db_of (receive c cfg ms db))
    unfolding receive state_after
    receive_keeps [] db q p = p
    receive_keeps (stream_error ∷ ms) db q p = p
    receive_keeps (other_response ∷ ms) db q p = receive_keeps ms db q.1 p
    receive_keeps (block_items b ∷ ms) db q p =
        on_write (write_block c cfg db b) refl (λ db' p'. receive_keeps ms db' q.1 p')
      where
        on_write :
            (w : Written R)
            → write_block c cfg db b ≡ w
            → ((db' : Db R) → P db' → P (db_of (receive c cfg ms db')))
            → P (db_of (receive c cfg (block_items b ∷ ms) db))
        on_write malformed e rest = rw (e, receive) p
        on_write (panicked db') e rest =
            rw (e, receive) (subst (λ w. P (state_after db w)) e (kept db b q.0 p))
        on_write (written db' notified) e rest =
            rw (e, receive) (rest db' (subst (λ w. P (state_after db w)) e (kept db b q.0 p)))

    pub stream_from_peer_keeps :
        (r : StreamReply) (db : Db R) → Serves Q r → P db → P (db_of (stream_from_peer c cfg r db))
    unfolding stream_from_peer
    stream_from_peer_keeps refused db q p = p
    stream_from_peer_keeps (streaming ms) db q p = receive_keeps ms db q p

  pub IsHot-write_block :
      (db : Db R) (b : Block) (n : ℕ)
      → IsHot db n
      → IsHot (state_after db (write_block c cfg db b)) n
  IsHot-write_block db b n h = elim (Option-cases (get_block_number b)) [
    | inl e ↦ rw (write_malformed c cfg db b e) h
    | inr (k, e) ↦
        rw (state_after-write_block c cfg db b k e) (ground (arith, get-after_write c cfg db b k n))
  ]

  IsHot-written :
      (db : Db R) (b : Block) (n : ℕ)
      → get_block_number b ≡ some n
      → IsHot (state_after db (write_block c cfg db b)) n
  IsHot-written db b n e =
      rw (state_after-write_block c cfg db b n e) (ground (arith, get-after_write c cfg db b n n))

  after_commit-written :
      (db : Db R) (n : ℕ) (gap : Bool)
      → 0 < cfg.archive_batch_size
      → (db' : Db R) × (notified : Bool) × (after_commit cfg db n gap ≡ written db' notified)
  unfolding after_commit
  after_commit-written db n true size =
      let no : cfg.archive_batch_size == 0 ≡ false = ground arith in
      (db, is_batch_skipped db (n / cfg.archive_batch_size * cfg.archive_batch_size), rw no refl)
  after_commit-written db n false size = (db, false, refl)

  -- A block with a number is written, where the batch size of the archiver is not 0.
  write_block-written :
      (db : Db R) (b : Block) (n : ℕ)
      → 0 < cfg.archive_batch_size
      → get_block_number b ≡ some n
      → (db' : Db R) × (notified : Bool) × (write_block c cfg db b ≡ written db' notified)
  unfolding write_block
  write_block-written db b n size e =
      let (db', notified, w) =
        after_commit-written (after_write c cfg db b n) n (is_some (find_containing_gap db n))
          size in
      (db', notified, rw (e, write_block) w)

  -- A stream of the blocks in order is written whole.
  pub receive-InOrder :
      (n count : ℕ) (ms : List Message) (db : Db R)
      → 0 < cfg.archive_batch_size
      → InOrder n count ms
      → (db' : Db R) × (receive c cfg ms db ≡ finished db')
        × ((j : ℕ) → (n ≤ j) × (j < n + count) ⊎ IsHot db j → IsHot db' j)
  unfolding receive state_after
  receive-InOrder n zero [] db size o = (db, refl, stored)
    where
      stored : (j : ℕ) → (n ≤ j) × (j < n + 0) ⊎ IsHot db j → IsHot db j
      stored j (inl h) = absurd (omega (arith, h.0, h.1))
      stored j (inr h) = h
  receive-InOrder n zero (block_items b ∷ ms) db size o = absurd o
  receive-InOrder n zero (other_response ∷ ms) db size o = receive-InOrder n zero ms db size o
  receive-InOrder n zero (stream_error ∷ ms) db size o = absurd o
  receive-InOrder n (suc count) [] db size o = absurd o
  receive-InOrder n (suc count) (other_response ∷ ms) db size o =
      receive-InOrder n (suc count) ms db size o
  receive-InOrder n (suc count) (stream_error ∷ ms) db size o = absurd o
  receive-InOrder n (suc count) (block_items b ∷ ms) db size o =
      let (db', notified, w) = write_block-written db b n size o.0 in
      let (db'', r, stored) = receive-InOrder (n + 1) count ms db' size o.1 in
      let state : state_after db (write_block c cfg db b) ≡ db' = rw (w, state_after) refl in
      (db'', rw (w, receive) r, later db' db'' state stored)
    where
      later :
          (db' db'' : Db R)
          → state_after db (write_block c cfg db b) ≡ db'
          → ((j : ℕ) → (n + 1 ≤ j) × (j < n + 1 + count) ⊎ IsHot db' j → IsHot db'' j)
          → (j : ℕ) → (n ≤ j) × (j < n + suc count) ⊎ IsHot db j
          → IsHot db'' j
      later db' db'' state stored j (inr h) =
          stored j (inr (subst (λ d. IsHot d j) state (IsHot-write_block db b j h)))
      later db' db'' state stored j (inl h) = elim (Bool-cases (n == j)) [
        | inr other ↦ stored j (inl (omega (arith, h.0, h.1, ne other), omega (arith, h.1)))
        | inl same ↦ stored j (
            inr
              (subst (λ d. IsHot d j) state (IsHot-written db b j (o.0 ∙ ap some (ground arith)))))
      ]
        where
          ne : n == j ≡ false → n ≢ j
          ne e f = ground arith
