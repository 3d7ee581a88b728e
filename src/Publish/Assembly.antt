-- ===== src/Publish/Assembly.antt =====
-- How the items of a block come together, from its header to its proof.
use rock_node.Base.{
  ℕ, ◌≡◌, refl, sym, ap, ◌∙◌, Bool, true, false, List, [], ◌∷◌, ◌++◌, none, some, arith,
}
use mathlib.Core.List.{append_assoc}
use rock_node.Base.Word.{add64}
use rock_node.Base.Signed.{ℤ, as_u64, eq_i64_refl}
use rock_node.Base.Assoc.{lookup, insert, lookup-insert}
use rock_node.Block.{BlockItem}
use rock_node.Publish.State.{primary, accept, SharedState}
use rock_node.Publish.Validation.{validate_block_items}
use rock_node.Publish.Session.{Session, World, State}
use rock_node.Publish.Actions.{get_action_for_block}
use rock_node.Publish.Completion.{complete_block}
use rock_node.Publish.Handler.{
  block_items, header_number, decide, execute, act, handle_accept, handle_block_items,
  handle_request,
}
use rock_node.Publish.Winners.{Wins, Keeps}
use rock_node.Publish.Winners.Decisions.{decide-active}
use rock_node.Publish.Items.{
  up_to_proof, has_proof, accept_items-eq, up_to_proof-eq, up_to_proof-append,
}
use rock_node.Publish.Headers.{Begins, won_election}

-- The session takes in a block that it has won.
pub record Accepting (s : Session) (shared : SharedState) : Type 0 where
  pub action : s.current_block_action ≡ some accept
  pub winner : Wins s.id (as_u64 s.current_block_number) shared

-- A valid set of items without a header.
pub record Continues (items : List BlockItem) (max_items : ℕ) : Type 0 where
  pub header : header_number items ≡ none
  pub valid : validate_block_items max_items items false ≡ none

-- One more set, with what the other sessions do before it comes in.
pub record Arrival : Type 0 where
  pub meanwhile : SharedState → SharedState
  pub world : World
  pub items : List BlockItem

-- The sets one after the other, after a request with the result `r`, up to one that ends the stream.
unfoldable pub go_on_with : List Arrival → State × Bool → State × Bool
go_on_with [] r = r
go_on_with (a ∷ rest) ((s, shared), true) = ((s, shared), true)
go_on_with (a ∷ rest) ((s, shared), false) =
    go_on_with rest (handle_request a.world (block_items a.items) s (a.meanwhile shared))

-- The sets are valid for the session and have no header, and what happens before each leaves the
-- session `id` the block `b`.
abbrev pub Follow : ℕ → ℕ → ℕ → List Arrival → Type 0
Follow max_items id b [] = Unit
Follow max_items id b (a ∷ rest) =
    Continues a.items max_items × Keeps id b a.meanwhile × Follow max_items id b rest

-- After the items and the sets behind them, the first proof has come with the last set.
abbrev pub ProofIsLast : List BlockItem → List Arrival → Type 0
ProofIsLast items [] = has_proof items ≡ true
ProofIsLast items (a ∷ rest) = (has_proof items ≡ false) × ProofIsLast a.items rest

-- The items and those of the sets behind them.
abbrev pub arrived : List BlockItem → List Arrival → List BlockItem
arrived items [] = items
arrived items (a ∷ rest) = items ++ arrived a.items rest

-- The world of the last request.
abbrev pub last_world : World → List Arrival → World
last_world w [] = w
last_world w (a ∷ rest) = last_world a.world rest

-- The shared state once the other sessions have made their changes.
abbrev pub changed : List Arrival → SharedState → SharedState
changed [] shared = shared
changed (a ∷ rest) shared = changed rest (a.meanwhile shared)

-- The result is that of completing block `n`, which session `id` has won, with the items, in the
-- shared state `now`.
pub record Completed (r : State × Bool) (w : World) (n : ℤ) (id : ℕ) (items : List BlockItem)
    (now : SharedState) : Type 0 where
  pub session : Session
  pub run : r ≡ complete_block w session now
  pub buffer : session.item_buffer ≡ items
  pub number : session.current_block_number ≡ n
  pub same : session.id ≡ id
  pub winner : Wins id (as_u64 n) now

-- The session once a further set has come in.
abbrev with_set : Session → Session
with_set s = record s {
  current_block_action = some accept;
  blocks_received = add64 s.blocks_received 1;
}

-- The session with the items behind what its buffer holds.
abbrev with_items : Session → List BlockItem → Session
with_items s items = record s { item_buffer = s.item_buffer ++ items }

still_accepted :
    (w : World) (s : Session) (shared : SharedState)
    → Accepting s shared
    → get_action_for_block w s.current_block_number
        (some accept)
        (record s { blocks_received = add64 s.blocks_received 1 })
        shared
      ≡ (accept, record s { blocks_received = add64 s.blocks_received 1 }, shared)
unfolding get_action_for_block
still_accepted w s shared a = rw (eq_i64_refl s.current_block_number, a.winner) (ground arith)

by_continuation :
    (w : World) (items : List BlockItem) (s : Session) (shared : SharedState)
    → Accepting s shared
    → Continues items s.max_items
    → handle_request w (block_items items) s shared ≡ handle_accept w items (with_set s) shared
unfolding handle_request handle_block_items act execute
by_continuation w items s shared a c =
    let s' = record s { blocks_received = add64 s.blocks_received 1 } in
    rw (c.header, handle_block_items)
      (rw (c.valid, handle_block_items)
        (rw (c.header, decide)
          (ap (act w items)
            (decide-active w accept s' shared a.action ∙ still_accepted w s shared a))))

module _ (w : World) (items : List BlockItem) (s : Session) (shared : SharedState) where
  -- A set with no proof: its items go behind the buffer, and nothing else changes.
  take_items :
      has_proof items ≡ false
      → handle_accept w items s shared ≡ ((with_items s items, shared), false)
  unfolding handle_accept
  take_items h = rw (accept_items-eq s.item_buffer items) (rw (h, up_to_proof-eq items h) refl)

  -- The set with the proof: the block is completed with its items up to the proof.
  prove_items :
      has_proof items ≡ true
      → handle_accept w items s shared ≡ complete_block w (with_items s (up_to_proof items)) shared
  unfolding handle_accept
  prove_items h = rw (accept_items-eq s.item_buffer items) (rw h refl)

-- A set is taken in, and the sets behind it.
handle_accept-Completed :
    (rest : List Arrival) (w : World) (items : List BlockItem) (s : Session) (shared : SharedState)
    → Accepting s shared
    → Follow s.max_items s.id (as_u64 s.current_block_number) rest
    → ProofIsLast items rest
    → Completed
        (go_on_with rest (handle_accept w items s shared))
        (last_world w rest)
        s.current_block_number
        s.id
        (s.item_buffer ++ up_to_proof (arrived items rest))
        (changed rest shared)
unfolding go_on_with
handle_accept-Completed [] w items s shared a f p = record {
  session = with_items s (up_to_proof items);
  run = prove_items w items s shared p;
  buffer = refl;
  number = refl;
  same = refl;
  winner = a.winner;
}
handle_accept-Completed (b ∷ rest) w items s shared a (c, k, f) (p, q) =
    let s' = with_items s items in
    let now = b.meanwhile shared in
    let still : Accepting s' now = record { action = a.action; winner = k shared a.winner } in
    let later =
      handle_accept-Completed rest b.world b.items (with_set s') now
        (record { action = refl; winner = still.winner }) f q in
    record {
      session = later.session;
      run =
          ap (go_on_with (b ∷ rest)) (take_items w items s shared p)
          ∙ (ap (go_on_with rest) (by_continuation b.world b.items s' now still c) ∙ later.run);
      buffer =
          later.buffer
          ∙ (append_assoc s.item_buffer items (up_to_proof (arrived b.items rest))
              ∙ ap (λ l. s.item_buffer ++ l)
                  (sym (up_to_proof-append items (arrived b.items rest) p)));
      number = later.number;
      same = later.same;
      winner = later.winner;
    }

-- A block that arrives in one or more sets, the first with its header, the last with its proof, at a
-- session that wins it, since nobody has won it at either look; the sets are valid, and behind the
-- first have no header. Whatever the other sessions do between the sets, as long as they leave the
-- session this block: the last set completes the block under its number, with all the items of all
-- the sets in order, up to the proof, behind what the buffer held before the header, in the shared
-- state that the other sessions' changes have made of the election's. The session is still the
-- block's winner. The block is later than all that is persisted.
pub assemble :
    (w : World) (n : ℤ) (items : List BlockItem) (rest : List Arrival) (s : Session)
    (shared : SharedState)
    → Begins n items s shared
    → lookup (as_u64 n) shared.block_winners ≡ none
    → lookup (as_u64 n) (w.meanwhile shared).block_winners ≡ none
    → Follow s.max_items s.id (as_u64 n) rest
    → ProofIsLast items rest
    → Completed
        (go_on_with rest (handle_request w (block_items items) s shared))
        (last_world w rest)
        n
        s.id
        (s.item_buffer ++ up_to_proof (arrived items rest))
        (changed rest (record (w.meanwhile shared) {
          block_winners = insert (as_u64 n) s.id (w.meanwhile shared).block_winners;
        }))
assemble w n items rest s shared b free still_free f p =
    let s' = record s {
      current_block_number = n;
      state = primary;
      current_block_action = some accept;
      blocks_received = add64 s.blocks_received 1;
    } in
    let now = record (w.meanwhile shared) {
      block_winners = insert (as_u64 n) s.id (w.meanwhile shared).block_winners;
    } in
    let won : Wins s.id (as_u64 n) now =
      lookup-insert (as_u64 n) (as_u64 n) s.id (w.meanwhile shared).block_winners ∙ ground arith in
    let done =
      handle_accept-Completed rest w items s' now (record { action = refl; winner = won }) f p in
    record {
      session = done.session;
      run = ap (go_on_with rest) (won_election w n items s shared b free still_free) ∙ done.run;
      buffer = done.buffer;
      number = done.number;
      same = done.same;
      winner = done.winner;
    }
