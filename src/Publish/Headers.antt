-- ===== src/Publish/Headers.antt =====
-- What a publisher is told when it begins a block.
use rock_node.Base.{ℕ, ◌≡◌, ◌≢◌, refl, ap, ◌∙◌, true, false, List, none, some, arith}
use rock_node.Base.Word.{add64}
use rock_node.Base.Signed.{ℤ, as_u64, lt_i64, eq_i64}
use rock_node.Base.Assoc.{lookup, insert}
use rock_node.Block.{BlockItem}
use rock_node.Publish.State.{primary, behind, accept, skip, skip_block, SharedState, send}
use rock_node.Publish.Validation.{validate_block_items}
use rock_node.Publish.Session.{Session, World, reset_for_next_block, handle_skip}
use rock_node.Publish.Actions.{elect, get_action_for_header, get_action_for_block}
use rock_node.Publish.Handler.{
  block_items, header_number, decide, execute, act, handle_accept, handle_block_items,
  handle_request,
}
use rock_node.Publish.Winners.{Wins}

-- The items are a valid set that begins the block `n`, which is later than all that is persisted.
pub record Begins (n : ℤ) (items : List BlockItem) (s : Session) (shared : SharedState)
    : Type 0 where
  pub header : header_number items ≡ some n
  pub valid : validate_block_items s.max_items items true ≡ none
  pub not_behind : lt_i64 n shared.latest_persisted_block ≡ false
  pub not_latest : eq_i64 n shared.latest_persisted_block ≡ false

abbrev pub received : Session → Session
received s = record s { blocks_received = add64 s.blocks_received 1 }

module _ (w : World) (n : ℤ) (items : List BlockItem) (s : Session) (shared : SharedState) where
  -- A valid set with a header goes by the decision for the header.
  by_header :
      header_number items ≡ some n
      → validate_block_items s.max_items items true ≡ none
      → handle_request w (block_items items) s shared
        ≡ act w items (get_action_for_header w n (received s) shared)
  unfolding handle_request handle_block_items decide get_action_for_block
  by_header h v = rw (h, handle_block_items) (rw (v, handle_block_items) (rw (h, decide) refl))

  decide_lost :
      (winner : ℕ)
      → Begins n items s shared
      → Wins winner (as_u64 n) shared
      → winner ≢ s.id
      → get_action_for_header w n (received s) shared ≡ (
        skip,
        record s { current_block_number = n; blocks_received = add64 s.blocks_received 1 },
        shared,
      )
  unfolding get_action_for_header
  decide_lost winner b h ne = rw (b.not_behind, b.not_latest, h) (ground arith)

  decide_elect :
      Begins n items s shared
      → lookup (as_u64 n) shared.block_winners ≡ none
      → get_action_for_header w n (received s) shared ≡ elect n (received s) (w.meanwhile shared)
  unfolding get_action_for_header
  decide_elect b h = rw (b.not_behind, b.not_latest, h)

  elect_won :
      (now : SharedState)
      → lookup (as_u64 n) now.block_winners ≡ none
      → elect n (received s) now ≡ (
        accept,
        record s {
          current_block_number = n;
          state = primary;
          blocks_received = add64 s.blocks_received 1;
        },
        record now { block_winners = insert (as_u64 n) s.id now.block_winners },
      )
  unfolding elect
  elect_won now h = ground (arith, h)

  elect_lost :
      (now : SharedState) (winner : ℕ)
      → Wins winner (as_u64 n) now
      → elect n (received s) now
        ≡ (skip, record s { state = behind; blocks_received = add64 s.blocks_received 1 }, now)
  unfolding elect
  elect_lost now winner h = ground (arith, h)

  -- Another session has won the block: the publisher is told to skip it, by its number, and the
  -- session goes on with no block and an empty buffer. Nothing else changes. The items are a valid
  -- set that begins the block, which is later than all that is persisted.
  pub lost_election :
      (winner : ℕ)
      → Begins n items s shared
      → Wins winner (as_u64 n) shared
      → winner ≢ s.id
      → handle_request w (block_items items) s shared ≡ (
        (
          reset_for_next_block (record s {
            blocks_received = add64 s.blocks_received 1;
            blocks_skipped = add64 s.blocks_skipped 1;
          }),
          send s.id (skip_block (as_u64 n)) shared,
        ),
        false,
      )
  unfolding act execute handle_skip reset_for_next_block
  lost_election winner b h ne =
      by_header b.header b.valid ∙ ap (act w items) (decide_lost winner b h ne)

  -- No session has won the block at either look: the session wins it, and takes the items in behind
  -- what its buffer holds already, also the items of a block that it had not completed. The items are
  -- a valid set that begins the block, which is later than all that is persisted.
  pub won_election :
      Begins n items s shared
      → lookup (as_u64 n) shared.block_winners ≡ none
      → lookup (as_u64 n) (w.meanwhile shared).block_winners ≡ none
      → handle_request w (block_items items) s shared
        ≡ handle_accept w items
            (record s {
              current_block_number = n;
              state = primary;
              current_block_action = some accept;
              blocks_received = add64 s.blocks_received 1;
            })
            (record (w.meanwhile shared) {
              block_winners = insert (as_u64 n) s.id (w.meanwhile shared).block_winners;
            })
  unfolding act execute
  won_election b h now =
      by_header b.header b.valid
      ∙ (ap (act w items) (decide_elect b h)
          ∙ ap (act w items) (elect_won (w.meanwhile shared) now))

  -- Another session wins the block between the two looks: the publisher is told to skip the block
  -- that the session had before, not the block `n`. The items are a valid set that begins the block
  -- `n`, which is later than all that is persisted, and nobody has won it at the first look.
  pub lost_race :
      (winner : ℕ)
      → Begins n items s shared
      → lookup (as_u64 n) shared.block_winners ≡ none
      → Wins winner (as_u64 n) (w.meanwhile shared)
      → (handle_request w (block_items items) s shared).0.1
        ≡ send s.id (skip_block (as_u64 s.current_block_number)) (w.meanwhile shared)
  unfolding act execute handle_skip
  lost_race winner b h now =
      ap (λ r. r.0.1)
        (by_header b.header b.valid
          ∙ (ap (act w items) (decide_elect b h)
              ∙ ap (act w items) (elect_lost (w.meanwhile shared) winner now)))
