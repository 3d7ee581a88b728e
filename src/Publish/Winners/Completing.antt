-- ===== src/Publish/Winners/Completing.antt =====
-- The end of a block gives up the block that the session has won, and no other session's.
use mathlib.Core.Path.{subst}
use rock_node.Base.{
  sym, ℕ, ◌≡◌, ◌≢◌, refl, inl, inr, Bool, false, List, some, arith, Option-cases, Bool-cases,
}
use rock_node.Base.Signed.{as_u64}
use rock_node.Base.Assoc.{remove, lookup-remove}
use rock_node.Block.{BlockItem}
use rock_node.Publish.State.{accept, SharedState}
use rock_node.Publish.Session.{Session, World, State}
use rock_node.Publish.Completion.{
  Outcome, success, failure, timeout, conclude, settle, complete_block, await_outcome,
}
use rock_node.Publish.Handler.{accept_items, handle_accept}
use rock_node.Publish.Winners.{Wins, Keeps, IsReady, ReadyFor}

-- What a handler of session `id` leaves, with the result `r`: other sessions' blocks are theirs
-- still, as far as the other sessions keep them, and a session that goes on is ready.
pub record Served (w : World) (id : ℕ) (shared : SharedState) (r : State × Bool) : Type 0 where
  pub same_id : r.0.0.id ≡ id
  pub keeps :
      (o b : ℕ)
      → o ≢ id
      → Keeps o b w.meanwhile
      → Keeps o b w.during_wait
      → Wins o b shared
      → Wins o b r.0.1
  pub ready : r.1 ≡ false → IsReady r.0.0 r.0.1

pub conclude-winners :
    (r : Outcome) (n : ℕ) (s : Session) (shared : SharedState)
    → (conclude r n s shared).block_winners ≡ remove n shared.block_winners
unfolding conclude
conclude-winners success n s shared = refl
conclude-winners failure n s shared = refl
conclude-winners timeout n s shared = refl

-- Whoever wins another block than `n` wins it still.
conclude-keeps :
    (r : Outcome) (n : ℕ) (s : Session) (shared : SharedState) (o b : ℕ)
    → o ≢ s.id
    → Wins s.id n shared
    → Wins o b shared
    → Wins o b (conclude r n s shared)
conclude-keeps r n s shared o b ne mine h =
    rw (conclude-winners r n s shared, lookup-remove n b shared.block_winners) (ground arith)

-- What the arms after the wait leave.
record Settled (n : ℕ) (s : Session) (shared : SharedState) (r : State × Bool) : Type 0 where
  same_id : r.0.0.id ≡ s.id
  keeps : (o b : ℕ) → o ≢ s.id → Wins o b shared → Wins o b r.0.1
  ready : r.1 ≡ false → IsReady r.0.0 r.0.1

settle-Settled :
    (r : Outcome) (n : ℕ) (s : Session) (shared : SharedState)
    → Wins s.id n shared
    → Settled n s shared (settle r n s shared)
unfolding settle
settle-Settled success n s shared mine = record {
  same_id = refl;
  keeps = λ o b ne h. conclude-keeps success n s shared o b ne mine h;
  ready = λ q. refl;
}
settle-Settled failure n s shared mine = record {
  same_id = refl;
  keeps = λ o b ne h. conclude-keeps failure n s shared o b ne mine h;
  ready = λ q. cc;
}
settle-Settled timeout n s shared mine = record {
  same_id = refl;
  keeps = λ o b ne h. conclude-keeps timeout n s shared o b ne mine h;
  ready = λ q. cc;
}

pub complete_block-Served :
    (w : World) (s : Session) (shared : SharedState)
    → ((b : ℕ) → Keeps s.id b w.during_wait)
    → Wins s.id (as_u64 s.current_block_number) shared
    → Served w s.id shared (complete_block w s shared)
unfolding complete_block
complete_block-Served w s shared own mine = elim (Option-cases (w.encode s.item_buffer)) [
  | inl e ↦
      rw (e, complete_block) (record { same_id = refl; keeps = λ o b ne k l h. h; ready = λ q. cc })
  | inr (contents, e) ↦ elim (Bool-cases w.verification_open) [
    | inr closed ↦
        rw (e, complete_block, closed)
          (record { same_id = refl; keeps = λ o b ne k l h. h; ready = λ q. cc })
    | inl opened ↦
        let n = as_u64 s.current_block_number in
        let settled = settle-Settled (await_outcome n w.cache_key w.events) n _ _ (own n _ mine) in
        rw (e, complete_block, opened)
          (record {
            same_id = settled.same_id;
            keeps = λ o b ne k l h. settled.keeps o b ne (l _ h);
            ready = settled.ready;
          })
  ]
]

pub handle_accept-Served :
    (w : World) (items : List BlockItem) (s : Session) (shared : SharedState)
    → ((b : ℕ) → Keeps s.id b w.during_wait)
    → s.current_block_action ≡ some accept
    → Wins s.id (as_u64 s.current_block_number) shared
    → Served w s.id shared (handle_accept w items s shared)
unfolding handle_accept
handle_accept-Served w items s shared own act mine =
    let buffer = (accept_items s.item_buffer items).0 in
    elim (Bool-cases (accept_items s.item_buffer items).1) [
      | inl proven ↦
          rw (proven, handle_accept)
            (complete_block-Served w (record s { item_buffer = buffer }) shared own mine)
      | inr open_block ↦
          rw (open_block, handle_accept)
            (record {
              same_id = refl;
              keeps = λ o b ne k l h. h;
              ready = λ q.
                  subst (λ a. ReadyFor a (record s { item_buffer = buffer }) shared) (sym act) mine;
            })
    ]
