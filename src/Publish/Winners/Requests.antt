-- ===== src/Publish/Winners/Requests.antt =====
-- Every request keeps the election: the theorems about whole handlers.
use mathlib.Core.Path.{subst}
use rock_node.Base.{
  ℕ, ◌≡◌, ◌≢◌, ◌⊎◌, refl, sym, ◌∙◌, inl, inr, Bool, false, List, Option, some, arith, Option-cases,
  is_some,
}
use rock_node.Base.Word.{add64}
use rock_node.Base.Signed.{as_u64}
use rock_node.Block.{BlockItem}
use rock_node.Publish.State.{
  BlockAction, accept, skip, resend, end_behind, end_duplicate, end_error, bad_block_proof,
  SharedState, send,
}
use rock_node.Publish.Validation.{validate_block_items}
use rock_node.Publish.Session.{
  Session, World, State, handle_skip, handle_resend, handle_end_behind, handle_end_duplicate,
  handle_end_error,
}
use rock_node.Publish.Actions.{Decision}
use rock_node.Publish.Completion.{complete_block}
use rock_node.Publish.Handler.{
  Request, block_items, end_of_block, end_of_stream, header_number, execute, act,
  handle_block_items, refuse_end, handle_block_end, handle_request,
}
use rock_node.Publish.Winners.{Wins, Keeps, IsReady, ReadyFor}
use rock_node.Publish.Winners.Decisions.{Decided, decide-Decided}
use rock_node.Publish.Winners.Completing.{Served, complete_block-Served, handle_accept-Served}

-- The session leaves the winners alone and ends, or has no block afterwards.
quiet-Served :
    (w : World) (id : ℕ) (shared : SharedState) (r : State × Bool)
    → r.0.0.id ≡ id
    → r.0.1.block_winners ≡ shared.block_winners
    → (r.1 ≡ false → IsReady r.0.0 r.0.1)
    → Served w id shared r
quiet-Served w id shared r same e ready = record {
  same_id = same;
  keeps = λ o b ne k l h. rw e h;
  ready = ready;
}

execute-Served :
    (w : World) (a : BlockAction) (items : List BlockItem) (s : Session) (shared : SharedState)
    → ((b : ℕ) → Keeps s.id b w.during_wait)
    → s.current_block_action ≡ some a
    → (a ≡ accept → Wins s.id (as_u64 s.current_block_number) shared)
    → Served w s.id shared (execute w a items s shared)
unfolding execute handle_skip handle_resend handle_end_behind handle_end_duplicate handle_end_error
execute-Served w accept items s shared own e won =
    handle_accept-Served w items s shared own e (won refl)
execute-Served w skip items s shared own e won = quiet-Served w s.id shared _ refl refl (λ q. refl)
execute-Served w resend items s shared own e won =
    quiet-Served w s.id shared _ refl refl (λ q. refl)
execute-Served w end_behind items s shared own e won =
    quiet-Served w s.id shared _ refl refl (λ q. cc)
execute-Served w end_duplicate items s shared own e won =
    quiet-Served w s.id shared _ refl refl (λ q. cc)
execute-Served w end_error items s shared own e won =
    quiet-Served w s.id shared _ refl refl (λ q. cc)
execute-Served w bad_block_proof items s shared own e won =
    quiet-Served w s.id shared _ refl refl (λ q. cc)

-- A decision, then its execution.
act-Served :
    (w : World) (items : List BlockItem) (s : Session) (shared : SharedState) (d : Decision)
    → ((b : ℕ) → Keeps s.id b w.during_wait)
    → Decided w s shared d
    → Served w s.id shared (act w items d)
unfolding act
act-Served w items s shared (a, s', shared') own d =
    let e =
      execute-Served w a items (record s' { current_block_action = some a }) shared'
        (subst (λ i. (b : ℕ) → Keeps i b w.during_wait) (sym d.same_id) own) refl
        (λ q.
          subst (λ i. Wins i (as_u64 s'.current_block_number) shared') (sym d.same_id) (d.won q)) in
    record {
      same_id = e.same_id ∙ d.same_id;
      keeps = λ o b ne k l h. e.keeps o b (λ q. ne (q ∙ d.same_id)) k l (d.keeps o b ne k h);
      ready = e.ready;
    }

handle_block_items-Served :
    (w : World) (items : List BlockItem) (s : Session) (shared : SharedState)
    → ((b : ℕ) → Keeps s.id b w.during_wait)
    → Served w s.id shared (handle_block_items w items s shared)
unfolding handle_block_items send
handle_block_items-Served w items s shared own =
    let received = record s { blocks_received = add64 s.blocks_received 1 } in
    elim (Option-cases (validate_block_items s.max_items items (is_some (header_number items)))) [
      | inr (err, e) ↦ rw (e, handle_block_items) (quiet-Served w s.id shared _ refl refl (λ q. cc))
      | inl e ↦
          rw (e, handle_block_items)
            (act-Served w items received shared _ own
              (decide-Decided w (header_number items) received shared))
    ]

refuse_end-Served :
    (w : World) (s : Session) (shared : SharedState) → Served w s.id shared (refuse_end s shared)
unfolding refuse_end handle_end_error
refuse_end-Served w s shared = quiet-Served w s.id shared _ refl refl (λ q. cc)

-- `handle_block_end`, by the action that the session is in.
block_end_in :
    (w : World) (n : ℕ) (s : Session) (shared : SharedState) (o : Option BlockAction)
    → s.current_block_action ≡ o
    → (handle_block_end w n s shared ≡ refuse_end s shared)
      ⊎ ((o ≡ some accept) × (handle_block_end w n s shared ≡ complete_block w s shared))
unfolding handle_block_end
block_end_in w n s shared o e = ground (arith, e)

-- What a request does to the winners, and to the session.
pub handle_request-Served :
    (w : World) (request : Request) (s : Session) (shared : SharedState)
    → ((b : ℕ) → Keeps s.id b w.during_wait)
    → IsReady s shared
    → Served w s.id shared (handle_request w request s shared)
unfolding handle_request
handle_request-Served w (block_items items) s shared own ready =
    handle_block_items-Served w items s shared own
handle_request-Served w (end_of_stream earliest latest) s shared own ready =
    quiet-Served w s.id shared _ refl refl (λ q. cc)
handle_request-Served w (end_of_block n) s shared own ready =
    elim (block_end_in w n s shared s.current_block_action refl) [
      | inl e ↦ rw e (refuse_end-Served w s shared)
      | inr (a, e) ↦
          rw e (complete_block-Served w s shared own (subst (λ o. ReadyFor o s shared) a ready))
    ]

-- A request of a session takes no block from another session: whoever wins a block before wins it
-- afterwards. The sessions that run meanwhile leave the other session that block, and this session
-- its own while it waits; the session has no block and an empty buffer, or takes in a block that it
-- has won.
pub handle_request-Keeps :
    (w : World) (request : Request) (s : Session) (shared : SharedState) (o b : ℕ)
    → ((n : ℕ) → Keeps s.id n w.during_wait)
    → IsReady s shared
    → o ≢ s.id
    → Keeps o b w.meanwhile
    → Keeps o b w.during_wait
    → Wins o b shared
    → Wins o b (handle_request w request s shared).0.1
handle_request-Keeps w request s shared o b own ready ne k l h =
    (handle_request-Served w request s shared own ready).keeps o b ne k l h

-- A session that goes on after a request has no block and an empty buffer, or takes in a block that
-- it has won. It is in such a state before, and no other session takes its blocks while it waits.
pub handle_request-IsReady :
    (w : World) (request : Request) (s : Session) (shared : SharedState)
    → ((n : ℕ) → Keeps s.id n w.during_wait)
    → IsReady s shared
    → (handle_request w request s shared).1 ≡ false
    → IsReady (handle_request w request s shared).0.0 (handle_request w request s shared).0.1
handle_request-IsReady w request s shared own ready goes_on =
    (handle_request-Served w request s shared own ready).ready goes_on
