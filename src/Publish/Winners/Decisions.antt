-- ===== src/Publish/Winners/Decisions.antt =====
-- A decision for a block takes no block from another session, and accepts only a block that the
-- session has won.
use mathlib.Core.Path.{subst}
use rock_node.Base.{sym, ℕ, ◌≡◌, ◌≢◌, refl, inl, inr, Option, none, some, arith, Option-cases}
use rock_node.Base.Signed.{ℤ, as_u64}
use rock_node.Base.Assoc.{lookup-insert}
use rock_node.Publish.State.{
  BlockAction, accept, skip, resend, end_behind, end_duplicate, end_error, bad_block_proof,
  SharedState,
}
use rock_node.Publish.Session.{Session, World}
use rock_node.Publish.Actions.{
  Decision, elect, get_action_for_header, get_action_for_currently_streaming, get_action_for_block,
}
use rock_node.Publish.Handler.{decide}
use rock_node.Publish.Winners.{Wins, Keeps}

-- What a decision `d` of session `s` leaves.
pub record Decided (w : World) (s : Session) (shared : SharedState) (d : Decision) : Type 0 where
  pub same_id : d.1.id ≡ s.id
  pub same_buffer : d.1.item_buffer ≡ s.item_buffer
  pub same_sent : (w.meanwhile shared).sent ≡ shared.sent → d.2.sent ≡ shared.sent
  pub won : d.0 ≡ accept → Wins s.id (as_u64 d.1.current_block_number) d.2
  pub keeps : (o b : ℕ) → o ≢ s.id → Keeps o b w.meanwhile → Wins o b shared → Wins o b d.2

pub elect-Decided :
    (w : World) (n : ℤ) (s : Session) (shared : SharedState)
    → Decided w s shared (elect n s (w.meanwhile shared))
unfolding elect
elect-Decided w n s shared = record {
  same_id = ground arith;
  same_buffer = ground arith;
  same_sent = λ e. ground arith;
  won = λ e.
      ground (arith, lookup-insert (as_u64 n) (as_u64 n) s.id (w.meanwhile shared).block_winners);
  keeps = λ o b ne k h.
      ground
        (arith, k shared h, lookup-insert (as_u64 n) b s.id (w.meanwhile shared).block_winners);
}

header-Decided :
    (w : World) (n : ℤ) (s : Session) (shared : SharedState)
    → Decided w s shared (get_action_for_header w n s shared)
unfolding get_action_for_header
header-Decided w n s shared =
    let e = elect-Decided w n s shared in
    record {
      same_id = ground (arith, e.same_id);
      same_buffer = ground (arith, e.same_buffer);
      same_sent = λ q. ground (arith, e.same_sent q);
      won = λ a. ground (arith, e.won);
      keeps = λ o b ne k h. ground (arith, e.keeps o b ne k h);
    }

streaming-accept :
    (n : ℤ) (s : Session) (shared : SharedState)
    → get_action_for_currently_streaming n s shared ≡ accept
    → Wins s.id (as_u64 n) shared
unfolding get_action_for_currently_streaming
streaming-accept n s shared h = ground arith

-- A decision that leaves the shared state and the session as they are.
unchanged-Decided :
    (w : World) (a : BlockAction) (s : Session) (shared : SharedState)
    → (a ≡ accept → Wins s.id (as_u64 s.current_block_number) shared)
    → Decided w s shared (a, s, shared)
unchanged-Decided w a s shared won = record {
  same_id = refl;
  same_buffer = refl;
  same_sent = λ q. refl;
  won = won;
  keeps = λ o b ne k h. h;
}

continue-Decided :
    (w : World) (action : BlockAction) (s : Session) (shared : SharedState)
    → Decided w s shared (get_action_for_block w s.current_block_number (some action) s shared)
unfolding get_action_for_block
continue-Decided w accept s shared =
    unchanged-Decided w _ s shared (streaming-accept s.current_block_number s shared)
continue-Decided w skip s shared = unchanged-Decided w _ s shared (λ e. cc)
continue-Decided w resend s shared = unchanged-Decided w _ s shared (λ e. cc)
continue-Decided w end_behind s shared = unchanged-Decided w _ s shared (λ e. cc)
continue-Decided w end_duplicate s shared = unchanged-Decided w _ s shared (λ e. cc)
continue-Decided w end_error s shared = unchanged-Decided w _ s shared (λ e. cc)
continue-Decided w bad_block_proof s shared = unchanged-Decided w _ s shared (λ e. cc)

block-Decided :
    (w : World) (n : ℤ) (s : Session) (shared : SharedState)
    → Decided w s shared (get_action_for_block w n none s shared)
unfolding get_action_for_block
block-Decided w n s shared = header-Decided w n s shared

decide-idle :
    (w : World) (s : Session) (shared : SharedState)
    → s.current_block_action ≡ none
    → decide w none s shared ≡ (end_error, s, shared)
unfolding decide
decide-idle w s shared e = ground arith

pub decide-active :
    (w : World) (action : BlockAction) (s : Session) (shared : SharedState)
    → s.current_block_action ≡ some action
    → decide w none s shared ≡ get_action_for_block w s.current_block_number (some action) s shared
unfolding decide
decide-active w action s shared e = ground (arith, e)

pub decide-Decided :
    (w : World) (number : Option ℤ) (s : Session) (shared : SharedState)
    → Decided w s shared (decide w number s shared)
unfolding decide
decide-Decided w (some n) s shared = block-Decided w n s shared
decide-Decided w none s shared = elim (Option-cases s.current_block_action) [
  | inl e ↦
      subst (Decided w s shared) (sym (decide-idle w s shared e))
        (unchanged-Decided w end_error s shared (λ q. cc))
  | inr (action, e) ↦
      subst (Decided w s shared) (sym (decide-active w action s shared e))
        (continue-Decided w action s shared)
]
