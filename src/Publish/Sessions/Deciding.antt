-- ===== src/Publish/Sessions/Deciding.antt =====
-- Decisions on a block, and the pieces that take it in.
use mathlib.Core.Path.{subst}
use rock_node.Base.{
  ℕ, ◌≡◌, ◌≢◌, ◌≤◌, refl, sym, ap, inl, inr, List, Option, none, some, false, arith, Option-cases,
  Bool-cases,
}
use rock_node.Base.Signed.{ℤ, as_u64}
use rock_node.Base.Assoc.{lookup, lookup-insert}
use rock_node.Block.{BlockItem}
use rock_node.Publish.State.{
  BlockAction, accept, skip, resend, end_behind, end_duplicate, end_error, bad_block_proof,
  SharedState, send,
}
use rock_node.Publish.Session.{
  Session, World, handle_skip, handle_resend, handle_end_behind, handle_end_duplicate,
  handle_end_error, reset_for_next_block,
}
use rock_node.Publish.Actions.{
  Decision, elect, on_winner, get_action_for_header, get_action_for_block,
}
use rock_node.Publish.Handler.{accept_items, decide, execute}
use rock_node.Publish.Winners.{Wins}
use rock_node.Publish.Winners.Decisions.{decide-Decided}
use rock_node.Publish.Sessions.Keys.{insert-HasUniqueKeys}
use rock_node.Publish.Sessions.{finish, submit, take_in, proceed, is_open}
use rock_node.Publish.Sessions.Spares.{Spares, Moved, same_winners, Spares-then, quiet}

pub submit-Moved :
    (cut : ℕ) (w : World) (s : Session) (shared : SharedState)
    → (cut ≤ as_u64 s.current_block_number → Wins s.id (as_u64 s.current_block_number) shared)
    → Moved cut s.id shared (submit w s shared)
unfolding submit
submit-Moved cut w s shared mine = elim (Option-cases (w.encode s.item_buffer)) [
  | inl e ↦ rw (e, submit) (quiet cut s.id shared _ refl (λ n t. t) refl)
  | inr (contents, e) ↦ elim (Bool-cases w.verification_open) [
    | inr closed ↦ rw (e, submit) (rw closed (quiet cut s.id shared _ refl (λ n t. t) refl))
    | inl opened ↦
        rw (e, submit)
          (rw opened (record {
            task = refl;
            holds = λ n le t.
                subst (λ m. Wins s.id m shared) t (mine (subst (λ m. cut ≤ m) (sym t) le));
            spares = same_winners cut s.id shared _ refl;
          }))
  ]
]

take_in-Moved :
    (cut : ℕ) (w : World) (items : List BlockItem) (s : Session) (shared : SharedState)
    → Wins s.id (as_u64 s.current_block_number) shared
    → Moved cut s.id shared (take_in w items s shared)
unfolding take_in
take_in-Moved cut w items s shared mine =
    let buffer = (accept_items s.item_buffer items).0 in
    elim (Bool-cases (accept_items s.item_buffer items).1) [
      | inl proven ↦
          rw (proven, take_in)
            (submit-Moved cut w (record s { item_buffer = buffer }) shared (λ le. mine))
      | inr open_block ↦
          rw (open_block, take_in)
            (record {
              task = refl;
              holds = λ n le t. subst (λ m. Wins s.id m shared) t.1 mine;
              spares = same_winners cut s.id shared _ refl;
            })
    ]

-- A decision of session `i`: it accepts only a block that the session has won.
pub record Chosen (cut i : ℕ) (shared : SharedState) (d : Decision) : Type 0 where
  pub same_id : d.1.id ≡ i
  pub won : d.0 ≡ accept → Wins i (as_u64 d.1.current_block_number) d.2
  pub spares : Spares cut i shared d.2

proceed-quiet :
    (cut : ℕ) (w : World) (items : List BlockItem) (a : BlockAction) (s : Session)
    (shared : SharedState)
    → a ≢ accept
    → Moved cut s.id shared (proceed w items (a, s, shared))
unfolding proceed execute finish handle_skip handle_resend handle_end_behind handle_end_duplicate
    handle_end_error reset_for_next_block send
proceed-quiet cut w items accept s shared ne = absurd (ne refl)
proceed-quiet cut w items skip s shared ne = quiet cut s.id shared _ refl (λ n (t, e). cc) refl
proceed-quiet cut w items resend s shared ne = quiet cut s.id shared _ refl (λ n (t, e). cc) refl
proceed-quiet cut w items end_behind s shared ne = quiet cut s.id shared _ refl (λ n t. t) refl
proceed-quiet cut w items end_duplicate s shared ne = quiet cut s.id shared _ refl (λ n t. t) refl
proceed-quiet cut w items end_error s shared ne = quiet cut s.id shared _ refl (λ n t. t) refl
proceed-quiet cut w items bad_block_proof s shared ne = quiet cut s.id shared _ refl (λ n t. t) refl

-- A decision that has won the block that it accepts.
proceed-own :
    (cut : ℕ) (w : World) (items : List BlockItem) (a : BlockAction) (s : Session)
    (shared : SharedState)
    → (a ≡ accept → Wins s.id (as_u64 s.current_block_number) shared)
    → Moved cut s.id shared (proceed w items (a, s, shared))
unfolding proceed
proceed-own cut w items accept s shared won =
    take_in-Moved cut w items (record s { current_block_action = some accept }) shared (won refl)
proceed-own cut w items skip s shared won = proceed-quiet cut w items skip s shared (λ e. cc)
proceed-own cut w items resend s shared won = proceed-quiet cut w items resend s shared (λ e. cc)
proceed-own cut w items end_behind s shared won =
    proceed-quiet cut w items end_behind s shared (λ e. cc)
proceed-own cut w items end_duplicate s shared won =
    proceed-quiet cut w items end_duplicate s shared (λ e. cc)
proceed-own cut w items end_error s shared won =
    proceed-quiet cut w items end_error s shared (λ e. cc)
proceed-own cut w items bad_block_proof s shared won =
    proceed-quiet cut w items bad_block_proof s shared (λ e. cc)

pub proceed-Moved :
    (cut i : ℕ) (w : World) (items : List BlockItem) (shared : SharedState) (d : Decision)
    → Chosen cut i shared d
    → Moved cut i shared (proceed w items d)
proceed-Moved cut i w items shared (a, s, after) d =
    let won : a ≡ accept → Wins s.id (as_u64 s.current_block_number) after =
      λ e. subst (λ j. Wins j (as_u64 s.current_block_number) after) (sym d.same_id) (d.won e) in
    let moved : Moved cut i after (proceed w items (a, s, after)) =
      subst (λ j. Moved cut j after (proceed w items (a, s, after))) d.same_id
        (proceed-own cut w items a s after won) in
    record { task = moved.task; holds = moved.holds; spares = Spares-then d.spares moved.spares }

-- The second look.
pub elect-Chosen :
    (cut : ℕ) (n : ℤ) (s : Session) (shared : SharedState)
    → Chosen cut s.id shared (elect n s shared)
unfolding elect
elect-Chosen cut n s shared = elim (Option-cases (lookup (as_u64 n) shared.block_winners)) [
  | inr (winner, e) ↦
      rw (e, elect)
        (record {
          same_id = refl;
          won = λ q. cc;
          spares = same_winners cut s.id shared shared refl;
        })
  | inl e ↦
      rw (e, elect)
        (record {
          same_id = refl;
          won = λ q. ground arith;
          spares = record {
            keeps =
                λ o b ne le h. ground (arith, lookup-insert (as_u64 n) b s.id shared.block_winners);
            fresh =
                λ o b ne h. ground (arith, lookup-insert (as_u64 n) b s.id shared.block_winners);
            unique = insert-HasUniqueKeys (as_u64 n) s.id shared.block_winners;
          };
        })
]

-- A decision that needs no second look leaves the winners alone.
pub decide-same :
    (w : World) (n : ℤ) (s : Session) (shared : SharedState)
    → is_open n shared ≡ false
    → (decide w (some n) s shared).2 ≡ shared
unfolding decide get_action_for_block get_action_for_header is_open on_winner
decide-same w n s shared e = ground arith

pub decide-same_without :
    (w : World) (s : Session) (shared : SharedState) (o : Option BlockAction)
    → s.current_block_action ≡ o
    → (decide w none s shared).2 ≡ shared
unfolding decide get_action_for_block
decide-same_without w s shared none e = rw (e, decide) refl
decide-same_without w s shared (some accept) e = rw (e, decide) refl
decide-same_without w s shared (some skip) e = rw (e, decide) refl
decide-same_without w s shared (some resend) e = rw (e, decide) refl
decide-same_without w s shared (some end_behind) e = rw (e, decide) refl
decide-same_without w s shared (some end_duplicate) e = rw (e, decide) refl
decide-same_without w s shared (some end_error) e = rw (e, decide) refl
decide-same_without w s shared (some bad_block_proof) e = rw (e, decide) refl

pub decide-Chosen :
    (cut : ℕ) (w : World) (number : Option ℤ) (s : Session) (shared : SharedState)
    → (decide w number s shared).2 ≡ shared
    → Chosen cut s.id shared (decide w number s shared)
decide-Chosen cut w number s shared e =
    let d = decide-Decided w number s shared in
    record {
      same_id = d.same_id;
      won = d.won;
      spares = same_winners cut s.id shared _ (ap (λ after. after.block_winners) e);
    }
