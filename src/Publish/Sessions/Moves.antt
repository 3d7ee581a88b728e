-- ===== src/Publish/Sessions/Moves.antt =====
-- What a piece of a session's request does to the election: the session takes in only blocks that it
-- has won, and takes no block from another session.
use mathlib.Core.Path.{subst}
use rock_node.Base.{
  ℕ, ◌≡◌, ◌≤◌, refl, sym, ap, ◌∙◌, inl, inr, List, Option, none, some, arith, Option-cases,
  Bool-cases, is_some, ◌==◌, if◌then◌else◌,
}
use rock_node.Base.Word.{add64}
use rock_node.Base.Signed.{as_u64, as_i64, eq_i64}
use rock_node.Base.Assoc.{lookup, lookup-remove}
use rock_node.Block.{BlockItem}
use rock_node.Publish.State.{
  BlockAction, accept, skip, resend, end_behind, end_duplicate, end_error, bad_block_proof,
  SharedState, send,
}
use rock_node.Publish.Validation.{validate_block_items}
use rock_node.Publish.Session.{Session, World, handle_end_error, reset_for_next_block}
use rock_node.Publish.Completion.{Outcome, success, failure, timeout, conclude, settle}
use rock_node.Publish.Handler.{
  Request, block_items, end_of_block, end_of_stream, header_number, refuse_end,
}
use rock_node.Publish.Winners.{Wins}
use rock_node.Publish.Winners.Completing.{conclude-winners}
use rock_node.Publish.Closing.{HasUniqueKeys}
use rock_node.Publish.Sessions.Keys.{remove-HasUniqueKeys}
use rock_node.Publish.Sessions.{
  Phase, absent, idle, looking, waiting, leaving, finish, is_open, begin_block, start_items,
  start_end, start_request, resume,
}
use rock_node.Publish.Sessions.Spares.{IsTaskOf, Holds, Spares, Moved, same_winners, quiet}
use rock_node.Publish.Sessions.Deciding.{
  submit-Moved, proceed-Moved, elect-Chosen, decide-same, decide-same_without, decide-Chosen,
}

start_items-Moved :
    (cut : ℕ) (w : World) (items : List BlockItem) (s : Session) (shared : SharedState)
    → Moved cut s.id shared (start_items w items s shared)
unfolding start_items begin_block send
start_items-Moved cut w items s shared =
    let s' = record s { blocks_received = add64 s.blocks_received 1 } in
    elim (Option-cases (validate_block_items s.max_items items (is_some (header_number items)))) [
      | inr (error, e) ↦ rw (e, start_items) (quiet cut s.id shared _ refl (λ n t. t) refl)
      | inl e ↦ elim (Option-cases (header_number items)) [
        | inl none_there ↦
            rw (e, start_items)
              (rw none_there (
                proceed-Moved cut s.id w items shared _ (
                  decide-Chosen cut w none s' shared
                    (decide-same_without w s' shared s.current_block_action refl))))
        | inr (n, there) ↦ elim (Bool-cases (is_open n shared)) [
          | inl open_block ↦
              rw (e, start_items)
                (rw (there, begin_block)
                  (rw (open_block, begin_block) (quiet cut s.id shared _ refl (λ n t. t) refl)))
          | inr decided ↦
              rw (e, start_items)
                (rw (there, begin_block)
                  (rw (decided, begin_block)
                    (proceed-Moved cut s.id w items shared _ (
                      decide-Chosen cut w (some n) s' shared (decide-same w n s' shared decided)))))
        ]
      ]
    ]

refused-Moved :
    (cut : ℕ) (s : Session) (shared : SharedState)
    → Moved cut s.id shared (finish (refuse_end s shared))
unfolding finish refuse_end handle_end_error send
refused-Moved cut s shared = quiet cut s.id shared _ refl (λ n t. t) refl

start_end-Moved :
    (cut : ℕ) (w : World) (n : ℕ) (s : Session) (shared : SharedState)
    → Holds cut s.id (idle s) shared
    → Moved cut s.id shared (start_end w n s shared)
unfolding start_end
start_end-Moved cut w n s shared held = by_action s.current_block_action refl
  where
    by_action :
        (o : Option BlockAction)
        → s.current_block_action ≡ o
        → Moved cut s.id shared (start_end w n s shared)
    by_action none e = rw (e, start_end) (refused-Moved cut s shared)
    by_action (some accept) e = elim (Bool-cases (eq_i64 (as_i64 n) s.current_block_number)) [
      | inl same ↦
          rw (e, start_end) (rw same (submit-Moved cut w s shared (λ le. held _ le (e, refl))))
      | inr other ↦ rw (e, start_end) (rw other (refused-Moved cut s shared))
    ]
    by_action (some skip) e = rw (e, start_end) (refused-Moved cut s shared)
    by_action (some resend) e = rw (e, start_end) (refused-Moved cut s shared)
    by_action (some end_behind) e = rw (e, start_end) (refused-Moved cut s shared)
    by_action (some end_duplicate) e = rw (e, start_end) (refused-Moved cut s shared)
    by_action (some end_error) e = rw (e, start_end) (refused-Moved cut s shared)
    by_action (some bad_block_proof) e = rw (e, start_end) (refused-Moved cut s shared)

pub start_request-Moved :
    (cut : ℕ) (w : World) (request : Request) (s : Session) (shared : SharedState)
    → Holds cut s.id (idle s) shared
    → Moved cut s.id shared (start_request w request s shared)
unfolding start_request
start_request-Moved cut w (block_items items) s shared held = start_items-Moved cut w items s shared
start_request-Moved cut w (end_of_block n) s shared held = start_end-Moved cut w n s shared held
start_request-Moved cut w (end_of_stream earliest latest) s shared held =
    quiet cut s.id shared _ refl (λ n t. t) refl

-- The outcome of a block takes the block from the winners, and no other one.
conclude-Spares :
    (cut : ℕ) (r : Outcome) (n : ℕ) (s : Session) (shared : SharedState)
    → (cut ≤ n → Wins s.id n shared)
    → Spares cut s.id shared (conclude r n s shared)
conclude-Spares cut r n s shared mine = record {
  keeps = λ o b ne le h. after b ∙ ground (arith, mine);
  fresh = λ o b ne h. ground (arith, sym (after b) ∙ h);
  unique = λ u.
      subst HasUniqueKeys (sym (conclude-winners r n s shared))
        (remove-HasUniqueKeys n shared.block_winners u);
}
  where
    after :
        (b : ℕ)
        → lookup b (conclude r n s shared).block_winners
          ≡ (if n == b then none else lookup b shared.block_winners)
    after b = ap (lookup b) (conclude-winners r n s shared) ∙ lookup-remove n b shared.block_winners

settle-Moved :
    (cut : ℕ) (r : Outcome) (n : ℕ) (s : Session) (shared : SharedState)
    → (cut ≤ n → Wins s.id n shared)
    → Moved cut s.id shared (finish (settle r n s shared))
unfolding settle finish reset_for_next_block
settle-Moved cut success n s shared mine = record {
  task = refl;
  holds = λ m le (t, e). absurd (no_action t);
  spares = conclude-Spares cut success n s shared mine;
}
  where
    no_action : none ≡ some accept → ⊥
    no_action h = cc
settle-Moved cut failure n s shared mine = record {
  task = refl;
  holds = λ m le t. absurd t;
  spares = conclude-Spares cut failure n s shared mine;
}
settle-Moved cut timeout n s shared mine = record {
  task = refl;
  holds = λ m le t. absurd t;
  spares = conclude-Spares cut timeout n s shared mine;
}

pub resume-Moved :
    (cut i : ℕ) (w : World) (p : Phase) (shared : SharedState)
    → IsTaskOf i p
    → Holds cut i p shared
    → Moved cut i shared (resume w p shared)
unfolding resume
resume-Moved cut i w absent shared task held = absurd task
resume-Moved cut i w (idle s) shared task held = record {
  task = task;
  holds = held;
  spares = same_winners cut i shared shared refl;
}
resume-Moved cut i w (looking n items s) shared task held =
    subst (λ j. Moved cut j shared (resume w (looking n items s) shared)) task
      (proceed-Moved cut s.id w items shared _ (elect-Chosen cut n s shared))
resume-Moved cut i w (waiting key s) shared task held =
    subst (λ j. Moved cut j shared (resume w (waiting key s) shared)) task
      (settle-Moved cut _ _ s shared (λ le.
        subst (λ j. Wins j (as_u64 s.current_block_number) shared) (sym task) (held _ le refl)))
resume-Moved cut i w (leaving s) shared task held = record {
  task = task;
  holds = held;
  spares = same_winners cut i shared shared refl;
}
