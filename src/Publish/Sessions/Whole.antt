-- ===== src/Publish/Sessions/Whole.antt =====
-- The pieces of a request, one after the other, are `handle_request`.
use rock_node.Base.{
  ℕ, ◌≡◌, refl, ap, ◌∙◌, inl, inr, List, Option, none, some, Bool, true, false, arith, Option-cases,
  Bool-cases, is_some,
}
use rock_node.Base.Word.{add64}
use rock_node.Base.Signed.{ℤ, as_i64, eq_i64}
use rock_node.Block.{BlockItem}
use rock_node.Publish.State.{
  BlockAction, accept, skip, resend, end_behind, end_duplicate, end_error, bad_block_proof,
  SharedState,
}
use rock_node.Publish.Validation.{validate_block_items}
use rock_node.Publish.Session.{Session, World, State}
use rock_node.Publish.Actions.{Decision, elect, get_action_for_header, get_action_for_block}
use rock_node.Publish.Completion.{complete_block}
use rock_node.Publish.Handler.{
  Request, block_items, end_of_block, end_of_stream, accept_items, header_number, decide, execute,
  act, handle_accept, handle_block_items, refuse_end, handle_block_end, handle_request,
}
use rock_node.Publish.Sessions.{
  absent, idle, looking, waiting, leaving, Progress, finish, submit, take_in, proceed, is_open,
  begin_block, start_items, start_end, start_request, resume,
}

module _ (w : World) where
  -- The session goes on after the other sessions have run.
  abbrev pub go_on_after : Progress → Progress
  go_on_after (absent, shared) = (absent, shared)
  go_on_after (idle s, shared) = (idle s, shared)
  go_on_after (looking n items s, shared) = resume w (looking n items s) (w.meanwhile shared)
  go_on_after (waiting key s, shared) = resume w (waiting key s) (w.during_wait shared)
  go_on_after (leaving s, shared) = (leaving s, shared)

  finish_stays : (r : State × Bool) → go_on_after (finish r) ≡ finish r
  unfolding finish
  finish_stays ((s, shared), true) = refl
  finish_stays ((s, shared), false) = refl

  submit-complete_block :
      (s : Session) (shared : SharedState)
      → go_on_after (submit w s shared) ≡ finish (complete_block w s shared)
  unfolding submit complete_block finish resume
  submit-complete_block s shared = elim (Option-cases (w.encode s.item_buffer)) [
    | inl e ↦ rw (e, complete_block, submit) refl
    | inr (contents, e) ↦ elim (Bool-cases w.verification_open) [
      | inl opened ↦ rw (e, complete_block, submit, opened) refl
      | inr closed ↦ rw (e, complete_block, submit, closed) refl
    ]
  ]

  take_in-handle_accept :
      (items : List BlockItem) (s : Session) (shared : SharedState)
      → go_on_after (take_in w items s shared) ≡ finish (handle_accept w items s shared)
  unfolding take_in handle_accept finish
  take_in-handle_accept items s shared = elim (Bool-cases (accept_items s.item_buffer items).1) [
    | inl proven ↦ rw (proven, handle_accept, take_in) (submit-complete_block _ shared)
    | inr open_block ↦ rw (open_block, handle_accept, take_in) refl
  ]

  proceed-act :
      (items : List BlockItem) (d : Decision)
      → go_on_after (proceed w items d) ≡ finish (act w items d)
  unfolding proceed act execute finish
  proceed-act items (accept, s, shared) = take_in-handle_accept items _ shared
  proceed-act items (skip, s, shared) = refl
  proceed-act items (resend, s, shared) = refl
  proceed-act items (end_behind, s, shared) = refl
  proceed-act items (end_duplicate, s, shared) = refl
  proceed-act items (end_error, s, shared) = refl
  proceed-act items (bad_block_proof, s, shared) = refl

  finish_stays_on : (r : State × Bool) → go_on_after (go_on_after (finish r)) ≡ finish r
  finish_stays_on r = ap go_on_after (finish_stays r) ∙ finish_stays r

  proceed_all :
      (items : List BlockItem) (d : Decision)
      → go_on_after (go_on_after (proceed w items d)) ≡ finish (act w items d)
  proceed_all items d = ap go_on_after (proceed-act items d) ∙ finish_stays _

  -- An open block is decided at the second look.
  is_open-elect :
      (n : ℤ) (s : Session) (shared : SharedState)
      → is_open n shared ≡ true
      → decide w (some n) s shared ≡ elect n s (w.meanwhile shared)
  unfolding is_open decide get_action_for_block get_action_for_header
  is_open-elect n s shared e = ground arith

  begin_block-act :
      (n : ℤ) (items : List BlockItem) (s : Session) (shared : SharedState)
      → go_on_after (go_on_after (begin_block w n items s shared))
        ≡ finish (act w items (decide w (some n) s shared))
  unfolding begin_block resume
  begin_block-act n items s shared = elim (Bool-cases (is_open n shared)) [
    | inl e ↦ rw (e, begin_block) (rw (is_open-elect n s shared e) (proceed-act items _))
    | inr e ↦ rw (e, begin_block) (proceed_all items _)
  ]

  start_items-handle_block_items :
      (items : List BlockItem) (s : Session) (shared : SharedState)
      → go_on_after (go_on_after (start_items w items s shared))
        ≡ finish (handle_block_items w items s shared)
  unfolding start_items handle_block_items finish
  start_items-handle_block_items items s shared =
      let s' = record s { blocks_received = add64 s.blocks_received 1 } in
      elim (Option-cases (validate_block_items s.max_items items (is_some (header_number items)))) [
        | inr (error, e) ↦ rw (e, start_items, handle_block_items) refl
        | inl e ↦ elim (Option-cases (header_number items)) [
          | inl none_there ↦
              rw (e, start_items, handle_block_items)
                (rw none_there (proceed_all items (decide w none s' shared)))
          | inr (n, there) ↦
              rw (e, start_items, handle_block_items) (rw there (begin_block-act n items s' shared))
        ]
      ]

  start_end-handle_block_end :
      (n : ℕ) (s : Session) (shared : SharedState)
      → go_on_after (go_on_after (start_end w n s shared)) ≡ finish (handle_block_end w n s shared)
  unfolding start_end handle_block_end finish
  start_end-handle_block_end n s shared = by_action s.current_block_action refl
    where
      submitted : go_on_after (go_on_after (submit w s shared)) ≡ finish (complete_block w s shared)
      submitted = ap go_on_after (submit-complete_block s shared) ∙ finish_stays _

      refused :
          go_on_after (go_on_after (finish (refuse_end s shared))) ≡ finish (refuse_end s shared)
      refused = finish_stays_on (refuse_end s shared)

      by_action :
          (o : Option BlockAction)
          → s.current_block_action ≡ o
          → go_on_after (go_on_after (start_end w n s shared))
            ≡ finish (handle_block_end w n s shared)
      by_action none e = rw (e, start_end, handle_block_end) refused
      by_action (some accept) e = elim (Bool-cases (eq_i64 (as_i64 n) s.current_block_number)) [
        | inl same ↦ rw (e, start_end, handle_block_end) (rw same submitted)
        | inr other ↦ rw (e, start_end, handle_block_end) (rw other refused)
      ]
      by_action (some skip) e = rw (e, start_end, handle_block_end) refused
      by_action (some resend) e = rw (e, start_end, handle_block_end) refused
      by_action (some end_behind) e = rw (e, start_end, handle_block_end) refused
      by_action (some end_duplicate) e = rw (e, start_end, handle_block_end) refused
      by_action (some end_error) e = rw (e, start_end, handle_block_end) refused
      by_action (some bad_block_proof) e = rw (e, start_end, handle_block_end) refused

  -- A request in pieces, with what the other sessions do between its looks at the winners and while
  -- it waits, is the whole request.
  pub start_request-handle_request :
      (request : Request) (s : Session) (shared : SharedState)
      → go_on_after (go_on_after (start_request w request s shared))
        ≡ finish (handle_request w request s shared)
  unfolding start_request handle_request finish
  start_request-handle_request (block_items items) s shared =
      start_items-handle_block_items items s shared
  start_request-handle_request (end_of_block n) s shared = start_end-handle_block_end n s shared
  start_request-handle_request (end_of_stream earliest latest) s shared = refl
