-- ===== src/Publish/Sessions/Tests.antt =====
-- Runs of several sessions, and the theorems at them.
use rock_node.Base.{ℕ, ◌≡◌, ◌≢◌, refl, true, List, [], ◌∷◌, none, some, arith}
use rock_node.Base.Word.{max}
use rock_node.Base.Signed.{as_u64, as_i64}
use rock_node.Block.{BlockItem, block_header, other_item}
use rock_node.Samples.{encode}
use rock_node.Publish.State.{skip_block, send}
use rock_node.Publish.Validation.{validate_block_items, check_first}
use rock_node.Publish.Session.{World, BusEvent, new_session, reset_for_next_block, handle_skip}
use rock_node.Publish.Actions.{elect}
use rock_node.Publish.Handler.{block_items, header_number, accept_items, execute}
use rock_node.Publish.Plugin.{start_state, latest_at_start}
use rock_node.Publish.Winners.{Wins}
use rock_node.Publish.Sessions.{
  absent, idle, Node, move, Run, started, then_step, connect, request, go_on, start_node,
  start_request, start_items, begin_block, is_open, resume, proceed, take_in, register, finish,
}
use rock_node.Publish.Sessions.Spares.{TakesIn}
use rock_node.Publish.Sessions.Safety.{one_session, winners_present}

abbrev world : List BusEvent → World
world events = record {
  meanwhile = λ shared. shared;
  during_wait = λ shared. shared;
  encode = λ b. some (encode b);
  cache_key = 9;
  verification_open = true;
  events = events;
}

-- The header of block 5, and one item of it.
abbrev first_items : List BlockItem
first_items = some (block_header 5) ∷ some (other_item 1) ∷ []

abbrev at_start : Node
at_start = start_node (start_state none)

abbrev connected : Node
connected = move at_start 1 (idle (new_session 1 100), register 1 at_start.shared)

abbrev both_connected : Node
both_connected = move connected 2 (idle (new_session 2 100), register 2 connected.shared)

abbrev after_first : Node
after_first =
    move both_connected 1
      (start_request (world []) (block_items first_items) (new_session 1 100) both_connected.shared)

abbrev after_second : Node
after_second =
    move after_first 2
      (start_request (world []) (block_items first_items) (new_session 2 100) after_first.shared)

abbrev first_won : Node
first_won = move after_second 1 (resume (world []) (after_second.phase 1) after_second.shared)

abbrev second_skipped : Node
second_skipped = move first_won 2 (resume (world []) (first_won.phase 2) first_won.shared)

-- Sessions 1 and 2 connect and send the header of block 5, both find it without a winner, and
-- session 1 is the first to enter the winners.
raced : Run 100 1000 second_skipped
unfolding move native.Mathlib.Decide.ℕ_discrete
raced =
    then_step
      (then_step
        (then_step
          (then_step (then_step (then_step (started none) (connect 1 refl)) (connect 2 refl))
            (request 1 (world []) (block_items first_items) (new_session 1 100) refl))
          (request 2 (world []) (block_items first_items) (new_session 2 100) refl))
        (go_on 1 (world [])))
      (go_on 2 (world []))

first_takes_5 : TakesIn 5 (second_skipped.phase 1)
unfolding move start_state latest_at_start start_request start_items begin_block is_open resume
    proceed take_in new_session register validate_block_items check_first header_number as_i64
    as_u64 elect accept_items native.Mathlib.Decide.ℕ_discrete
first_takes_5 = (refl, refl)

-- The publisher that was second is told to skip.
second_told : second_skipped.shared.sent ≡ (2, skip_block 0) ∷ []
unfolding move start_state latest_at_start start_request start_items begin_block is_open resume
    proceed take_in new_session register validate_block_items check_first header_number as_i64
    as_u64 elect accept_items native.Mathlib.Decide.ℕ_discrete execute handle_skip send finish
    reset_for_next_block
second_told = refl

one_session_example : ◌≡◌ {A = ℕ} 1 1
unfolding max raced
one_session_example = one_session raced 1 1 5 (omega arith) first_takes_5 first_takes_5

first_won_5 : Wins 1 5 second_skipped.shared
unfolding move start_state latest_at_start start_request start_items begin_block is_open resume
    proceed take_in new_session register validate_block_items check_first header_number as_i64
    as_u64 elect accept_items native.Mathlib.Decide.ℕ_discrete execute handle_skip send finish
    reset_for_next_block
first_won_5 = refl

winners_present_example : second_skipped.phase 1 ≢ absent
winners_present_example = winners_present raced 1 5 first_won_5
