-- ===== src/Publish/Tests.antt =====
-- Runs of the publish plugin's model on concrete inputs, and the theorems at such inputs.
use rock_node.Base.{
  ℕ, ◌≡◌, ◌≢◌, ◌↔◌, refl, ◌∙◌, true, false, List, [], ◌∷◌, none, some, arith, if◌then◌else◌, ◌==◌,
}
use rock_node.Base.Word.{add64}
use rock_node.Base.Signed.{pos, as_u64, as_i64}
use rock_node.Base.Assoc.{lookup, insert, lookup-insert}
use rock_node.Block.{BlockItem, block_header, block_proof, other_item}
use rock_node.Samples.{encode, sample_block}
use rock_node.Publish.State.{SharedState, initial, accept, skip_block, send, broadcast}
use rock_node.Publish.Validation.{validate_block_items, check_first}
use rock_node.Publish.Session.{
  Session, World, BusEvent, persisted, new_session, reset_for_next_block,
}
use rock_node.Publish.Completion.{complete_block, await_outcome, settle, conclude, release}
use rock_node.Publish.Handler.{
  block_items, header_number, handle_accept, handle_request, close_session, handle_block_items,
  decide, act, execute, accept_items,
}
use rock_node.Publish.Winners.{Wins, IsReady}
use rock_node.Publish.Actions.{get_action_for_block, get_action_for_header, elect}
use rock_node.Publish.Winners.Requests.{handle_request-Keeps, handle_request-IsReady}
use rock_node.Publish.Headers.{Begins, lost_election, lost_race}
use rock_node.Publish.Assembly.{Arrival, go_on_with, Follow, changed, Completed, assemble}
use rock_node.Publish.Acknowledgements.{acknowledged, reports, complete_block-acknowledged}
use rock_node.Publish.Closing.{memb, close_session_lem}

-- A world in which nothing else happens but the events.
abbrev world : List BusEvent → World
world events = record {
  meanwhile = λ shared. shared;
  during_wait = λ shared. shared;
  encode = λ b. some (encode b);
  cache_key = 9;
  verification_open = true;
  events = events;
}

abbrev session : Session
session = new_session 1 100

-- Sessions 1 and 2 are active, and session 2 has won block 4.
abbrev shared : SharedState
shared = record initial { block_winners = (4, 2) ∷ []; active_sessions = 1 ∷ 2 ∷ [] }

Begins-4 : Begins (pos 4) (sample_block 4) session shared
unfolding new_session validate_block_items check_first header_number as_i64
Begins-4 = record { header = refl; valid = refl; not_behind = refl; not_latest = refl }

Begins-5 : Begins (pos 5) (sample_block 5) session shared
unfolding new_session validate_block_items check_first header_number as_i64
Begins-5 = record { header = refl; valid = refl; not_behind = refl; not_latest = refl }

won_4 : Wins 2 (as_u64 (pos 4)) shared
unfolding as_u64
won_4 = refl

free_5 : lookup (as_u64 (pos 5)) shared.block_winners ≡ none
unfolding as_u64
free_5 = refl

other_session : 2 ≢ session.id
unfolding new_session
other_session e = ground arith

lost_election_example : handle_request (world []) (block_items (sample_block 4)) session shared ≡ (
  (
    reset_for_next_block (record session {
      blocks_received = add64 session.blocks_received 1;
      blocks_skipped = add64 session.blocks_skipped 1;
    }),
    send session.id (skip_block (as_u64 (pos 4))) shared,
  ),
  false,
)
lost_election_example =
    lost_election (world []) (pos 4) (sample_block 4) session shared 2 Begins-4 won_4 other_session

-- Session 2 wins block 5 between the two looks of session 1.
abbrev overtaken : SharedState → SharedState
overtaken s = record s { block_winners = insert 5 2 s.block_winners }

won_5 : Wins 2 (as_u64 (pos 5)) (overtaken shared)
unfolding as_u64
won_5 = refl

lost_race_example :
    (handle_request
      (record (world []) { meanwhile = overtaken })
      (block_items (sample_block 5))
      session
      shared).0.1
    ≡ send session.id (skip_block (as_u64 session.current_block_number)) (overtaken shared)
lost_race_example =
    lost_race (record (world []) { meanwhile = overtaken }) (pos 5) (sample_block 5) session shared
      2 Begins-5 free_5 won_5

-- Session 2 after the header of block 4.
abbrev streaming : Session
streaming = record (new_session 2 100) {
  current_block_number = pos 4;
  current_block_action = some accept;
  item_buffer = some (block_header 4) ∷ [];
}

acknowledged_4 :
    acknowledged 4 (complete_block (world (persisted 4 9 ∷ [])) streaming shared).0.1.sent ≡ true
unfolding complete_block settle await_outcome conclude broadcast release reset_for_next_block
    new_session as_u64 as_i64 add64
acknowledged_4 = refl

complete_block-acknowledged_example :
    (as_u64 streaming.current_block_number ≡ 4)
    × (reports (as_u64 streaming.current_block_number) 9 (persisted 4 9 ∷ []) ≡ true)
complete_block-acknowledged_example =
    complete_block-acknowledged (world (persisted 4 9 ∷ [])) streaming shared 4 acknowledged_4 refl
      (λ contents. refl)

close_session_lem_example :
    (Wins 1 4 (close_session 2 shared) ↔ (Wins 1 4 shared × ◌≢◌ {A = ℕ} 1 2))
    × (memb 1 (close_session 2 shared).active_sessions
        ≡ (if 1 == 2 then false else memb 1 shared.active_sessions))
close_session_lem_example = close_session_lem 2 shared 4 1 (refl, tt)

winner_4 : Wins 2 4 shared
winner_4 = refl

handle_request-Keeps_example :
    Wins 2 4 (handle_request (world []) (block_items (sample_block 5)) session shared).0.1
unfolding new_session
handle_request-Keeps_example =
    handle_request-Keeps (world []) (block_items (sample_block 5)) session shared 2 4 (λ n now h. h)
      refl other_session (λ now h. h) (λ now h. h) winner_4

-- Session 1 begins block 5, whose items are still to come.
abbrev header_5 : List BlockItem
header_5 = some (block_header 5) ∷ []

goes_on : (handle_request (world []) (block_items header_5) session shared).1 ≡ false
unfolding handle_request handle_block_items header_number validate_block_items check_first decide
    get_action_for_block get_action_for_header elect act execute handle_accept accept_items
    new_session as_i64 as_u64
goes_on = refl

handle_request-IsReady_example :
    IsReady
      (handle_request (world []) (block_items header_5) session shared).0.0
      (handle_request (world []) (block_items header_5) session shared).0.1
unfolding new_session
handle_request-IsReady_example =
    handle_request-IsReady (world []) (block_items header_5) session shared (λ n now h. h) refl
      goes_on

-- Session 2 wins block 6 while session 1 sends block 5 in three sets.
abbrev sets_of_5 : List Arrival
sets_of_5 =
    record {
      meanwhile = λ now. record now { block_winners = insert 6 2 now.block_winners };
      world = world [];
      items = some (other_item 7) ∷ [];
    }
    ∷ record {
      meanwhile = λ now. now;
      world = world (persisted 5 9 ∷ []);
      items = some (other_item 8) ∷ some (block_proof 5) ∷ [];
    }
    ∷ []

header_5-Begins : Begins (pos 5) header_5 session shared
unfolding new_session validate_block_items check_first header_number as_i64
header_5-Begins = record { header = refl; valid = refl; not_behind = refl; not_latest = refl }

sets-Follow : Follow session.max_items session.id (as_u64 (pos 5)) sets_of_5
unfolding new_session validate_block_items header_number as_u64
sets-Follow = (
  record { header = refl; valid = refl },
  λ now h. lookup-insert 6 5 2 now.block_winners ∙ h,
  (record { header = refl; valid = refl }, λ now h. h, tt),
)

assemble_example :
    Completed
      (go_on_with sets_of_5 (handle_request (world []) (block_items header_5) session shared))
      (world (persisted 5 9 ∷ []))
      (pos 5)
      session.id
      (some (block_header 5)
        ∷ some (other_item 7)
        ∷ some (other_item 8)
        ∷ some (block_proof 5)
        ∷ [])
      (changed sets_of_5
        (record shared { block_winners = insert (as_u64 (pos 5)) session.id shared.block_winners }))
unfolding new_session
assemble_example =
    assemble (world []) (pos 5) header_5 sets_of_5 session shared header_5-Begins free_5 free_5
      sets-Follow (refl, (refl, refl))
