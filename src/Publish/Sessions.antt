-- ===== src/Publish/Sessions.antt =====
-- The sessions of a node side by side: the handlers of session_manager.rs cut where they wait or let
-- other sessions run, the tasks of service.rs, and the clean-up task of lib.rs. Each piece is one
-- step of the node.
pub mod Whole
mod Keys
mod Spares
mod Deciding
mod Invariant
mod Moves
pub mod Safety
pub mod Tests
use mathlib.Core.Logic.{ite}
use native.Mathlib.Decide.{ℕ_discrete}
use rock_node.Base.{
  ℕ, zero, ◌≡◌, List, [], ◌∷◌, ◌++◌, Option, none, some, Bool, true, false, ◌&&◌, ◌==◌,
  if◌then◌else◌, is_some, unwrap_or,
}
use rock_node.Base.Word.{add64, max}
use rock_node.Base.Signed.{ℤ, as_u64, as_i64, lt_i64, eq_i64}
use rock_node.Base.Assoc.{lookup}
use rock_node.Base.Results.{Fallible}
use rock_node.Block.{BlockItem}
use rock_node.Publish.State.{
  BlockAction, accept, skip, resend, end_behind, end_duplicate, end_error, bad_block_proof,
  end_stream, error_code, SharedState, Submission, send, others,
}
use rock_node.Publish.Validation.{validate_block_items}
use rock_node.Publish.Session.{Session, World, State, new_session}
use rock_node.Publish.Actions.{Decision, elect}
use rock_node.Publish.Completion.{await_outcome, settle}
use rock_node.Publish.Handler.{
  Request, block_items, end_of_block, end_of_stream, accept_items, header_number, decide, execute,
  refuse_end, close_session,
}
use rock_node.Publish.Plugin.{clean_up, clean_up_before, start_state}

-- Where the task of a session is: there is none; it waits for a request; it has found the block of a
-- header without a winner, and has still to enter the winners; it has submitted its block under a
-- key, and waits for the outcome; its loop has ended, and it has still to clean up.
pub data Phase : Type 0 where
  absent : Phase
  idle : Session → Phase
  looking : ℤ → List BlockItem → Session → Phase
  waiting : ℕ → Session → Phase
  leaving : Session → Phase

abbrev pub Progress : Type 0
Progress = Phase × SharedState

-- What `serve` does with the result of a request.
unfoldable pub finish : State × Bool → Progress
finish ((s, shared), true) = (leaving s, shared)
finish ((s, shared), false) = (idle s, shared)

-- `complete_block`, up to the wait.
unfoldable pub submit : World → Session → SharedState → Progress
submit w s shared =
    let s' = record s { blocks_accepted = add64 s.blocks_accepted 1; item_buffer = [] } in
    elim (w.encode s.item_buffer) [
      | none ↦ (leaving s', shared)
      | some contents ↦
          let submission : Submission = record {
            block_number = as_u64 s.current_block_number;
            cache_key = w.cache_key;
            contents = contents;
          } in
          if w.verification_open
          then (
            waiting w.cache_key s',
            record shared { submitted = shared.submitted ++ (submission ∷ []) },
          )
          else (leaving s', shared)
    ]

-- `handle_accept`, up to the wait.
unfoldable pub take_in : World → List BlockItem → Session → SharedState → Progress
unfolding submit
take_in w items s shared =
    let (buffer, proven) = accept_items s.item_buffer items in
    let s' = record s { item_buffer = buffer } in
    if proven then submit w s' shared else (idle s', shared)

-- The decision is stored, and executed up to the wait.
unfoldable pub proceed : World → List BlockItem → Decision → Progress
unfolding take_in finish
proceed w items (accept, s, shared) =
    take_in w items (record s { current_block_action = some accept }) shared
proceed w items (skip, s, shared) =
    finish (execute w skip items (record s { current_block_action = some skip }) shared)
proceed w items (resend, s, shared) =
    finish (execute w resend items (record s { current_block_action = some resend }) shared)
proceed w items (end_behind, s, shared) =
    finish (execute w end_behind items (record s { current_block_action = some end_behind }) shared)
proceed w items (end_duplicate, s, shared) =
    finish (
      execute w end_duplicate items (record s { current_block_action = some end_duplicate }) shared)
proceed w items (end_error, s, shared) =
    finish (execute w end_error items (record s { current_block_action = some end_error }) shared)
proceed w items (bad_block_proof, s, shared) = finish (
    execute w bad_block_proof items (record s { current_block_action = some bad_block_proof })
      shared)

-- The block is later than all that is persisted, and the first look finds no winner.
unfoldable pub is_open : ℤ → SharedState → Bool
is_open n shared =
    if lt_i64 n shared.latest_persisted_block
    then false
    else if eq_i64 n shared.latest_persisted_block
    then false
    else if is_some (lookup (as_u64 n) shared.block_winners)
    then false
    else true

-- The decision on a block's header, up to the second look.
unfoldable pub begin_block : World → ℤ → List BlockItem → Session → SharedState → Progress
unfolding is_open proceed
begin_block w n items s shared =
    if is_open n shared
    then (looking n items s, shared)
    else proceed w items (decide w (some n) s shared)

-- `handle_block_items`, up to the second look or the wait.
unfoldable pub start_items : World → List BlockItem → Session → SharedState → Progress
unfolding begin_block proceed
start_items w items s shared =
    let s' = record s { blocks_received = add64 s.blocks_received 1 } in
    let number = header_number items in
    elim (validate_block_items s.max_items items (is_some number)) [
      | some _ ↦ (
        leaving s',
        send s.id (end_stream error_code (as_u64 (unwrap_or number s.current_block_number))) shared,
      )
      | none ↦ elim number [
        | some n ↦ begin_block w n items s' shared
        | none ↦ proceed w items (decide w none s' shared)
      ]
    ]

-- `handle_block_end`, up to the wait.
unfoldable pub start_end : World → ℕ → Session → SharedState → Progress
unfolding submit finish
start_end w n s shared = elim s.current_block_action [
  | some accept ↦
      if eq_i64 (as_i64 n) s.current_block_number
      then submit w s shared
      else finish (refuse_end s shared)
  | _ ↦ finish (refuse_end s shared)
]

-- `handle_request`, up to the second look or the wait.
unfoldable pub start_request : World → Request → Session → SharedState → Progress
unfolding start_items start_end
start_request w (block_items items) s shared = start_items w items s shared
start_request w (end_of_block n) s shared = start_end w n s shared
start_request w (end_of_stream earliest latest) s shared = (leaving s, shared)

-- The handler goes on after the first look, or after the wait.
unfoldable pub resume : World → Phase → SharedState → Progress
unfolding proceed finish
resume w absent shared = (absent, shared)
resume w (idle s) shared = (idle s, shared)
resume w (looking n items s) shared = proceed w items (elect n s shared)
resume w (waiting key s) shared =
    let n = as_u64 s.current_block_number in
    finish (settle (await_outcome n key w.events) n s shared)
resume w (leaving s) shared = (leaving s, shared)

-- `publish_block_stream`: a session with a new id is registered.
unfoldable pub register : ℕ → SharedState → SharedState
register id shared = record shared { active_sessions = id ∷ others id shared.active_sessions }

abbrev pub update {ℓ} : {A : Type ℓ} → (ℕ → A) → ℕ → A → ℕ → A
update f i a j = ite (ℕ_discrete i j) a (f j)

-- What the sessions share, and the task of each session.
pub record Node : Type 0 where
  pub shared : SharedState
  pub phase : ℕ → Phase

unfoldable pub move : Node → ℕ → Progress → Node
move t i (p, shared) = record { shared = shared; phase = update t.phase i p }

-- What can happen next: a publisher connects, sends a request, or goes away; a session that let
-- others run goes on; a task that has ended cleans up; or the clean-up task makes a round.
pub data Step (max_items threshold : ℕ) (t : Node) : Node → Type 0 where
  connect :
      (i : ℕ)
      → t.phase i ≡ absent
      → Step max_items threshold t (move t i (idle (new_session i max_items), register i t.shared))
  request :
      (i : ℕ) (w : World) (r : Request) (s : Session)
      → t.phase i ≡ idle s
      → Step max_items threshold t (move t i (start_request w r s t.shared))
  go_on :
      (i : ℕ) (w : World) → Step max_items threshold t (move t i (resume w (t.phase i) t.shared))
  disconnect :
      (i : ℕ) (s : Session)
      → t.phase i ≡ idle s
      → Step max_items threshold t (move t i (leaving s, t.shared))
  leave :
      (i : ℕ) (s : Session)
      → t.phase i ≡ leaving s
      → Step max_items threshold t (move t i (absent, close_session i t.shared))
  clean : Step max_items threshold t (record t { shared = clean_up threshold t.shared })

abbrev pub start_node : SharedState → Node
start_node shared = record { shared = shared; phase = λ i. absent }

-- The runs of a node, from the shared state that the plugin starts with.
pub data Run (max_items threshold : ℕ) : Node → Type 0 where
  started :
      (reader : Option (Fallible (Option ℕ)))
      → Run max_items threshold (start_node (start_state reader))
  then_step :
      {t t' : Node}
      → Run max_items threshold t
      → Step max_items threshold t t'
      → Run max_items threshold t'
