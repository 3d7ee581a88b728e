-- ===== src/Publish/Completion.antt =====
-- The end of a block (session_manager.rs): the block goes to verification, the session waits for
-- the outcome and tells the publishers.
use rock_node.Base.{
  ℕ, List, [], ◌∷◌, ◌++◌, none, some, Bool, true, false, ◌&&◌, ◌==◌, if◌then◌else◌,
}
use rock_node.Base.Word.{add64}
use rock_node.Base.Signed.{as_u64, as_i64}
use rock_node.Base.Assoc.{remove}
use rock_node.Publish.State.{
  bad_block_proof, acknowledgement, resend_block, SharedState, Submission, broadcast, others,
}
use rock_node.Publish.Session.{
  Session, World, State, BusEvent, verification_failed, persisted, reset_for_next_block,
  handle_end_error,
}

pub data Outcome : Type 0 where
  success failure timeout : Outcome

-- The loop of `wait_for_verification_and_persistence`, over the events that arrive before the
-- timeout: the first that names both the block and the key decides.
unfoldable pub await_outcome : ℕ → ℕ → List BusEvent → Outcome
await_outcome n key [] = timeout
await_outcome n key (verification_failed m k ∷ rest) =
    let later = await_outcome n key rest in if m == n && k == key then failure else later
await_outcome n key (persisted m k ∷ rest) =
    let later = await_outcome n key rest in if m == n && k == key then success else later

-- `block_winners.remove`
unfoldable pub release : ℕ → SharedState → SharedState
release n shared = record shared { block_winners = remove n shared.block_winners }

-- The three arms after the wait, for block `n`.
unfoldable pub conclude : Outcome → ℕ → Session → SharedState → SharedState
unfolding release broadcast others handle_end_error
conclude success n s shared = release n (
    broadcast shared.active_sessions (acknowledgement n)
      (record shared { latest_persisted_block = as_i64 n }))
conclude failure n s shared = release n (
    broadcast (others s.id shared.active_sessions) (resend_block n)
      (handle_end_error bad_block_proof s shared))
conclude timeout n s shared =
    let free = release n shared in
    broadcast (others s.id free.active_sessions) (resend_block n) free

-- `wait_for_verification_and_persistence` and the lines of `complete_block` behind it: the session
-- goes on to its next block, or ends.
unfoldable pub settle : Outcome → ℕ → Session → SharedState → State × Bool
unfolding conclude reset_for_next_block
settle success n s shared = ((reset_for_next_block s, conclude success n s shared), false)
settle failure n s shared = ((s, conclude failure n s shared), true)
settle timeout n s shared = ((s, conclude timeout n s shared), true)

-- `complete_block`
unfoldable pub complete_block : World → Session → SharedState → State × Bool
unfolding settle await_outcome
complete_block w s shared =
    let n = as_u64 s.current_block_number in
    let s' = record s { blocks_accepted = add64 s.blocks_accepted 1; item_buffer = [] } in
    elim (w.encode s.item_buffer) [
      | none ↦ ((s', shared), true)
      | some contents ↦
          let submission : Submission = record {
            block_number = n;
            cache_key = w.cache_key;
            contents = contents;
          } in
          if w.verification_open
          then settle (await_outcome n w.cache_key w.events) n s'
              (w.during_wait (record shared { submitted = shared.submitted ++ (submission ∷ []) }))
          else ((s', shared), true)
    ]
