-- ===== src/Publish/Winners.antt =====
-- The election of publishers: who holds a block, and what a session relies on.
pub mod Decisions
pub mod Completing
pub mod Requests
use rock_node.Base.{ℕ, ◌≡◌, [], Option, none, some}
use rock_node.Base.Signed.{as_u64}
use rock_node.Base.Assoc.{lookup}
use rock_node.Publish.State.{
  BlockAction, accept, skip, resend, end_behind, end_duplicate, end_error, bad_block_proof,
  SharedState,
}
use rock_node.Publish.Session.{Session}

-- Session `o` is the winner of block `b`.
abbrev pub Wins : ℕ → ℕ → SharedState → Type 0
Wins o b shared = lookup b shared.block_winners ≡ some o

-- A change of the shared state that takes block `b` from session `o` never.
abbrev pub Keeps : ℕ → ℕ → (SharedState → SharedState) → Type 0
Keeps o b f = (shared : SharedState) → Wins o b shared → Wins o b (f shared)

abbrev pub ReadyFor : Option BlockAction → Session → SharedState → Type 0
ReadyFor none s shared = s.item_buffer ≡ []
ReadyFor (some accept) s shared = Wins s.id (as_u64 s.current_block_number) shared
ReadyFor (some skip) s shared = ⊥
ReadyFor (some resend) s shared = ⊥
ReadyFor (some end_behind) s shared = ⊥
ReadyFor (some end_duplicate) s shared = ⊥
ReadyFor (some end_error) s shared = ⊥
ReadyFor (some bad_block_proof) s shared = ⊥

-- Between two requests a session either has no block, and an empty buffer, or takes in a block that
-- it has won.
abbrev pub IsReady : Session → SharedState → Type 0
IsReady s shared = ReadyFor s.current_block_action s shared
