-- ===== src/Publish/Sessions/Spares.antt =====
-- What one session's moves may do to the other sessions.
use mathlib.Core.Path.{subst}
use rock_node.Base.{ℕ, ◌≡◌, ◌≢◌, ◌≤◌, sym, ap, ◌∙◌, some}
use rock_node.Base.Signed.{as_u64}
use rock_node.Base.Assoc.{lookup}
use rock_node.Publish.State.{accept, SharedState}
use rock_node.Publish.Winners.{Wins}
use rock_node.Publish.Closing.{HasUniqueKeys}
use rock_node.Publish.Sessions.{Phase, absent, idle, looking, waiting, leaving, Progress}

-- The task of session `i`, which has begun.
abbrev pub IsTaskOf : ℕ → Phase → Type 0
IsTaskOf i absent = ⊥
IsTaskOf i (idle s) = s.id ≡ i
IsTaskOf i (looking n items s) = s.id ≡ i
IsTaskOf i (waiting key s) = s.id ≡ i
IsTaskOf i (leaving s) = s.id ≡ i

-- The session takes in the items of block `n`, or waits for its outcome.
abbrev pub TakesIn : ℕ → Phase → Type 0
TakesIn n absent = ⊥
TakesIn n (idle s) = (s.current_block_action ≡ some accept) × (as_u64 s.current_block_number ≡ n)
TakesIn n (looking m items s) = ⊥
TakesIn n (waiting key s) = as_u64 s.current_block_number ≡ n
TakesIn n (leaving s) = ⊥

-- What session `i` has won, from block `cut` on.
abbrev pub Holds : ℕ → ℕ → Phase → SharedState → Type 0
Holds cut i p shared = (n : ℕ) → cut ≤ n → TakesIn n p → Wins i n shared

-- What a piece leaves to the other sessions: their blocks from `cut` on are theirs, they win no
-- further ones, and the map of winners is a map still.
pub record Spares (cut i : ℕ) (shared after : SharedState) : Type 0 where
  pub keeps : (o b : ℕ) → o ≢ i → cut ≤ b → Wins o b shared → Wins o b after
  pub fresh : (o b : ℕ) → o ≢ i → Wins o b after → Wins o b shared
  pub unique : HasUniqueKeys shared.block_winners → HasUniqueKeys after.block_winners

pub record Moved (cut i : ℕ) (shared : SharedState) (p : Progress) : Type 0 where
  pub task : IsTaskOf i p.0
  pub holds : Holds cut i p.0 p.1
  pub spares : Spares cut i shared p.1

pub same_winners :
    (cut i : ℕ) (shared after : SharedState)
    → after.block_winners ≡ shared.block_winners
    → Spares cut i shared after
same_winners cut i shared after e = record {
  keeps = λ o b ne le h. ap (lookup b) e ∙ h;
  fresh = λ o b ne h. sym (ap (lookup b) e) ∙ h;
  unique = λ u. subst HasUniqueKeys (sym e) u;
}

pub Spares-then :
    {cut i : ℕ} {a b c : SharedState} → Spares cut i a b → Spares cut i b c → Spares cut i a c
Spares-then f g = record {
  keeps = λ o n ne le h. g.keeps o n ne le (f.keeps o n ne le h);
  fresh = λ o n ne h. f.fresh o n ne (g.fresh o n ne h);
  unique = λ u. g.unique (f.unique u);
}

-- The session leaves the winners alone, and takes in nothing.
pub quiet :
    (cut i : ℕ) (shared : SharedState) (p : Progress)
    → IsTaskOf i p.0
    → ((n : ℕ) → TakesIn n p.0 → ⊥)
    → p.1.block_winners ≡ shared.block_winners
    → Moved cut i shared p
quiet cut i shared p task idle_task e = record {
  task = task;
  holds = λ n le t. absurd (idle_task n t);
  spares = same_winners cut i shared p.1 e;
}
