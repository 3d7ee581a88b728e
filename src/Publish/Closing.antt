-- ===== src/Publish/Closing.antt =====
-- The end of a session (service.rs): what it had won is up for election again.
use rock_node.Base.{
  ℕ, ◌≡◌, ◌≢◌, refl, ◌∙◌, ◌↔◌, Bool, true, false, List, [], ◌∷◌, none, some, arith, ◌==◌,
  if◌then◌else◌, ◌||◌,
}
use rock_node.Base.Assoc.{lookup, lookup-remove}
use rock_node.Publish.State.{SharedState, broadcast, others}
use rock_node.Publish.Handler.{won_by, give_up, close_session}
use rock_node.Publish.Winners.{Wins}

abbrev pub memb : ℕ → List ℕ → Bool
memb j [] = false
memb j (k ∷ ks) = (k == j) || memb j ks

-- The map holds each of its entries, no key twice.
abbrev pub Shows : List (ℕ × ℕ) → List (ℕ × ℕ) → Type 0
Shows m [] = Unit
Shows m ((n, w) ∷ rest) = (lookup n m ≡ some w) × Shows m rest

abbrev pub HasUniqueKeys : List (ℕ × ℕ) → Type 0
HasUniqueKeys m = Shows m m

pub give_up-lookup :
    (id : ℕ) (ns : List ℕ) (shared : SharedState) (b : ℕ)
    → lookup b (give_up id ns shared).block_winners
      ≡ (if memb b ns then none else lookup b shared.block_winners)
unfolding give_up broadcast
give_up-lookup id [] shared b = refl
give_up-lookup id (n ∷ ns) shared b =
    give_up-lookup id ns _ b ∙ ground (arith, lookup-remove n b shared.block_winners)

-- What is collected is won by the session, and all that it has won is collected.
pub won_by-won :
    (id : ℕ) (m rest : List (ℕ × ℕ)) (b : ℕ)
    → Shows m rest
    → memb b (won_by id rest) ≡ true
    → lookup b m ≡ some id
unfolding won_by
won_by-won id m [] b s h = cc
won_by-won id m ((n, w) ∷ rest) b s h = ground (arith, won_by-won id m rest b s.1, s.0)

pub won_by-all :
    (id : ℕ) (m : List (ℕ × ℕ)) (b : ℕ) → lookup b m ≡ some id → memb b (won_by id m) ≡ true
unfolding won_by
won_by-all id [] b h = cc
won_by-all id ((n, w) ∷ rest) b h = ground (arith, won_by-all id rest b)

others-memb :
    (id b : ℕ) (xs : List ℕ) → memb b (others id xs) ≡ (if b == id then false else memb b xs)
unfolding others
others-memb id b [] = ground arith
others-memb id b (x ∷ xs) = ground (arith, others-memb id b xs)

give_up-active :
    (id : ℕ) (ns : List ℕ) (shared : SharedState)
    → (give_up id ns shared).active_sessions ≡ shared.active_sessions
unfolding give_up broadcast
give_up-active id [] shared = refl
give_up-active id (n ∷ ns) shared = give_up-active id ns _

-- After a session has ended, a block's winners are those before but for this session, which has won
-- no block any more, and the active sessions are those before but for this session. The map of
-- winners has no key twice.
pub close_session_lem :
    (id : ℕ) (shared : SharedState) (b o : ℕ)
    → HasUniqueKeys shared.block_winners
    → (Wins o b (close_session id shared) ↔ (Wins o b shared × (o ≢ id)))
      × (memb o (close_session id shared).active_sessions
          ≡ (if o == id then false else memb o shared.active_sessions))
unfolding close_session
close_session_lem id shared b o u =
    let won = won_by id shared.block_winners in
    let at = give_up-lookup id won shared b in
    (
      (
        λ h. (ground (arith, at), λ e. ground (arith, at, won_by-all id shared.block_winners b)),
        λ (h, ne). ground (arith, at, won_by-won id shared.block_winners shared.block_winners b u),
      ),
      others-memb id o _ ∙ ground (arith, give_up-active id won shared),
    )
