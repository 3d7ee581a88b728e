-- ===== src/Publish/Sessions/Keys.antt =====
-- The map of winners has no key twice, whatever is entered, removed or cleaned up.
use rock_node.Base.{
  ℕ, ◌≡◌, inl, inr, ◌∙◌, List, [], ◌∷◌, none, false, arith, leb, Bool-cases, ◌==◌, if◌then◌else◌,
}
use rock_node.Base.Assoc.{lookup, remove, insert, lookup-remove, lookup-insert}
use rock_node.Publish.State.{SharedState, broadcast}
use rock_node.Publish.Handler.{give_up}
use rock_node.Publish.Plugin.{retain_from}
use rock_node.Publish.Closing.{Shows, HasUniqueKeys}

pub retain_from-lookup :
    (cut b : ℕ) (m : List (ℕ × ℕ))
    → lookup b (retain_from cut m) ≡ (if leb cut b then lookup b m else none)
unfolding retain_from
retain_from-lookup cut b [] = ground arith
retain_from-lookup cut b ((k, id) ∷ m) = ground (arith, retain_from-lookup cut b m)

-- What a map shows of entries is shown by a map that agrees on all keys but `k`, without `k`.
Shows-remove :
    (k : ℕ) (m m' rest : List (ℕ × ℕ))
    → ((b : ℕ) → (k == b) ≡ false → lookup b m' ≡ lookup b m)
    → Shows m rest
    → Shows m' (remove k rest)
Shows-remove k m m' [] agree s = tt
Shows-remove k m m' ((n, w) ∷ rest) agree (here, there) = elim (Bool-cases (n == k)) [
  | inl same ↦ rw same (Shows-remove k m m' rest agree there)
  | inr other ↦ rw other (agree n (ground arith) ∙ here, Shows-remove k m m' rest agree there)
]

pub remove-HasUniqueKeys : (k : ℕ) (m : List (ℕ × ℕ)) → HasUniqueKeys m → HasUniqueKeys (remove k m)
remove-HasUniqueKeys k m =
    Shows-remove k m (remove k m) m (λ b e. ground (arith, lookup-remove k b m))

pub insert-HasUniqueKeys :
    (k v : ℕ) (m : List (ℕ × ℕ)) → HasUniqueKeys m → HasUniqueKeys (insert k v m)
insert-HasUniqueKeys k v m u = (
  ground arith,
  Shows-remove k m (insert k v m) m (λ b e. ground (arith, lookup-insert k b v m)) u,
)

Shows-retain :
    (cut : ℕ) (m rest : List (ℕ × ℕ))
    → Shows m rest
    → Shows (retain_from cut m) (retain_from cut rest)
unfolding retain_from
Shows-retain cut m [] s = tt
Shows-retain cut m ((n, w) ∷ rest) (here, there) = elim (Bool-cases (leb cut n)) [
  | inl kept ↦
      rw (kept, retain_from)
        (ground (arith, retain_from-lookup cut n m), Shows-retain cut m rest there)
  | inr gone ↦ rw (gone, retain_from) (Shows-retain cut m rest there)
]

pub retain_from-HasUniqueKeys :
    (cut : ℕ) (m : List (ℕ × ℕ)) → HasUniqueKeys m → HasUniqueKeys (retain_from cut m)
retain_from-HasUniqueKeys cut m = Shows-retain cut m m

pub give_up-HasUniqueKeys :
    (id : ℕ) (ns : List ℕ) (shared : SharedState)
    → HasUniqueKeys shared.block_winners
    → HasUniqueKeys (give_up id ns shared).block_winners
unfolding give_up broadcast
give_up-HasUniqueKeys id [] shared u = u
give_up-HasUniqueKeys id (n ∷ ns) shared u =
    give_up-HasUniqueKeys id ns _ (remove-HasUniqueKeys n shared.block_winners u)
