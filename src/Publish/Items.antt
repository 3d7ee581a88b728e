-- ===== src/Publish/Items.antt =====
-- The items of a block up to its proof, as `handle_accept` takes them in.
use rock_node.Base.{◌≡◌, refl, ◌∙◌, Bool, true, false, List, [], ◌∷◌, ◌++◌, none, some}
use mathlib.Core.List.{append_assoc, append-nil}
use rock_node.Block.{BlockItem, block_header, block_proof, other_item}
use rock_node.Publish.Handler.{accept_items}

-- The items up to the first proof, with it.
abbrev pub up_to_proof : List BlockItem → List BlockItem
up_to_proof [] = []
up_to_proof (some (block_proof n) ∷ rest) = some (block_proof n) ∷ []
up_to_proof (some (block_header n) ∷ rest) = some (block_header n) ∷ up_to_proof rest
up_to_proof (some (other_item c) ∷ rest) = some (other_item c) ∷ up_to_proof rest
up_to_proof (none ∷ rest) = none ∷ up_to_proof rest

abbrev pub has_proof : List BlockItem → Bool
has_proof [] = false
has_proof (some (block_proof n) ∷ rest) = true
has_proof (some (block_header n) ∷ rest) = has_proof rest
has_proof (some (other_item c) ∷ rest) = has_proof rest
has_proof (none ∷ rest) = has_proof rest

pub accept_items-eq :
    (buffer items : List BlockItem)
    → accept_items buffer items ≡ (buffer ++ up_to_proof items, has_proof items)
unfolding accept_items
accept_items-eq buffer [] = rw append-nil
accept_items-eq buffer (some (block_proof n) ∷ rest) = refl
accept_items-eq buffer (some (block_header n) ∷ rest) =
    accept_items-eq (buffer ++ (some (block_header n) ∷ [])) rest ∙ rw append_assoc refl
accept_items-eq buffer (some (other_item c) ∷ rest) =
    accept_items-eq (buffer ++ (some (other_item c) ∷ [])) rest ∙ rw append_assoc refl
accept_items-eq buffer (none ∷ rest) =
    accept_items-eq (buffer ++ (none ∷ [])) rest ∙ rw append_assoc refl

pub up_to_proof-eq : (items : List BlockItem) → has_proof items ≡ false → up_to_proof items ≡ items
up_to_proof-eq [] h = refl
up_to_proof-eq (some (block_proof n) ∷ rest) h = cc
up_to_proof-eq (some (block_header n) ∷ rest) h = rw (up_to_proof-eq rest h)
up_to_proof-eq (some (other_item c) ∷ rest) h = rw (up_to_proof-eq rest h)
up_to_proof-eq (none ∷ rest) h = rw (up_to_proof-eq rest h)

pub up_to_proof-append :
    (items rest : List BlockItem)
    → has_proof items ≡ false
    → up_to_proof (items ++ rest) ≡ items ++ up_to_proof rest
up_to_proof-append [] rest h = refl
up_to_proof-append (some (block_proof n) ∷ items) rest h = cc
up_to_proof-append (some (block_header n) ∷ items) rest h = rw (up_to_proof-append items rest h)
up_to_proof-append (some (other_item c) ∷ items) rest h = rw (up_to_proof-append items rest h)
up_to_proof-append (none ∷ items) rest h = rw (up_to_proof-append items rest h)
