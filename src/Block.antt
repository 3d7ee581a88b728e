-- ===== src/Block.antt =====
-- Blocks as the plugins see them. The message types are generated from the protocol's .proto files:
-- of an item's many kinds the source tells apart headers and proofs, and the rest stands by a code.
use rock_node.Base.{ℕ, ◌≡◌, List, [], ◌∷◌, Option, none, some}

pub data Item : Type 0 where
  block_header : ℕ → Item
  block_proof : ℕ → Item
  other_item : ℕ → Item

-- `BlockItem { item: Option<Item> }`
abbrev pub BlockItem : Type 0
BlockItem = Option Item

-- `Block { items }`
abbrev pub Block : Type 0
Block = List BlockItem

abbrev pub Bytes : Type 0
Bytes = List ℕ

-- prost's encoding of a block, a third-party library: decoding gives back what was encoded.
pub record Codec : Type 0 where
  pub encode : Block → Bytes
  pub decode : Bytes → Option Block
  pub decode-encode : (b : Block) → decode (encode b) ≡ some b

-- `get_block_number`: the number of the header that a block begins with; `none` is the error
-- "Block is malformed or first item is not a BlockHeader".
unfoldable pub get_block_number : Block → Option ℕ
get_block_number (some (block_header n) ∷ items) = some n
get_block_number (some (block_proof n) ∷ items) = none
get_block_number (some (other_item c) ∷ items) = none
get_block_number (none ∷ items) = none
get_block_number [] = none
