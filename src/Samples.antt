-- ===== src/Samples.antt =====
-- Concrete parameters on which the tests run the model: a codec, and blocks.
use rock_node.Base.{ℕ, zero, suc, ◌≡◌, refl, [], ◌∷◌, Option, none, some}
use rock_node.Block.{Block, BlockItem, Bytes, Codec, block_header, block_proof, other_item}

abbrev pub encode : Block → Bytes
encode [] = []
encode (none ∷ items) = 0 ∷ encode items
encode (some (block_header n) ∷ items) = 1 ∷ n ∷ encode items
encode (some (block_proof n) ∷ items) = 2 ∷ n ∷ encode items
encode (some (other_item c) ∷ items) = 3 ∷ c ∷ encode items

abbrev push : BlockItem → Option Block → Option Block
push item none = none
push item (some items) = some (item ∷ items)

abbrev pub decode : Bytes → Option Block
decode [] = some []
decode (zero ∷ rest) = push none (decode rest)
decode (suc zero ∷ []) = none
decode (suc zero ∷ n ∷ rest) = push (some (block_header n)) (decode rest)
decode (suc (suc zero) ∷ []) = none
decode (suc (suc zero) ∷ n ∷ rest) = push (some (block_proof n)) (decode rest)
decode (suc (suc (suc k)) ∷ []) = none
decode (suc (suc (suc k)) ∷ n ∷ rest) = push (some (other_item n)) (decode rest)

pub decode-encode : (b : Block) → decode (encode b) ≡ some b
decode-encode [] = refl
decode-encode (none ∷ items) = rw (decode-encode items)
decode-encode (some (block_header n) ∷ items) = rw (decode-encode items)
decode-encode (some (block_proof n) ∷ items) = rw (decode-encode items)
decode-encode (some (other_item c) ∷ items) = rw (decode-encode items)

abbrev pub sample_codec : Codec
sample_codec = record { encode = encode; decode = decode; decode-encode = decode-encode }

-- A block with a header, one other item and a proof.
abbrev pub sample_block : ℕ → Block
sample_block n = some (block_header n) ∷ some (other_item 7) ∷ some (block_proof n) ∷ []
