-- ===== src/Publish/Validation.antt =====
-- validation.rs and the errors that it returns.
use rock_node.Base.{
  ℕ, Bool, List, [], ◌∷◌, Option, none, some, ltb, if◌then◌else◌, length, unwrap_or,
}
use rock_node.Base.Signed.{ℤ, negsuc, as_i64}
use rock_node.Block.{Item, BlockItem, block_header, block_proof, other_item}

pub data PublishError : Type 0 where
  empty_block_items : PublishError
  missing_block_header : ℤ → PublishError
  too_many_items : ℕ → ℕ → PublishError

unfoldable pub extract_block_number_from_any_item : Item → Option ℤ
extract_block_number_from_any_item (block_header n) = some (as_i64 n)
extract_block_number_from_any_item (block_proof n) = some (as_i64 n)
extract_block_number_from_any_item (other_item c) = none

unfoldable pub check_first : BlockItem → Option PublishError
unfolding extract_block_number_from_any_item
check_first (some (block_header n)) = none
check_first (some (block_proof n)) = some (
    missing_block_header
      (unwrap_or (extract_block_number_from_any_item (block_proof n)) (negsuc 0)))
check_first (some (other_item c)) = some (
    missing_block_header (unwrap_or (extract_block_number_from_any_item (other_item c)) (negsuc 0)))
check_first none = some (missing_block_header (negsuc 0))

-- `none` is `Ok(())`.
unfoldable pub validate_block_items : ℕ → List BlockItem → Bool → Option PublishError
unfolding check_first
validate_block_items max_items [] is_new = some empty_block_items
validate_block_items max_items (first ∷ rest) is_new =
    let count = length (first ∷ rest) in
    if ltb max_items count
    then some (too_many_items count max_items)
    else if is_new
    then check_first first
    else none
