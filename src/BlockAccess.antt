-- ===== src/BlockAccess.antt =====
-- crates/rock-node-block-access-plugin/src/service.rs: the requests for single blocks, against any
-- block reader. Metrics are not modelled.
pub mod Written
use rock_node.Base.{
  ℕ, Bool, true, false, ◌||◌, List, [], ◌∷◌, Option, none, some, ltb, ◌==◌, if◌then◌else◌,
}
use rock_node.Base.Word.{u64_max}
use rock_node.Block.{Block, Bytes, Codec}
use rock_node.BlockReader.{BlockReader, Fallible, err, ok}

-- `block_response::Code`, as far as the plugin sends it.
pub data ResponseCode : Type 0 where
  success invalid_request not_found not_available unknown : ResponseCode

-- `BlockResponse { status, block }`
abbrev pub BlockResponse : Type 0
BlockResponse = ResponseCode × Option Block

-- `block_request::BlockSpecifier`
pub data BlockSpecifier : Type 0 where
  block_number : ℕ → BlockSpecifier
  retrieve_latest : Bool → BlockSpecifier

-- What a request asks for: a number, or a response that ends the request.
pub data Target : Type 0 where
  fetch : ℕ → Target
  respond : BlockResponse → Target

unfoldable pub latest_target : Fallible (Option ℕ) → Target
latest_target (ok (some n)) = fetch n
latest_target (ok none) = respond (not_found, none)
latest_target err = respond (unknown, none)

-- `get_latest_block_number`
unfoldable pub get_latest_block_number : BlockReader → Target
unfolding latest_target
get_latest_block_number reader = latest_target reader.get_latest_persisted_block_number

-- `get_target_block_number`
unfoldable pub get_target_block_number : BlockReader → Option BlockSpecifier → Target
get_target_block_number reader (some (block_number n)) =
    if n == u64_max then get_latest_block_number reader else fetch n
get_target_block_number reader (some (retrieve_latest true)) = get_latest_block_number reader
get_target_block_number reader (some (retrieve_latest false)) = respond (invalid_request, none)
get_target_block_number reader none = respond (invalid_request, none)

-- `handle_found_block`
unfoldable pub handle_found_block : Codec → Bytes → BlockResponse
handle_found_block c [] = (unknown, none)
handle_found_block c (byte ∷ bytes) = elim (c.decode (byte ∷ bytes)) [
  | some block ↦ (success, some block)
  | none ↦ (unknown, none)
]

-- `.ok().flatten()`
abbrev pub flatten : Fallible (Option ℕ) → Option ℕ
flatten err = none
flatten (ok o) = o

unfoldable pub outside : ℕ → Option ℕ → Option ℕ → ResponseCode
outside n (some e) (some l) = if ltb n e || ltb l n then not_available else not_found
outside n (some e) none = not_found
outside n none (some l) = not_found
outside n none none = not_found

-- `handle_not_found_block`
unfoldable pub handle_not_found_block : BlockReader → ℕ → BlockResponse
unfolding outside
handle_not_found_block reader n = (
  outside n (flatten reader.get_earliest_persisted_block_number)
      (flatten reader.get_latest_persisted_block_number),
  none,
)

unfoldable pub respond_with : Codec → BlockReader → ℕ → Fallible (Option Bytes) → BlockResponse
unfolding handle_found_block handle_not_found_block
respond_with c reader n err = (unknown, none)
respond_with c reader n (ok (some bytes)) = handle_found_block c bytes
respond_with c reader n (ok none) = handle_not_found_block reader n

unfoldable pub respond_to : Codec → BlockReader → Target → BlockResponse
unfolding respond_with
respond_to c reader (respond response) = response
respond_to c reader (fetch n) = respond_with c reader n (reader.read_block n)

-- `get_block`
unfoldable pub get_block : Codec → BlockReader → Option BlockSpecifier → BlockResponse
unfolding respond_to get_target_block_number
get_block c reader specifier = respond_to c reader (get_target_block_number reader specifier)
