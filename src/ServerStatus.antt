-- ===== src/ServerStatus.antt =====
-- `StatusServiceImpl` of crates/rock-node-server-status-plugin/src/service.rs: the range of blocks that
-- a node reports, which is what the peers of the backfill answer with. Metrics are not modelled.
use rock_node.Base.{ℕ, Option, unwrap_or}
use rock_node.BlockReader.{BlockReader, Fallible, err, ok}
use rock_node.Backfill.{PeerStatus}

-- The response, from the earliest block and what the reader says of the latest one.
unfoldable status_response : ℕ → Fallible (Option ℕ) → Fallible PeerStatus
status_response earliest err = err
status_response earliest (ok latest) =
    ok (record { first_available_block = earliest; last_available_block = unwrap_or latest 0 })

-- `server_status`; `err` is the status Internal.
unfoldable server_status : BlockReader → Fallible PeerStatus
unfolding status_response
server_status reader = elim reader.get_earliest_persisted_block_number [
  | err ↦ err
  | ok earliest ↦ status_response (unwrap_or earliest 0) reader.get_latest_persisted_block_number
]
