-- ===== src/Pipeline.antt =====
-- How a block passes from the publisher through the verifier to the store: the block data cache
-- (crates/rock-node-core/src/cache.rs), the event loop of the verifier plugin
-- (crates/rock-node-verifier-plugin/src/lib.rs) and `process_event` of the persistence plugin. The
-- cache's task that drops entries after a minute is the step `clean_up`, with the keys it finds old.
pub mod Delivery
pub mod Tests
use rock_node.Base.{ℕ, List, [], ◌∷◌, ◌++◌, Option, none, some, is_some, if◌then◌else◌}
use rock_node.Base.Assoc.{lookup, insert, remove}
use rock_node.Block.{Block, Bytes, Codec}
use rock_node.Rocks.{Rocks}
use rock_node.Persistence.Db.{Db}
use rock_node.Persistence.Service.{Config, Written, malformed, written, panicked, write_block}
use rock_node.Persistence.Plugin.{state_after}

-- `BlockData`
pub record BlockData : Type 0 where
  pub block_number : ℕ
  pub contents : Bytes

-- `BlockDataCache`: the entries by key, and the keys to delete.
pub record BlockDataCache : Type 0 where
  pub cache : List (ℕ × BlockData)
  pub cleanup_queue : List ℕ

-- `insert`, with the key that it draws.
unfoldable cache_insert : ℕ → BlockData → BlockDataCache → BlockDataCache
cache_insert key item c = record c { cache = insert key item c.cache }

-- `get`
unfoldable pub cache_get : BlockDataCache → ℕ → Option BlockData
cache_get c key = lookup key c.cache

-- `mark_for_removal`
unfoldable pub mark_for_removal : ℕ → BlockDataCache → BlockDataCache
mark_for_removal key c =
    if is_some (lookup key c.cache)
    then record c { cache = remove key c.cache }
    else record c { cleanup_queue = key ∷ c.cleanup_queue }

unfoldable remove_all : List ℕ → List (ℕ × BlockData) → List (ℕ × BlockData)
remove_all [] m = m
remove_all (key ∷ keys) m = remove_all keys (remove key m)

-- One round of `run_cleanup_task`.
unfoldable clean_up : List ℕ → BlockDataCache → BlockDataCache
unfolding remove_all
clean_up stale_keys c = record {
  cache = remove_all stale_keys (remove_all c.cleanup_queue c.cache);
  cleanup_queue = [];
}

-- An event that names a block: `BlockItemsReceived`, `BlockVerified`, `BlockVerificationFailed` and
-- `BlockPersisted` all hold its number and its key in the cache.
pub record BlockEvent : Type 0 where
  pub block_number : ℕ
  pub cache_key : ℕ

-- What the verifier sends: to the persistence plugin, or to the publishers.
pub data Verdict : Type 0 where
  verified : BlockEvent → Verdict
  verification_failed : BlockEvent → Verdict

-- The check of the verifier: the block is in the cache, and decodes.
unfoldable pub passes : Codec → Option BlockData → Option Block
passes c none = none
passes c (some item) = c.decode item.contents

-- One round of the verifier's event loop.
unfoldable pub verify : Codec → BlockEvent → BlockDataCache → Verdict × BlockDataCache
verify c event cache = elim (passes c (cache_get cache event.cache_key)) [
  | some _ ↦ (verified event, cache)
  | none ↦ (verification_failed event, mark_for_removal event.cache_key cache)
]

module _ {R : Rocks} where
  -- The event of a write that went well.
  unfoldable pub report : BlockEvent → Written R → Option BlockEvent
  report event malformed = none
  report event (written db notified) = some event
  report event (panicked db) = none

  -- `process_event`: the event of a block that was persisted, the store and the cache.
  unfoldable pub process_event :
      Codec
      → Config
      → BlockEvent
      → BlockDataCache
      → Db R
      → Option BlockEvent × Db R × BlockDataCache
  unfolding report
  process_event c cfg event cache db = elim (passes c (cache_get cache event.cache_key)) [
    | none ↦ (none, db, mark_for_removal event.cache_key cache)
    | some block ↦
        let result = write_block c cfg db block in
        (report event result, state_after db result, mark_for_removal event.cache_key cache)
  ]
