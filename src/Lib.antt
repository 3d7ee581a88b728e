-- ===== src/Lib.antt =====
-- The block node Rock Node: a node takes blocks from publishers, elects for each block one publisher
-- to send it, has the block verified and stored, acknowledges it, and serves the stored blocks.
--
-- The parts, and how they interact. A publisher's session (crates/rock-node-publish-plugin) collects the
-- items of a block that it has won and puts the encoded block into the block data cache
-- (crates/rock-node-core/src/cache.rs); its number and key go to the verifier
-- (crates/rock-node-verifier-plugin), from there to the persistence plugin
-- (crates/rock-node-persistence-plugin), which stores the block and reports it; the session that waits
-- for the report acknowledges the block to all sessions. Requests for single blocks
-- (crates/rock-node-block-access-plugin) read through the block reader of the persistence plugin.
--
-- The archiver moves batches of old blocks from the hot tier to archives on disk. The backfill fetches
-- blocks that are missing from peers and writes them through the persistence plugin. The state plugin
-- applies each stored block's changes to the ledger's state.
--
-- The files:
-- - Base: Boolean tests on the native numbers, `u64` with its wrap-around (Base/Word), `i64` and the
--   casts (Base/Signed), association lists for the concurrent maps (Base/Assoc).
-- - Block, Samples: blocks, and prost's encoding of them, a parameter whose law is that decoding gives
--   back what was encoded; an instance for tests.
-- - Rocks: RocksDB, a parameter with the laws of get, put, delete and the two iterators; Rocks/Table
--   is an instance.
-- - Persistence/Db: the column families of core/src/database.rs and write batches, which are applied
--   in order. Persistence/State: state.rs. Persistence/HotTier: hot_tier.rs. Persistence/Service:
--   service.rs, with `write_block` in the parts `write_ops` (the batch), `contiguous_ops` (the three
--   branches on `highest_contiguous`), `walk` (the loop) and `after_commit`. Persistence/Plugin: the
--   counters that lib.rs sets at the start. A function that the source hands a `&mut WriteBatch` returns
--   the operations that it adds; reads go to the store as it was before the batch.
-- - Persistence/Gaps: the gap column as a set of numbers; Persistence/Service/..., Writes and Stale:
--   what the writes do to the counters.
-- - Publish/State, Validation, Session, Actions, Completion, Handler: state.rs, validation.rs,
--   session_manager.rs and the task of service.rs. A handler takes the session and the shared state and
--   returns both, and whether the stream ends. What other sessions do meanwhile, the cache key, the
--   events before the timeout and failures of the encoder and the channel are the fields of `World`.
-- - Publish/Winners, Headers, Items, Assembly, Acknowledgements, Closing: what a session keeps.
-- - Publish/Plugin: what lib.rs sets at the start, its clean-up task, and the stop.
-- - Publish/Sessions: any number of sessions side by side. A handler is cut where it waits and between
--   its two looks at the winners, and each piece is one step of the node, as are a publisher's coming
--   and going, the end of a task and a round of the clean-up task. What a piece does to the maps is
--   not cut further. Publish/Sessions/Whole joins the pieces again.
-- - Pipeline: the cache, the verifier's round and `process_event` of the persistence plugin.
-- - BlockReader, BlockAccess: the reader's interface and the requests for single blocks.
-- - Subscriber: the sessions of crates/rock-node-subscriber-plugin, which stream stored blocks; the
--   loop runs over the rounds that there have been, each with its reader and its events.
-- - Persistence/Cold: cold_storage/writer.rs and reader.rs. The directory is a list of archives, each
--   with its two files; zstd is a parameter, whose law is that decompressing gives back what was
--   compressed. Names has the file names, Files the index records and file accesses, Writer and Reader
--   the operations, Laid, Chunks and RoundTrip where the writer puts a block and the reader finds it.
-- - Persistence/Archiver: cold_storage/archiver.rs, the reads over both tiers and `write_block_batch`
--   of service.rs. `run_archival_cycle` runs on fuel. `archive_batch` is the list of the states that
--   it takes the node through (Persistence/Archiver/Steps), and leaves the last of them.
-- - Backfill: crates/rock-node-backfill-plugin/src/worker.rs, the check of the gaps, the continuous
--   cycle and `stream_blocks_from_peers` (Backfill/External). What the peers answer to each attempt is
--   a parameter; the continuous cycle has fuel for the rounds at one peer, since a wait takes no retry.
-- - StateManagement: crates/rock-node-state-management-plugin, the event loop of plugin.rs and the state
--   changes of state_manager.rs (StateManagement/Changes). The messages stand by their encodings, and
--   the column with bytes for keys is a parameter.
-- - ServerStatus: the range of blocks that a node reports, crates/rock-node-server-status-plugin.
--
-- Loops are recursion on the list they run over; the loop of `write_block` runs on fuel, for which
-- `write_block` takes the number of the latest block: each round but the last advances by one block.
-- The archiver's cycle needs a round for each block after the earliest hot one and one more. The
-- retries of the backfill count down from the limit. Machine arithmetic wraps around at 2^64.
--
-- Not modelled: times, metrics and logs; faults of the store and of the file system; the backfill's
-- timers; the configuration; the query plugin and its conversions; start-up and shutdown.
mod Base
pub mod Rocks
pub mod Block
pub mod Samples
pub mod Persistence
pub mod Publish
pub mod BlockReader
pub mod BlockAccess
pub mod Pipeline
pub mod Subscriber
pub mod Backfill
pub mod ServerStatus
pub mod StateManagement
