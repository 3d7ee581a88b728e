-- ===== src/Persistence.antt =====
-- The persistence plugin, crates/rock-node-persistence-plugin/src.
pub mod Db
pub mod State
pub mod Gaps
pub mod HotTier
pub mod Service
pub mod Plugin
pub mod Writes
pub mod Stale
pub mod Cold
pub mod Archiver
pub mod Tests
