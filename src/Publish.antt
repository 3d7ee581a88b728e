-- ===== src/Publish.antt =====
-- The publish plugin, crates/rock-node-publish-plugin/src.
pub mod State
pub mod Validation
pub mod Session
pub mod Actions
pub mod Completion
pub mod Handler
pub mod Winners
pub mod Plugin
pub mod Sessions
pub mod Headers
pub mod Items
pub mod Assembly
pub mod Acknowledgements
pub mod Closing
pub mod Tests
