-- ===== src/Persistence/Cold.antt =====
-- Cold storage (cold_storage/writer.rs and reader.rs): archives of consecutive blocks on disk, each a
-- data file and an index file with one record for each block.
pub mod Names
pub mod Files
pub mod Writer
pub mod Reader
pub mod Laid
pub mod Chunks
pub mod RoundTrip
pub mod Tests
