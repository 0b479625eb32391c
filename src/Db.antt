-- ===== src/Db.antt =====
-- The directory db/: internal keys, write batches, the log, the memtable, versions and their edits,
-- compactions, reads of the database.
pub mod Format
pub mod Batch
pub mod VersionEdit
pub mod VersionSet
pub mod Version
pub mod Log
pub mod SkipList
pub mod MemTable
pub mod Compaction
pub mod Database
pub mod Builder
pub mod Inputs
pub mod Filename
mod Tests
