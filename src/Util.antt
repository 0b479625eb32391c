-- ===== src/Util.antt =====
-- The directory util/ and the header leveldb/slice.h: encodings, comparison, hashing.
pub mod Coding
pub mod Slice
pub mod Status
pub mod Comparator
pub mod Random
pub mod Logging
pub mod Hash
pub mod Crc32c
pub mod Bloom
pub mod Env
mod Tests
