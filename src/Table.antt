-- ===== src/Table.antt =====
-- The sorted tables of table/.
pub mod Format
mod Tests
pub mod Block
