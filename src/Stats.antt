-- ===== src/Stats.antt =====
-- src/stats.c: counters, the table of flows and the list of top conversations.
pub mod Data
pub mod Flow
pub mod Update
pub mod Direction
pub mod Table
pub mod Keys
pub mod Unique
pub mod Entries
pub mod Top
pub mod Named
pub mod Counts
