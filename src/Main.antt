-- ===== src/Main.antt =====
-- src/main.c.
pub mod Usage
pub mod World
pub mod Run
pub mod Counts
pub mod Closed
pub mod Whole
