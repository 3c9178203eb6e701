-- ===== src/Config.antt =====
-- src/config.c.
pub mod Data
pub mod Port
pub mod Parse
pub mod Checks
pub mod Valid
