-- ===== src/Tests.antt =====
-- Runs of the model at concrete inputs.
pub mod Texts
pub mod Dns
pub mod Frames
pub mod Headers
pub mod Packet
pub mod Stats
pub mod Top
pub mod Filter
pub mod Names
pub mod Output
pub mod Config
pub mod Main
