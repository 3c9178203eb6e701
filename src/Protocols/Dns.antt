-- ===== src/Protocols/Dns.antt =====
-- src/protocols/dns.c: the decoder of compressed names, the record formats and the message parser,
-- a child module for each, and their theorems.
pub mod Name
pub mod Rdata
pub mod Message
pub mod Parse
