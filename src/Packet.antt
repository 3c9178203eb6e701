-- ===== src/Packet.antt =====
-- src/packet.c and include/netscope/packet.h: the packet and the dissection from the Ethernet
-- header down. A child module holds the data, one the dissection, and the others the theorems.
pub mod Data
pub mod Dissect
pub mod WellFormed
pub mod Transport
pub mod Network
pub mod Total
