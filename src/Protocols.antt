-- ===== src/Protocols.antt =====
-- The protocol parsers of src/protocols/.
pub mod Status
pub mod Udp
pub mod Ethernet
pub mod Arp
pub mod Tcp
pub mod Ipv4
pub mod Ipv6
pub mod Icmp
pub mod Icmpv6
pub mod Dns
