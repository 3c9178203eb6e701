-- ===== src/Capture.antt =====
-- src/capture.c. libpcap is a parameter; the use of what is not open is a fault.
pub mod Data
pub mod Devices
pub mod Open
pub mod Loop
pub mod Life
pub mod Listed
pub mod Opening
