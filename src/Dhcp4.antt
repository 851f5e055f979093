-- ===== src/Dhcp4.antt =====
-- The crate `dhcp4`: the DHCPv4 message codec and the RFC 2131 client state machine.
pub mod Code
pub mod Options
pub mod Packet
pub mod Search
pub mod Lease
pub mod Client
mod Examples
