-- ===== src/Dhcp6.antt =====
-- The crate `dhcp6`: the information-request exchange of RFC 8415.
pub mod Options
pub mod Client
mod Examples
