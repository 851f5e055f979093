-- ===== src/Core.antt =====
-- The crate `netd-core`.
pub mod Hostname
pub mod Raw
pub mod Profile
pub mod Policy
