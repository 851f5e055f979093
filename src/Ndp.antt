-- ===== src/Ndp.antt =====
-- The crate `ndp`: router advertisements.
pub mod Packet
pub mod Engine
mod Examples
