-- ===== src/Daemon.antt =====
-- The crate `netd`: what the kernel shows, what an interface should be, and the steps between them.
pub mod Model
pub mod BtreeSet
pub mod Reconcile
pub mod Restart
pub mod Framing
pub mod Interface
pub mod Config
mod Examples
