-- ===== src/Pam.antt =====
-- The crate fomalhaut-pam (crates/fomalhaut-pam/src): reauthentication by an isolated worker.
pub mod Bytes
pub mod Ipc
pub mod Transport
pub mod Backend
pub mod Worker
pub mod Identity
