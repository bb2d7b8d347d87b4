-- ===== src/Web.antt =====
-- The crate fomalhaut-web (crates/fomalhaut-web/src): what a theme is told.
pub mod Protocol
pub mod Public
pub mod Messages
pub mod Client
pub mod Batch
pub mod Locker
pub mod Greeter
pub mod Decode
