-- ===== src/Session.antt =====
-- The crate fomalhaut-session (crates/fomalhaut-session/src): discovery of trusted sessions.
-- A Rust `String` is here the list of its characters, each its code point.
pub mod Exec
pub mod Texts
pub mod Catalog
pub mod Entry
pub mod Discovery
