-- ===== src/Greetd.antt =====
-- The crate fomalhaut-greetd (crates/fomalhaut-greetd/src): the login backend over greetd's IPC.
pub mod Types
pub mod Client
