-- ===== src/User.antt =====
-- crates/fomalhaut-user/src.
pub mod Directory
pub mod Accounts
