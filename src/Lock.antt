-- ===== src/Lock.antt =====
-- crates/fomalhaut-lock/src.
pub mod Worker
pub mod Handle
