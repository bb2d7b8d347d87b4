-- ===== src/Greeter.antt =====
-- crates/fomalhaut/src.
pub mod Worker
