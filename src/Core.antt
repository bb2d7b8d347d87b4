-- ===== src/Core.antt =====
-- The crate fomalhaut-core (crates/fomalhaut-core/src): authentication types and the conversation.
pub mod Types
pub mod Conversation
