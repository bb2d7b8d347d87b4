-- ===== src/Examples.antt =====
-- The theorems at concrete inputs, and tests of the definitions.
pub mod Conversations
pub mod Logins
pub mod Frames
pub mod Workers
pub mod Execs
pub mod Sessions
pub mod Transactions
pub mod Accounts
pub mod Themes
pub mod Controllers
pub mod Requests
pub mod Hosts
pub mod Directories
pub mod Greeters
pub mod Handles
