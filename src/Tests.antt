-- ===== src/Tests.antt =====
-- Runs of the definitions at concrete inputs, and the theorems at the same inputs.
pub mod Samples
pub mod Shared
pub mod Parser
pub mod Splitter
pub mod Store
pub mod Replay
pub mod Server
pub mod Search
pub mod Rows
pub mod Groups
pub mod App
pub mod Client
