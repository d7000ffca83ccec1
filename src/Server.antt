-- ===== src/Server.antt =====
-- packages/server: what the inspector's server keeps for its routes.
pub mod StateReplayIndex
pub mod SearchIndex
pub mod Frames
pub mod AppState
pub mod LogStream
