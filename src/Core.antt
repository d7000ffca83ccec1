-- ===== src/Core.antt =====
-- packages/core: the store of events, the pairing of requests with responses, and the replay.
pub mod Store
pub mod Correlator
pub mod Replay
pub mod Row
pub mod Labels
pub mod Projection
