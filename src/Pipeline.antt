-- ===== src/Pipeline.antt =====
-- The way of a log's rows from packages/server/src/app-state.ts through the frames of the stream to the
-- store of packages/ui/src/state/store.ts.
mod Patches
mod Sent
pub mod Told
pub mod EndToEnd
pub mod Snapshot
