-- ===== src/Shared.antt =====
-- packages/shared: JSON values, the event record that every package imports, correlation keys and
-- parse-error events.
pub mod Json
pub mod Stringify
pub mod Event
pub mod Correlation
pub mod ParseError
