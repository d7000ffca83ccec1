-- ===== src/Parser.antt =====
-- packages/parser: from bytes of a log to events.
pub mod Extract
pub mod Normalizer
pub mod SplitLines
pub mod Splitter
pub mod Line
