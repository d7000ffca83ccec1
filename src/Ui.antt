-- ===== src/Ui.antt =====
-- packages/ui: the client's selection of rows.
pub mod Filters
pub mod Grouping
pub mod Store
pub mod Stream
