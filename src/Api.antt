-- ===== src/Api.antt =====
-- The read-only API: src/eo_event_platform/api.
pub mod Base64
pub mod Cursor
pub mod Pages
pub mod Aggregate
mod Tests
