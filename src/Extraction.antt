-- ===== src/Extraction.antt =====
-- The extraction of NASA FIRMS data: src/eo_event_platform/ingestion/nasa_firms/extractor.py.
pub mod Request
pub mod Area
pub mod Contract
pub mod Fetch
pub mod Attempts
pub mod Csv
pub mod Run
pub mod Handover
mod Tests
