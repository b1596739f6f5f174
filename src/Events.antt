-- ===== src/Events.antt =====
-- src/eo_event_platform/events: the identity of a NASA record, and the canonical event of a raw row.
pub mod AcquisitionTime
pub mod Timestamp
pub mod Decimal
pub mod Row
pub mod Canonical
pub mod RowOutcome
pub mod Clean
pub mod Accepted
pub mod Run
mod Tests
