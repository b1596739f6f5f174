-- ===== src/Replay.antt =====
-- The controlled replay of original events: src/eo_event_platform/replay.
pub mod Plan
pub mod Value
pub mod Update
pub mod Generator
pub mod Run
pub mod Verifier
pub mod Checked
pub mod Fields
pub mod Lines
pub mod Verified
pub mod Verification
mod Tests
