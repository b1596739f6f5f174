-- ===== src/Router.antt =====
-- The failure router: src/eo_event_platform/streaming/kafka/failure_router.py.
pub mod Validation
pub mod Attempts
pub mod Routing
pub mod Sound
pub mod Delivery
pub mod Loop
pub mod Reconciled
pub mod Run
mod Tests
