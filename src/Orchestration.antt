-- ===== src/Orchestration.antt =====
-- src/eo_event_platform/orchestration/runtime.py: the parameters of a run, its operational manifest
-- and the execution of its stages. The manifest files are a dictionary by path. Readings of the
-- clock, and what a local stage's command gives, are arguments.
pub mod Params
pub mod Manifest
pub mod Execution
pub mod Runs
mod Stages
mod Tests
