-- ===== src/Engine/Runner.antt =====
-- A run of the engine and the job that starts it (backend/app/engine/runner.py,
-- backend/app/engine/calc_engine_job.py). The clock, and what the steps load from the tables, are
-- arguments.
mod Tests
pub mod Config
pub mod Inputs
pub mod Items
pub mod Run
pub mod Filters
pub mod Breakdown
pub mod Archive
pub mod Saved
