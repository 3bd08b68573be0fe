-- ===== src/Tasks.antt =====
-- The task queue (backend/app/tasks, backend/app/models/task_run.py).
mod Tests
pub mod Table
pub mod Queue
pub mod Worker
pub mod Cleanup
pub mod Execution
