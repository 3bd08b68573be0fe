-- ===== src/Tasks/Cleanup.antt =====
-- The statements on the table from outside the queue: the cancellation of a task (`cancel_task`,
-- backend/app/api/task.py), and the retention job (`purge_task_run`,
-- backend/app/tasks/jobs/retention.py).
pub mod Keeps
use restock_system.Tasks.Table.{TaskRun, Status, Table, update_where}
use restock_system.Common.{ℕ, Bool, false, ◌==◌, ltb, if◌then◌else◌, ◌+◌, keep_if, nat_eq, ◌*◌, not}
use restock_system.Common.Int.{ℤ, pos, negsuc}

-- `UPDATE task_run SET status = 'cancelled' WHERE id = task_id`. That the task is pending is read by an
-- earlier statement; the update does not ask for it.
abbrev pub cancel_row : TaskRun → TaskRun
cancel_row r = record r { status = Status.cancelled }

unfoldable pub cancel_update : ℕ → Table → Table
cancel_update task_id t = (update_where (λ r. r.id == task_id) cancel_row t).0

-- `status IN ('success', 'failed', 'skipped', 'cancelled') AND created_at < now - days`
abbrev pub is_purged : ℕ → ℕ → TaskRun → Bool
is_purged now days r = elim r.status [
  | Status.pending ↦ false
  | Status.running ↦ false
  | _ ↦ ltb (r.created_at + days * 86400) now
]

unfoldable pub purge_task_run : ℕ → ℤ → Table → Table
purge_task_run now (pos days) t =
    if days == 0
    then t
    else record t { rows = keep_if (λ (r : TaskRun). not (is_purged now days r)) t.rows }
purge_task_run now (negsuc n) t = t
