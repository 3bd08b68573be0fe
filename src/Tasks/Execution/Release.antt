-- ===== src/Tasks/Execution/Release.antt =====
-- Whatever way an execution goes, the worker does not hold the task for good.
use restock_system.Tasks.Table.{TaskRun, Table, update_where, update_rows}
use restock_system.Common.{Text, Bool, ℕ, List, any, ◌≡◌, false, arith, ◌∷◌, refl, []}
use restock_system.Tasks.Execution.{Event, meanwhile}
use restock_system.Tasks.Worker.{holds, reap_once, is_expired}

-- An update whose result is never selected by `p` selects no new row.
update_rows-kept :
    (p q : TaskRun → Bool) (g : TaskRun → TaskRun) (rows : List TaskRun)
    → ((r : TaskRun) → p (g r) ≡ false)
    → any p rows ≡ false
    → any p (update_rows q g rows) ≡ false
update_rows-kept p q g [] c h = refl
update_rows-kept p q g (r ∷ rows) c h = ground (arith, c r, update_rows-kept p q g rows c)

module _ (worker : Text) (lease_seconds task_id : ℕ) where
  -- No row is running under the worker for the task.
  abbrev pub IsReleased : Table → Type 0
  IsReleased t = any (holds worker task_id) t.rows ≡ false

  -- The other sessions do not give a released task back to the worker.
  abbrev pub LeavesReleased : Event → Type 0
  LeavesReleased (meanwhile f) = (t : Table) → IsReleased t → IsReleased (f t)
  LeavesReleased _ = Unit

-- The reaper gives no task back to a worker.
pub reap_once-LeavesReleased :
    (worker : Text) (task_id now : ℕ) (t : Table)
    → any (holds worker task_id) t.rows ≡ false
    → any (holds worker task_id) (reap_once now t).rows ≡ false
unfolding reap_once update_where
reap_once-LeavesReleased worker task_id now t h =
    update_rows-kept (holds worker task_id) (is_expired now) _ t.rows (λ r. ground arith) h
