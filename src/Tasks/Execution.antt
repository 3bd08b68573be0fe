-- ===== src/Tasks/Execution.antt =====
-- The life of a task under the worker (`Worker._execute`, backend/app/tasks/worker.py), and the
-- statements that all sessions run on the table, one after another.
pub mod Frozen
pub mod Release
use restock_system.Tasks.Table.{Table, insert_row}
use restock_system.Common.{◌∷◌, ℕ, Text, Bool, List, if◌then◌else◌, true, false, [], codes, ◌++◌}
use restock_system.Tasks.Queue.{Request, pending_row, skipped_row}
use restock_system.Tasks.Worker.{
  Progress, mark_success, mark_failed, set_progress, Claimed, heartbeat, claim_one, reap_once,
}
use restock_system.Tasks.Cleanup.{cancel_update, purge_task_run}
use restock_system.Common.Int.{ℤ}

-- One committed statement of a session. Queue, worker, reaper, cancellation and retention are the code
-- that writes to the table.
pub data Step : Table → Table → Type 0 where
  queues : (q : Request) (t : Table) → Step t (insert_row (pending_row q) t).0
  skips :
      (q : Request) (existing_id : ℕ) (t : Table)
      → Step t (insert_row (skipped_row q existing_id) t).0
  claims :
      (locked : ℕ → Bool) (worker : Text) (lease_seconds now : ℕ) (t : Table)
      → Step t (claim_one locked worker lease_seconds now t).0
  beats :
      (worker : Text) (lease_seconds now task_id : ℕ) (t : Table)
      → Step t (heartbeat worker lease_seconds now task_id t).0
  progresses :
      (worker : Text) (task_id : ℕ) (v : Progress) (t : Table) (lease_lost : Bool)
      → Step t (set_progress worker task_id v t lease_lost).0
  succeeds :
      (worker : Text) (now task_id : ℕ) (t : Table) → Step t (mark_success worker now task_id t)
  fails :
      (worker : Text) (now task_id : ℕ) (error : Text) (t : Table)
      → Step t (mark_failed worker now task_id error t)
  reaps : (now : ℕ) (t : Table) → Step t (reap_once now t)
  cancels : (task_id : ℕ) (t : Table) → Step t (cancel_update task_id t)
  purges : (now : ℕ) (days : ℤ) (t : Table) → Step t (purge_task_run now days t)

pub data Reach : Table → Table → Type 0 where
  stays : (t : Table) → Reach t t
  goes : {s t u : Table} → Step s t → Reach t u → Reach s u

-- What happens while a handler runs: a beat of the heartbeat loop, a progress update of the handler,
-- or anything that other sessions do to the table.
pub data Event : Type 0 where
  beat : ℕ → Event
  update : Progress → Event
  meanwhile : (Table → Table) → Event

-- How a handler ends by itself, and when: it returns, or it raises another exception. `interrupted` is
-- an end that writes nothing: `Worker.stop` cancels the task, which `_execute` does not catch, or the
-- statement that should write the end fails.
pub data Ending : Type 0 where
  returns : ℕ → Ending
  raises : Text → ℕ → Ending
  interrupted : Ending

-- Whether the end of the task is written.
abbrev pub is_written : Ending → Bool
is_written interrupted = false
is_written _ = true

-- A beat, with what becomes of the event `lease_lost`: the loop has returned once that is set.
abbrev pub beat_once : Text → ℕ → ℕ → ℕ → Table → Bool → Table × Bool
beat_once worker lease_seconds now task_id t lease_lost =
    if lease_lost then (t, true) else heartbeat worker lease_seconds now task_id t

abbrev pub finish : Text → ℕ → Ending → Table → Table
finish worker task_id (returns now) t = mark_success worker now task_id t
finish worker task_id (raises error now) t = mark_failed worker now task_id error t
finish worker task_id interrupted t = t

-- A job without a handler is marked as failed, unless that statement does not come to its end.
abbrev pub finish_unregistered : Text → ℕ → Claimed → Ending → Table → Table
finish_unregistered worker now claimed interrupted t = t
finish_unregistered worker now claimed _ t =
    mark_failed worker now claimed.id (codes "未注册的 job_name: " ++ claimed.job_name) t

-- The events in their order. The handler lets `TaskLeaseLostError` through, which ends the task
-- without a further write.
unfoldable pub run_events : Text → ℕ → ℕ → Ending → List Event → Table → Bool → Table
run_events worker lease_seconds task_id ending [] t lease_lost = finish worker task_id ending t
run_events worker lease_seconds task_id ending (beat now ∷ es) t lease_lost =
    let (t', lost) = beat_once worker lease_seconds now task_id t lease_lost in
    run_events worker lease_seconds task_id ending es t' lost
run_events worker lease_seconds task_id ending (meanwhile f ∷ es) t lease_lost =
    run_events worker lease_seconds task_id ending es (f t) lease_lost
run_events worker lease_seconds task_id ending (update v ∷ es) t lease_lost =
    let (t', lost, lease_error) = set_progress worker task_id v t lease_lost in
    let rest = run_events worker lease_seconds task_id ending es t' lost in
    if lease_error then t' else rest

-- `_execute`; the registry says whether the job has a handler.
unfoldable pub execute :
    (Text → Bool) → Text → ℕ → ℕ → Claimed → Ending → List Event → Table → Table
execute registered worker lease_seconds now claimed ending es t =
    if registered claimed.job_name
    then run_events worker lease_seconds claimed.id ending es t false
    else finish_unregistered worker now claimed ending t
