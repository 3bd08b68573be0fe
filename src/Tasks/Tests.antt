-- ===== src/Tasks/Tests.antt =====
-- Concrete runs of the task queue, and its theorems at concrete inputs.
use restock_system.Tasks.Table.{
  TriggerSource, Table, TaskRun, manual, scheduler, Status, insert_row, has_active_key,
  update_where,
}
use restock_system.Tasks.Table.Invariant.{IsValid}
use restock_system.Common.{
  ℕ, any, Text, List, [], arith, ◌==◌, codes, ◌∷◌, ◌≡◌, some, ◌&&◌, true, false, none, refl, nat_eq,
}
use restock_system.Tasks.Queue.{enqueue_task, Request, pending_row, returned, key_of, latest_active}
use restock_system.Tasks.Queue.Reuse.{is_returned, enqueue_task-returns, enqueue_task-active}
use restock_system.Tasks.Table.Rows.{row_at}
use restock_system.Tasks.Worker.{
  Claimed, claim_row, claim_one, reap_once, mark_success, heartbeat, next_pending, accepts_config,
}
use restock_system.Tasks.Execution.{
  Reach, Event, beat, execute, goes, succeeds, reaps, stays, interrupted, cancels, meanwhile,
}
use restock_system.Tasks.Queue.Unique.{insert-IsValid, enqueue_task-IsValid}
use restock_system.Tasks.Worker.Keeps.{claim_one-IsValid, mark_success-IsValid}
use restock_system.Tasks.Execution.Frozen.{Reach-IsValid, Reach-row_at, IsEnded}
use restock_system.Tasks.Worker.Lease.{reap_once-heartbeat}
use restock_system.Tasks.Cleanup.{cancel_update, cancel_row}

abbrev request_of : TriggerSource → Request
request_of s = record {
  job_name = codes "calc_engine";
  trigger_source = s;
  dedupe_key = some [];
  payload = none;
  priority = 5;
  now = 100;
}

abbrev empty : Table
empty = record { rows = []; next_id = 1 }

empty-IsValid : IsValid empty
empty-IsValid = record { unique = λ key. omega arith; distinct = tt; fresh = tt; rows_valid = tt }

abbrev quiet : ℕ → Table → Table
quiet n t = t

-- The table with one pending task
abbrev queued : Table
queued = record { rows = pending_row (request_of manual) 1 ∷ []; next_id = 2 }

queued-IsValid : IsValid queued
unfolding insert_row
queued-IsValid = insert-IsValid (request_of manual) empty empty-IsValid

first_run : enqueue_task quiet (request_of manual) empty ≡ (queued, returned 1 false)
unfolding enqueue_task insert_row
first_run = refl

-- The scheduler's second request reuses the task and leaves a trace.
second_run : (enqueue_task quiet (request_of scheduler) queued).1 ≡ returned 1 true
unfolding enqueue_task insert_row latest_active
second_run = refl

enqueue_task-IsValid_example : IsValid (enqueue_task quiet (request_of scheduler) queued).0
enqueue_task-IsValid_example =
    enqueue_task-IsValid (request_of scheduler) quiet (λ n t v. v) queued queued-IsValid

enqueue_task-active_example :
    any
      (λ r. r.id == 1 && has_active_key (key_of (request_of scheduler)) r)
      (enqueue_task quiet (request_of scheduler) queued).0.rows
    ≡ true
enqueue_task-active_example = enqueue_task-active (request_of scheduler) quiet queued second_run

enqueue_task-returns_example :
    is_returned (enqueue_task (λ n s. s) (request_of scheduler) queued).1 ≡ true
enqueue_task-returns_example = enqueue_task-returns (request_of scheduler) queued

abbrev worker : Text
worker = codes "w1"

-- The row once the worker has claimed it at the time 110, with a lease of 60 seconds.
abbrev running_row : TaskRun
running_row = claim_row worker 60 110 (pending_row (request_of manual) 1)

abbrev claimed_table : Table
claimed_table = record { rows = running_row ∷ []; next_id = 2 }

accepted : accepts_config 20 60 ≡ true
unfolding accepts_config
accepted = refl

reap_once-heartbeat_example :
    row_at 1 (reap_once 170 (heartbeat worker 60 130 1 claimed_table).0).rows
    ≡ some (record running_row { heartbeat_at = some 130; lease_expires_at = some 190 })
reap_once-heartbeat_example =
    reap_once-heartbeat worker 20 60 130 170 1 claimed_table accepted refl refl (omega arith)

abbrev claimed : Claimed
claimed = record { id = 1; job_name = codes "calc_engine"; payload = codes "{}"; attempt_count = 1 }

-- A beat, a pass of the reaper within the lease, and then the worker is stopped: the row stays running,
-- until the reaper passes at 500.
abbrev events : List Event
events = beat 130 ∷ meanwhile (reap_once 150) ∷ []

abbrev stopped_table : Table
stopped_table = execute (λ j. true) worker 60 130 claimed interrupted events claimed_table

-- The task succeeds, a cancellation that read it before that comes late, and the reaper passes.
abbrev done_table : Table
done_table = mark_success worker 120 1 claimed_table

abbrev done_row : TaskRun
done_row = record running_row { status = Status.success; finished_at = some 120 }

abbrev cancelled_table : Table
cancelled_table = cancel_update 1 done_table

after : Reach done_table (reap_once 500 cancelled_table)
after =
    goes (cancels 1 done_table)
      (goes (reaps 500 cancelled_table) (stays (reap_once 500 cancelled_table)))

later : Reach claimed_table (reap_once 500 cancelled_table)
later = goes (succeeds worker 120 1 claimed_table) after

claimed_table-IsValid : IsValid claimed_table
unfolding claim_one next_pending update_where
claimed_table-IsValid = claim_one-IsValid (λ i. false) worker 60 110 queued queued-IsValid

done_table-IsValid : IsValid done_table
done_table-IsValid = mark_success-IsValid worker 120 1 claimed_table claimed_table-IsValid

Reach-IsValid_example : IsValid (reap_once 500 cancelled_table)
Reach-IsValid_example = Reach-IsValid later claimed_table-IsValid

done_row-found : row_at 1 done_table.rows ≡ some done_row
unfolding mark_success update_where
done_row-found = refl

Reach-row_at_example : IsEnded done_row (row_at 1 (reap_once 500 cancelled_table).rows)
Reach-row_at_example = Reach-row_at 1 after done_table-IsValid done_row-found refl

-- The late cancellation changes the status of the finished task.
late_cancel : row_at 1 cancelled_table.rows ≡ some (cancel_row done_row)
unfolding cancel_update mark_success update_where
late_cancel = refl
