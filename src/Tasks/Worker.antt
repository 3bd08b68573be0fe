-- ===== src/Tasks/Worker.antt =====
-- The statements of the worker and of the reaper (backend/app/tasks/worker.py,
-- backend/app/tasks/reaper.py). `now` is the time at which the statement runs.
pub mod Keeps
pub mod Lease
use restock_system.Tasks.Table.{TaskRun, Status, Table, is_running, update_where, is_pending}
use restock_system.Common.{
  ℕ, Text, Option, Bool, ltb, List, ◌==◌, ◌||◌, not, some, ◌&&◌, none, ◌+◌, true, if◌then◌else◌,
  leb, false, take, codes, ◌*◌, nat_eq, ◌∷◌, text_eq, [],
}

-- `ORDER BY priority, created_at`
abbrev pub claimed_before : TaskRun → TaskRun → Bool
claimed_before a b =
    ltb a.priority b.priority || (a.priority == b.priority && leb a.created_at b.created_at)

-- `SELECT id ... WHERE status = 'pending' ... FOR UPDATE SKIP LOCKED LIMIT 1`; `locked` says which rows
-- other sessions hold. Of rows that the order ties, the first of the table is taken.
unfoldable pub next_pending : (ℕ → Bool) → List TaskRun → Option TaskRun
next_pending locked [] = none
next_pending locked (r ∷ rows) =
    let rest = next_pending locked rows in
    if is_pending r.status && not (locked r.id)
    then some (elim rest [ none ↦ r | some c ↦ if claimed_before r c then r else c ])
    else rest

abbrev pub claim_row : Text → ℕ → ℕ → TaskRun → TaskRun
claim_row worker lease_seconds now r = record r {
  status = Status.running;
  worker_id = some worker;
  started_at = some now;
  heartbeat_at = some now;
  lease_expires_at = some (now + lease_seconds);
  attempt_count = r.attempt_count + 1;
}

-- What `RETURNING` hands to the worker.
pub record Claimed : Type 0 where
  pub id : ℕ
  pub job_name : Text
  pub payload : Text
  pub attempt_count : ℕ

unfoldable pub claim_one : (ℕ → Bool) → Text → ℕ → ℕ → Table → Table × Option Claimed
claim_one locked worker lease_seconds now t = elim (next_pending locked t.rows) [
  | none ↦ (t, none)
  | some c ↦ (
    (update_where (λ r. r.id == c.id) (claim_row worker lease_seconds now) t).0,
    some (record {
      id = c.id;
      job_name = c.job_name;
      payload = c.payload;
      attempt_count = c.attempt_count + 1;
    }),
  )
]

-- The condition of every later statement of the worker: the task runs, and is its own.
abbrev pub holds : Text → ℕ → TaskRun → Bool
holds worker task_id r =
    r.id == task_id
    && is_running r.status
    && elim r.worker_id [ some w ↦ w == worker | none ↦ false ]

-- One beat of `_heartbeat_loop`; the flag says that the lease is lost.
unfoldable pub heartbeat : Text → ℕ → ℕ → ℕ → Table → Table × Bool
heartbeat worker lease_seconds now task_id t =
    let (t', rowcount) =
      update_where (holds worker task_id)
        (λ r. record r { heartbeat_at = some now; lease_expires_at = some (now + lease_seconds) })
        t in
    (t', rowcount == 0)

-- The arguments of a progress update; `none` leaves the column.
pub record Progress : Type 0 where
  pub current_step : Option Text
  pub step_detail : Option Text
  pub total_steps : Option ℕ
  pub result_summary : Option Text
  pub result_payload : Option Text

abbrev pub or_else {ℓ} : {A : Type ℓ} → Option A → Option A → Option A
or_else (some a) b = some a
or_else none b = b

abbrev pub write_progress : Progress → TaskRun → TaskRun
write_progress v r = record r {
  current_step = or_else v.current_step r.current_step;
  step_detail = or_else v.step_detail r.step_detail;
  total_steps = or_else v.total_steps r.total_steps;
  result_summary = or_else v.result_summary r.result_summary;
  result_payload = or_else v.result_payload r.result_payload;
}

abbrev pub is_set {ℓ} : {A : Type ℓ} → Option A → Bool
is_set (some a) = true
is_set none = false

abbrev pub has_values : Progress → Bool
has_values v =
    is_set v.current_step
    || is_set v.step_detail
    || is_set v.total_steps
    || is_set v.result_summary
    || is_set v.result_payload

-- The setter of `_make_progress_setter`: the table, the event `lease_lost`, and whether it raises
-- `TaskLeaseLostError`.
unfoldable pub set_progress : Text → ℕ → Progress → Table → Bool → Table × Bool × Bool
set_progress worker task_id v t lease_lost =
    if lease_lost
    then (t, true, true)
    else if not (has_values v)
    then (t, false, false)
    else let (t', rowcount) = update_where (holds worker task_id) (write_progress v) t in
      (t', rowcount == 0, rowcount == 0)

unfoldable pub mark_success : Text → ℕ → ℕ → Table → Table
mark_success worker now task_id t =
    (update_where (holds worker task_id)
      (λ r. record r { status = Status.success; finished_at = some now }) t).0

-- `error[:5000]`
unfoldable pub mark_failed : Text → ℕ → ℕ → Text → Table → Table
mark_failed worker now task_id error t =
    (update_where (holds worker task_id)
      (λ r. record r {
        status = Status.failed;
        error_msg = some (take 5000 error);
        finished_at = some now;
      })
      t).0

-- `lease_expires_at < now()` is not true of a lease that is null.
abbrev pub is_expired : ℕ → TaskRun → Bool
is_expired now r =
    is_running r.status && elim r.lease_expires_at [ some lease ↦ ltb lease now | none ↦ false ]

-- `_reap_once`
unfoldable pub reap_once : ℕ → Table → Table
reap_once now t =
    (update_where (is_expired now)
      (λ r. record r {
        status = Status.failed;
        error_msg = some (codes "Lease expired, worker presumed dead");
        finished_at = some now;
      })
      t).0

-- `Worker.start` refuses a configuration in which two beats do not fit into the lease.
unfoldable pub accepts_config : ℕ → ℕ → Bool
accepts_config heartbeat_seconds lease_seconds = not (leb lease_seconds (heartbeat_seconds * 2))
