-- ===== src/Tasks/Table.antt =====
-- The table `task_run` (backend/app/models/task_run.py), and the SQL that the queue runs on it: an insert
-- under the partial unique index, and an update of the rows that a condition selects.
-- Times are seconds; a payload is its JSON text.
pub mod Invariant
pub mod Rows
use restock_system.Common.{
  ℕ, List, Bool, Text, Option, true, ◌&&◌, ◌∷◌, false, ◌==◌, none, if◌then◌else◌, any, ◌+◌, [],
  text_eq, ◌++◌, some,
}

pub data Status : Type 0 where
  pending running success failed skipped cancelled : Status

pub data TriggerSource : Type 0 where
  scheduler manual other : TriggerSource

pub record TaskRun : Type 0 where
  pub id : ℕ
  pub job_name : Text
  pub dedupe_key : Text
  pub status : Status
  pub trigger_source : TriggerSource
  pub priority : ℕ
  pub payload : Text
  pub current_step : Option Text
  pub step_detail : Option Text
  pub total_steps : Option ℕ
  pub attempt_count : ℕ
  pub error_msg : Option Text
  pub result_summary : Option Text
  pub result_payload : Option Text
  pub worker_id : Option Text
  pub heartbeat_at : Option ℕ
  pub lease_expires_at : Option ℕ
  pub started_at : Option ℕ
  pub finished_at : Option ℕ
  pub created_at : ℕ

-- The rows, and the next value of the sequence behind `id`.
pub record Table : Type 0 where
  pub rows : List TaskRun
  pub next_id : ℕ

abbrev pub is_pending : Status → Bool
is_pending Status.pending = true
is_pending _ = false

abbrev pub is_running : Status → Bool
is_running Status.running = true
is_running _ = false

-- The condition of the index `uq_task_run_active_dedupe`
abbrev pub is_active : Status → Bool
is_active Status.pending = true
is_active Status.running = true
is_active _ = false

abbrev pub has_active_key : Text → TaskRun → Bool
has_active_key key r = is_active r.status && r.dedupe_key == key

-- A new row, with the columns that an insert of the queue does not name at their defaults.
abbrev pub new_row : ℕ → ℕ → Text → Text → TriggerSource → ℕ → Text → Status → Option Text → TaskRun
new_row id now job_name dedupe_key trigger_source priority payload status error_msg = record {
  id = id;
  job_name = job_name;
  dedupe_key = dedupe_key;
  status = status;
  trigger_source = trigger_source;
  priority = priority;
  payload = payload;
  current_step = none;
  step_detail = none;
  total_steps = none;
  attempt_count = 0;
  error_msg = error_msg;
  result_summary = none;
  result_payload = none;
  worker_id = none;
  heartbeat_at = none;
  lease_expires_at = none;
  started_at = none;
  finished_at = none;
  created_at = now;
}

-- `INSERT`, refused (`none`) where the partial unique index would hold the key twice. The sequence
-- moves on even then.
unfoldable pub insert_row : (ℕ → TaskRun) → Table → Table × Option ℕ
insert_row row t =
    let r = row t.next_id in
    if is_active r.status && any (has_active_key r.dedupe_key) t.rows
    then (record t { next_id = t.next_id + 1 }, none)
    else (record { rows = t.rows ++ r ∷ []; next_id = t.next_id + 1 }, some t.next_id)

-- `UPDATE ... WHERE`, with the number of rows that it changes.
abbrev pub update_rows : (TaskRun → Bool) → (TaskRun → TaskRun) → List TaskRun → List TaskRun
update_rows p g [] = []
update_rows p g (r ∷ rows) = (if p r then g r else r) ∷ update_rows p g rows

abbrev pub count_if : (TaskRun → Bool) → List TaskRun → ℕ
count_if p [] = 0
count_if p (r ∷ rows) = (if p r then 1 else 0) + count_if p rows

unfoldable pub update_where : (TaskRun → Bool) → (TaskRun → TaskRun) → Table → Table × ℕ
update_where p g t = (record t { rows = update_rows p g t.rows }, count_if p t.rows)
