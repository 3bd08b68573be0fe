-- ===== src/Tasks/Queue.antt =====
-- `enqueue_task` (backend/app/tasks/queue.py). What other sessions do to the table between the
-- refused insert and the search for the active row is a parameter, for each attempt.
use restock_system.Common.{
  ℕ, Text, Bool, ◌+◌, List, suc, some, ◌%◌, [], Option, false, ◌∷◌, none, ◌++◌, zero, ◌/◌,
  if◌then◌else◌, codes, ◌==◌, is_nil, leb, true, nat_eq,
}
use restock_system.Tasks.Table.{
  Table, TriggerSource, TaskRun, insert_row, new_row, Status, has_active_key, scheduler,
}
pub mod Reuse
pub mod Unique

pub data EnqueueError : Type 0 where
  value_error runtime_error : EnqueueError

pub data Outcome : Type 0 where
  returned : ℕ → Bool → Outcome
  raised : EnqueueError → Outcome

-- `str(n)`, digit by digit; `n + 1` rounds are enough.
unfoldable pub decimal_digits : ℕ → ℕ → Text → Text
decimal_digits zero n acc = acc
decimal_digits (suc fuel) n acc =
    let acc' = (b'0' + n % 10) ∷ acc in
    elim (n / 10 == 0) [ true ↦ acc' | false ↦ decimal_digits fuel (n / 10) acc' ]

unfoldable pub decimal : ℕ → Text
unfolding decimal_digits
decimal n = decimal_digits (n + 1) n []

-- `SELECT id ... ORDER BY id DESC LIMIT 1` over the active rows of the key
unfoldable pub latest_active : Text → List TaskRun → Option ℕ
latest_active key [] = none
latest_active key (r ∷ rows) =
    let rest = latest_active key rows in
    if has_active_key key r
    then some (elim rest [ none ↦ r.id | some i ↦ if leb r.id i then i else r.id ])
    else rest

pub record Request : Type 0 where
  pub job_name : Text
  pub trigger_source : TriggerSource
  pub dedupe_key : Option Text
  pub payload : Option Text
  pub priority : ℕ
  pub now : ℕ

-- `dedupe_key or job_name`: the empty text counts as none.
abbrev pub key_of : Request → Text
key_of q = elim q.dedupe_key [ none ↦ q.job_name | some k ↦ if is_nil k then q.job_name else k ]

abbrev pub payload_of : Request → Text
payload_of q = elim q.payload [ none ↦ codes "{}" | some p ↦ p ]

abbrev pub pending_row : Request → ℕ → TaskRun
pending_row q id =
    new_row id q.now q.job_name (key_of q) q.trigger_source q.priority (payload_of q) Status.pending
      none

abbrev pub skipped_row : Request → ℕ → ℕ → TaskRun
skipped_row q existing_id id =
    new_row id q.now q.job_name (key_of q ++ codes "#skipped#" ++ decimal existing_id)
      TriggerSource.scheduler q.priority (payload_of q) Status.skipped
      (some (codes "Active task already exists: " ++ decimal existing_id))

-- The reuse of an active task: a trace is left where the scheduler asked.
pub reuse_for : TriggerSource → Request → ℕ → Table → Table × Outcome
reuse_for TriggerSource.scheduler q existing_id t =
    ((insert_row (skipped_row q existing_id) t).0, returned existing_id true)
reuse_for _ q existing_id t = (t, returned existing_id true)

pub reuse : Request → ℕ → Table → Table × Outcome
unfolding reuse_for
reuse q existing_id t = reuse_for q.trigger_source q existing_id t

-- What an attempt does behind a refused insert, with what to do where the active row is gone.
pub behind_conflict : Request → (Table → Table × Outcome) → Table → Table × Outcome
unfolding reuse
behind_conflict q gone t = elim (latest_active (key_of q) t.rows) [
  | some existing_id ↦ reuse q existing_id t
  | none ↦ gone t
]

-- An insert either returns the new id or goes on with the conflict.
pub settle : Option ℕ → (Table → Table × Outcome) → Table → Table × Outcome
settle (some task_id) conflict t = (t, returned task_id false)
settle none conflict t = conflict t

-- One attempt after another; `retries` are left, of two at first.
pub attempt : (ℕ → Table → Table) → Request → ℕ → Table → Table × Outcome
unfolding behind_conflict settle
attempt others q zero t =
    let (t', inserted) = insert_row (pending_row q) t in
    settle inserted (λ s. behind_conflict q (λ seen. (seen, raised runtime_error)) (others zero s))
      t'
attempt others q (suc retries) t =
    let (t', inserted) = insert_row (pending_row q) t in
    settle inserted
      (λ s. behind_conflict q (λ seen. attempt others q retries seen) (others (suc retries) s)) t'

pub enqueue_from : TriggerSource → (ℕ → Table → Table) → Request → Table → Table × Outcome
unfolding attempt
enqueue_from TriggerSource.other others q t = (t, raised value_error)
enqueue_from _ others q t = attempt others q 2 t

unfoldable pub enqueue_task : (ℕ → Table → Table) → Request → Table → Table × Outcome
unfolding enqueue_from
enqueue_task others q t = enqueue_from q.trigger_source others q t
