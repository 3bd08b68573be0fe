-- ===== src/Tasks/Execution/Frozen.antt =====
-- The statements of all sessions together: every run of them keeps the table valid, and what becomes
-- of a row once its task is over.
use restock_system.Tasks.Table.{Table, TaskRun, is_active, update_where, is_pending, insert_row}
use restock_system.Common.{
  ℕ, Text, Bool, ◌≡◌, some, false, not, true, arith, ◌==◌, Option-cases, nat_eq, inl, inr, refl,
  Option, none, ◌⊎◌, ◌<◌, Bool-cases,
}
use restock_system.Tasks.Execution.{
  Step, Reach, queues, stays, goes, skips, claims, beats, progresses, succeeds, fails, reaps,
  cancels, purges,
}
use restock_system.Tasks.Table.Invariant.{IsValid}
use restock_system.Tasks.Worker.{
  holds, is_expired, claim_one, heartbeat, set_progress, mark_success, next_pending, mark_failed,
  reap_once, claim_row, write_progress, has_values,
}
use restock_system.Tasks.Queue.Unique.{insert-IsValid, skip-IsValid}
use restock_system.Tasks.Worker.Keeps.{
  claim_one-IsValid, pending_of_id, heartbeat-IsValid, next_pending-found, set_progress-IsValid,
  mark_success-IsValid, mark_failed-IsValid, reap_once-IsValid,
}
use restock_system.Tasks.Queue.{pending_row, skipped_row}
use restock_system.Tasks.Table.Rows.{
  row_at, All-row_at, insert_row-row_at, row_at-update_rows, row_at-absent, row_at-fresh,
  row_at-snoc, row_at-update, row_at-keep_if, row_at-keep_if-none,
}
use restock_system.Tasks.Cleanup.{cancel_update, cancel_row, purge_task_run, is_purged}
use restock_system.Tasks.Cleanup.Keeps.{cancel_update-IsValid, purge_task_run-IsValid}
use restock_system.Common.Int.{pos, negsuc}

Step-IsValid : {t u : Table} → Step t u → IsValid t → IsValid u
Step-IsValid (queues q t) v = insert-IsValid q t v
Step-IsValid (skips q i t) v = skip-IsValid q i t v
Step-IsValid (claims locked worker lease_seconds now t) v =
    claim_one-IsValid locked worker lease_seconds now t v
Step-IsValid (beats worker lease_seconds now task_id t) v =
    heartbeat-IsValid worker lease_seconds now task_id t v
Step-IsValid (progresses worker task_id p t lost) v = set_progress-IsValid worker task_id p t lost v
Step-IsValid (succeeds worker now task_id t) v = mark_success-IsValid worker now task_id t v
Step-IsValid (fails worker now task_id error t) v = mark_failed-IsValid worker now task_id error t v
Step-IsValid (reaps now t) v = reap_once-IsValid now t v
Step-IsValid (cancels task_id t) v = cancel_update-IsValid task_id t v
Step-IsValid (purges now days t) v = purge_task_run-IsValid now days t v

-- Every run of statements of the sessions, the cancellation of tasks and the retention job included,
-- keeps the table valid.
pub Reach-IsValid : {t u : Table} → Reach t u → IsValid t → IsValid u
Reach-IsValid (stays t) v = v
Reach-IsValid (goes s r) v = Reach-IsValid r (Step-IsValid s v)

-- success, failed, skipped or cancelled
abbrev pub is_over : TaskRun → Bool
is_over r = not (is_active r.status)

-- What may become of the row of a task that is over: it is as it was, but for a cancellation, or it is
-- deleted.
abbrev pub IsEnded : TaskRun → Option TaskRun → Type 0
IsEnded r after = (after ≡ some r) ⊎ (after ≡ some (cancel_row r)) ⊎ (after ≡ none)

cancelled-IsEnded : (r : TaskRun) (o : Option TaskRun) → IsEnded (cancel_row r) o → IsEnded r o
cancelled-IsEnded r o (inl e) = inr (inl e)
cancelled-IsEnded r o (inr (inl e)) = inr (inl e)
cancelled-IsEnded r o (inr (inr e)) = inr (inr e)

holds-over : (worker : Text) (i : ℕ) (r : TaskRun) → is_over r ≡ true → holds worker i r ≡ false
holds-over worker i r h = ground arith

expired-over : (now : ℕ) (r : TaskRun) → is_over r ≡ true → is_expired now r ≡ false
expired-over now r h = ground arith

module _ (i : ℕ) {r : TaskRun} (over : is_over r ≡ true) where
  claim_one-row_at :
      (locked : ℕ → Bool) (worker : Text) (lease_seconds now : ℕ) (t : Table)
      → IsValid t
      → row_at i t.rows ≡ some r
      → row_at i (claim_one locked worker lease_seconds now t).0.rows ≡ some r
  unfolding claim_one update_where
  claim_one-row_at locked worker lease_seconds now t v h =
      elim (Option-cases (next_pending locked t.rows)) [
        | inl absent ↦ rw (absent, claim_one) h
        | inr (c, e) ↦
            let pending =
              (All-row_at (λ r. (r.id == c.id) ≡ true → is_pending r.status ≡ true) i t.rows
                (pending_of_id c.id t.rows v.distinct (next_pending-found locked t.rows e)) h).0 in
            rw (e, claim_one)
              (row_at-update_rows (λ r. r.id == c.id) (claim_row worker lease_seconds now) i t.rows
                (λ x. refl) (ground (arith, pending, over)) h)
      ]

  Step-row_at :
      {t u : Table} → Step t u → IsValid t → row_at i t.rows ≡ some r → IsEnded r (row_at i u.rows)
  unfolding heartbeat set_progress mark_success mark_failed reap_once update_where cancel_update
      purge_task_run
  Step-row_at (queues q t) v h = inl (insert_row-row_at (pending_row q) i t h)
  Step-row_at (skips q j t) v h = inl (insert_row-row_at (skipped_row q j) i t h)
  Step-row_at (claims locked worker lease_seconds now t) v h =
      inl (claim_one-row_at locked worker lease_seconds now t v h)
  Step-row_at (beats worker lease_seconds now task_id t) v h = inl (
      row_at-update_rows (holds worker task_id) _ i t.rows (λ x. refl)
        (holds-over worker task_id r over) h)
  Step-row_at (progresses worker task_id p t lost) v h = inl (
      ground (
        arith,
        row_at-update_rows (holds worker task_id) (write_progress p) i t.rows (λ x. refl)
            (holds-over worker task_id r over) h,
      ))
  Step-row_at (succeeds worker now task_id t) v h = inl (
      row_at-update_rows (holds worker task_id) _ i t.rows (λ x. refl)
        (holds-over worker task_id r over) h)
  Step-row_at (fails worker now task_id error t) v h = inl (
      row_at-update_rows (holds worker task_id) _ i t.rows (λ x. refl)
        (holds-over worker task_id r over) h)
  Step-row_at (reaps now t) v h =
      inl (row_at-update_rows (is_expired now) _ i t.rows (λ x. refl) (expired-over now r over) h)
  Step-row_at (cancels task_id t) v h =
      let after = row_at-update (λ r. r.id == task_id) cancel_row i (λ x. refl) t.rows h in
      elim (Bool-cases (r.id == task_id)) [
        | inl e ↦ let changed = rw e at after in inr (inl changed)
        | inr e ↦ let same = rw e at after in inl same
      ]
  Step-row_at (purges now (pos days) t) v h = elim (Bool-cases (days == 0)) [
    | inl e ↦ rw e (inl h)
    | inr e ↦ rw e (elim (row_at-keep_if (λ r. not (is_purged now days r)) i t.rows v.distinct h) [
      | inl kept ↦ inl kept
      | inr gone ↦ inr (inr gone)
    ])
  ]
  Step-row_at (purges now (negsuc n) t) v h = inl h

-- The sequence behind the ids never goes back.
next_id-grows : {t u : Table} {i : ℕ} → Step t u → i < t.next_id → i < u.next_id
unfolding heartbeat set_progress mark_success mark_failed reap_once cancel_update purge_task_run
    claim_one update_where insert_row
next_id-grows (queues q t) h = ground (arith, h)
next_id-grows (skips q j t) h = ground (arith, h)
next_id-grows (claims locked worker lease_seconds now t) h =
    elim (Option-cases (next_pending locked t.rows)) [
      | inl absent ↦ rw (absent, claim_one) h
      | inr (c, e) ↦ rw (e, claim_one) h
    ]
next_id-grows (beats worker lease_seconds now task_id t) h = h
next_id-grows (progresses worker task_id p t lost) h = ground (arith, h)
next_id-grows (succeeds worker now task_id t) h = h
next_id-grows (fails worker now task_id error t) h = h
next_id-grows (reaps now t) h = h
next_id-grows (cancels task_id t) h = h
next_id-grows (purges now (pos days) t) h = ground (arith, h)
next_id-grows (purges now (negsuc n) t) h = h

-- No row has the id, and no later insert takes it.
record IsGone (i : ℕ) (t : Table) : Type 0 where
  absent : row_at i t.rows ≡ none
  passed : i < t.next_id

update_where-IsGone :
    (p : TaskRun → Bool) (g : TaskRun → TaskRun) (i : ℕ) (t : Table)
    → ((x : TaskRun) → (g x).id ≡ x.id)
    → IsGone i t
    → IsGone i (update_where p g t).0
unfolding update_where
update_where-IsGone p g i t k h = record {
  absent = row_at-absent p g i k t.rows h.absent;
  passed = h.passed;
}

insert_row-IsGone :
    (row : ℕ → TaskRun) (i : ℕ) (t : Table)
    → ((n : ℕ) → (row n).id ≡ n)
    → IsGone i t
    → IsGone i (insert_row row t).0
unfolding insert_row
insert_row-IsGone row i t k h = record {
  absent = ground (arith, k t.next_id, row_at-snoc i t.rows (row t.next_id), h.absent, h.passed);
  passed = ground (arith, h.passed);
}

Step-IsGone : (i : ℕ) {t u : Table} → Step t u → IsGone i t → IsGone i u
unfolding heartbeat set_progress mark_success mark_failed reap_once cancel_update purge_task_run
    claim_one
Step-IsGone i (queues q t) h = insert_row-IsGone (pending_row q) i t (λ n. refl) h
Step-IsGone i (skips q j t) h = insert_row-IsGone (skipped_row q j) i t (λ n. refl) h
Step-IsGone i (claims locked worker lease_seconds now t) h =
    elim (Option-cases (next_pending locked t.rows)) [
      | inl absent ↦ rw (absent, claim_one) h
      | inr (c, e) ↦ rw (e, claim_one) (update_where-IsGone _ _ i t (λ x. refl) h)
    ]
Step-IsGone i (beats worker lease_seconds now task_id t) h =
    update_where-IsGone _ _ i t (λ x. refl) h
Step-IsGone i (progresses worker task_id p t true) h = h
Step-IsGone i (progresses worker task_id p t false) h = elim (Bool-cases (has_values p)) [
  | inl e ↦ rw e (update_where-IsGone _ (write_progress p) i t (λ x. refl) h)
  | inr e ↦ rw e h
]
Step-IsGone i (succeeds worker now task_id t) h = update_where-IsGone _ _ i t (λ x. refl) h
Step-IsGone i (fails worker now task_id error t) h = update_where-IsGone _ _ i t (λ x. refl) h
Step-IsGone i (reaps now t) h = update_where-IsGone _ _ i t (λ x. refl) h
Step-IsGone i (cancels task_id t) h = update_where-IsGone _ _ i t (λ x. refl) h
Step-IsGone i (purges now (pos days) t) h = elim (Bool-cases (days == 0)) [
  | inl e ↦ rw e h
  | inr e ↦ rw e (record { absent = row_at-keep_if-none _ i t.rows h.absent; passed = h.passed })
]
Step-IsGone i (purges now (negsuc n) t) h = h

Reach-IsGone : (i : ℕ) {t u : Table} → Reach t u → IsGone i t → IsGone i u
Reach-IsGone i (stays t) h = h
Reach-IsGone i (goes s rest) h = Reach-IsGone i rest (Step-IsGone i s h)

-- Whatever statements the sessions run on a valid table, the row of a task that is over stays as it
-- is in all its columns, except that a cancellation may still set its status to cancelled, and that
-- the retention job may delete it.
pub Reach-row_at :
    (i : ℕ) {r : TaskRun} {t u : Table}
    → Reach t u
    → IsValid t
    → row_at i t.rows ≡ some r
    → is_over r ≡ true
    → IsEnded r (row_at i u.rows)
Reach-row_at i (stays t) v h o = inl h
Reach-row_at i {r} (goes {s = before} s rest) v h o = elim (Step-row_at i o s v h) [
  | inl kept ↦ Reach-row_at i rest (Step-IsValid s v) kept o
  | inr (inl changed) ↦ cancelled-IsEnded r _ (Reach-row_at i rest (Step-IsValid s v) changed refl)
  | inr (inr gone) ↦ inr (
      inr
        (Reach-IsGone i rest (record {
          absent = gone;
          passed = next_id-grows s (row_at-fresh i before.rows before.next_id v.fresh h);
        })).absent)
]
