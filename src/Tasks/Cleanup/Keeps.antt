-- ===== src/Tasks/Cleanup/Keeps.antt =====
-- The cancellation and the retention job keep the table valid.
use restock_system.Tasks.Cleanup.{cancel_update, purge_task_run, cancel_row, is_purged}
use restock_system.Tasks.Table.{TaskRun, Table, count_if, has_active_key}
use restock_system.Common.{
  ℕ, Bool, List, elem, IsDistinct, All, keep_if, ◌<◌, ◌==◌, ◌≤◌, ◌≡◌, arith, Bool-cases, ◌∷◌, false,
  [], inl, keep_if-All, nat_eq, inr, not, refl,
}
use restock_system.Common.Int.{ℤ, pos, negsuc}
use restock_system.Tasks.Table.Invariant.{IsValid, ids, IsRow}
use restock_system.Tasks.Worker.Keeps.{Ends-IsValid}

pub cancel_update-IsValid :
    (task_id : ℕ) (t : Table) → IsValid t → IsValid (cancel_update task_id t)
unfolding cancel_update
cancel_update-IsValid task_id t =
    Ends-IsValid (λ r. r.id == task_id) cancel_row t
      (λ r. record { same_id = refl; same_key = refl; same_attempts = refl; ended = refl })

module _ (p : TaskRun → Bool) where
  count-keep_if :
      (q : TaskRun → Bool) (rows : List TaskRun) → count_if q (keep_if p rows) ≤ count_if q rows
  count-keep_if q [] = omega arith
  count-keep_if q (r ∷ rows) = ground (arith, count-keep_if q rows)

  elem-ids-keep_if :
      (i : ℕ) (rows : List TaskRun)
      → elem i (ids rows) ≡ false
      → elem i (ids (keep_if p rows)) ≡ false
  elem-ids-keep_if i [] h = refl
  elem-ids-keep_if i (r ∷ rows) h = ground (arith, elem-ids-keep_if i rows)

  ids-keep_if-IsDistinct :
      (rows : List TaskRun) → IsDistinct (ids rows) → IsDistinct (ids (keep_if p rows))
  ids-keep_if-IsDistinct [] d = tt
  ids-keep_if-IsDistinct (r ∷ rows) d = elim (Bool-cases (p r)) [
    | inl e ↦ rw e (elem-ids-keep_if r.id rows d.0, ids-keep_if-IsDistinct rows d.1)
    | inr e ↦ rw e (ids-keep_if-IsDistinct rows d.1)
  ]

  ids-keep_if-All :
      (n : ℕ) (rows : List TaskRun)
      → All (λ i. i < n) (ids rows)
      → All (λ i. i < n) (ids (keep_if p rows))
  ids-keep_if-All n [] f = tt
  ids-keep_if-All n (r ∷ rows) f = elim (Bool-cases (p r)) [
    | inl e ↦ rw e (f.0, ids-keep_if-All n rows f.1)
    | inr e ↦ rw e (ids-keep_if-All n rows f.1)
  ]

  keep_if-IsValid : (t : Table) → IsValid t → IsValid (record t { rows = keep_if p t.rows })
  keep_if-IsValid t v = record {
    unique = λ key. omega (arith, count-keep_if (has_active_key key) t.rows, v.unique key);
    distinct = ids-keep_if-IsDistinct t.rows v.distinct;
    fresh = ids-keep_if-All t.next_id t.rows v.fresh;
    rows_valid = keep_if-All IsRow p t.rows v.rows_valid;
  }

pub purge_task_run-IsValid :
    (now : ℕ) (days : ℤ) (t : Table) → IsValid t → IsValid (purge_task_run now days t)
unfolding purge_task_run
purge_task_run-IsValid now (pos days) t v = elim (Bool-cases (days == 0)) [
  | inl e ↦ rw e v
  | inr e ↦ rw e (keep_if-IsValid (λ r. not (is_purged now days r)) t v)
]
purge_task_run-IsValid now (negsuc n) t v = v
