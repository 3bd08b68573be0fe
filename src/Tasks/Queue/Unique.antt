-- ===== src/Tasks/Queue/Unique.antt =====
-- Enqueuing keeps the table valid: the index refuses a second active task for a key.
use restock_system.Tasks.Queue.{
  Request, Outcome, behind_conflict, attempt, pending_row, skipped_row, latest_active, key_of,
  reuse_for, settle, raised, enqueue_from, enqueue_task, runtime_error,
}
use restock_system.Common.{ℕ, Option-cases, arith, refl, inl, inr, Option, some, suc, none, zero}
use restock_system.Tasks.Table.{Table, insert_row, TriggerSource}
use restock_system.Tasks.Table.Invariant.{IsValid, insert_row-IsValid}

pub insert-IsValid :
    (q : Request) (t : Table) → IsValid t → IsValid (insert_row (pending_row q) t).0
insert-IsValid q t v =
    insert_row-IsValid (pending_row q) (λ i. refl)
      (λ i. record { unclaimed = λ h. refl; claimed_once = omega arith; owned = λ h. cc }) t v

pub skip-IsValid :
    (q : Request) (existing_id : ℕ) (t : Table)
    → IsValid t
    → IsValid (insert_row (skipped_row q existing_id) t).0
skip-IsValid q existing_id t v =
    insert_row-IsValid (skipped_row q existing_id) (λ i. refl)
      (λ i. record { unclaimed = λ h. cc; claimed_once = omega arith; owned = λ h. cc }) t v

reuse_for-IsValid :
    (s : TriggerSource) (q : Request) (existing_id : ℕ) (t : Table)
    → IsValid t
    → IsValid (reuse_for s q existing_id t).0
unfolding reuse_for
reuse_for-IsValid TriggerSource.scheduler q existing_id t v = skip-IsValid q existing_id t v
reuse_for-IsValid _ q existing_id t v = v

-- What other sessions do keeps a table valid.
abbrev pub KeepsValid : (ℕ → Table → Table) → Type 0
KeepsValid others = (n : ℕ) (t : Table) → IsValid t → IsValid (others n t)

module _ (q : Request) where
  behind_conflict-IsValid :
      (gone : Table → Table × Outcome) (t : Table)
      → ((t : Table) → IsValid t → IsValid (gone t).0)
      → IsValid t
      → IsValid (behind_conflict q gone t).0
  behind_conflict-IsValid gone t g v = elim (Option-cases (latest_active (key_of q) t.rows)) [
    | inl absent ↦ unfold behind_conflict in rw (absent, behind_conflict) (g t v)
    | inr (i, e) ↦
        unfold behind_conflict in
        rw (e, behind_conflict) (reuse_for-IsValid q.trigger_source q i t v)
  ]

  settle-IsValid :
      (inserted : Option ℕ) (conflict : Table → Table × Outcome) (t : Table)
      → ((t : Table) → IsValid t → IsValid (conflict t).0)
      → IsValid t
      → IsValid (settle inserted conflict t).0
  unfolding settle
  settle-IsValid (some i) conflict t c v = v
  settle-IsValid none conflict t c v = c t v

  insert-settle-IsValid :
      (gone : Table → Table × Outcome) (between : Table → Table) (t : Table)
      → ((t : Table) → IsValid t → IsValid (gone t).0)
      → ((t : Table) → IsValid t → IsValid (between t))
      → IsValid t
      → IsValid
          (settle
            (insert_row (pending_row q) t).1
            (λ s. behind_conflict q gone (between s))
            (insert_row (pending_row q) t).0).0
  insert-settle-IsValid gone between t g b v =
      settle-IsValid (insert_row (pending_row q) t).1 (λ s. behind_conflict q gone (between s))
        (insert_row (pending_row q) t).0 (λ s w. behind_conflict-IsValid gone (between s) g (b s w))
        (insert-IsValid q t v)

  module _ (others : ℕ → Table → Table) (k : KeepsValid others) where
    attempt-IsValid : (retries : ℕ) (t : Table) → IsValid t → IsValid (attempt others q retries t).0
    unfolding attempt
    attempt-IsValid zero t v =
        insert-settle-IsValid (λ seen. (seen, raised runtime_error)) (others zero) t (λ t v. v)
          (k zero) v
    attempt-IsValid (suc retries) t v =
        insert-settle-IsValid (λ seen. attempt others q retries seen) (others (suc retries)) t
          (λ s w. attempt-IsValid retries s w) (k (suc retries)) v

    enqueue_from-IsValid :
        (s : TriggerSource) (t : Table) → IsValid t → IsValid (enqueue_from s others q t).0
    enqueue_from-IsValid TriggerSource.other t v = unfold enqueue_from in v
    enqueue_from-IsValid TriggerSource.scheduler t v = unfold enqueue_from in attempt-IsValid 2 t v
    enqueue_from-IsValid TriggerSource.manual t v = unfold enqueue_from in attempt-IsValid 2 t v

    -- Whatever other sessions do between the attempts, as long as they keep the table valid, it is
    -- valid after `enqueue_task`, whether that returns or raises: in particular no key has two
    -- active tasks.
    pub enqueue_task-IsValid : (t : Table) → IsValid t → IsValid (enqueue_task others q t).0
    enqueue_task-IsValid t v = unfold enqueue_task in enqueue_from-IsValid q.trigger_source t v
