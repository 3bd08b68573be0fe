-- ===== src/Tasks/Queue/Reuse.antt =====
-- What the callers of `enqueue_task` rely on: the task that it returns is active and has the key, and
-- without interference it does return.
use restock_system.Common.{
  Text, Bool, ℕ, List, true, ◌==◌, ◌≡◌, any, false, ◌&&◌, some, none, ◌++◌, arith, Option-cases,
  not, refl, ◌||◌, ◌∷◌, nat_eq, inl, suc, [], zero, inr, text_eq, ==_refl,
}
use restock_system.Tasks.Queue.{
  latest_active, Request, Outcome, reuse_for, attempt, enqueue_from, enqueue_task, returned,
  pending_row, behind_conflict, settle, raised, key_of, runtime_error, skipped_row,
}
use restock_system.Tasks.Table.{insert_row, TriggerSource, TaskRun, Table, has_active_key}

-- The row with the id is an active task of the key.
abbrev is_task : Text → ℕ → TaskRun → Bool
is_task key i r = r.id == i && has_active_key key r

latest_active-task :
    (key : Text) (rows : List TaskRun) {i : ℕ}
    → latest_active key rows ≡ some i
    → any (is_task key i) rows ≡ true
unfolding latest_active
latest_active-task key [] h = cc
latest_active-task key (r ∷ rows) {i} h = elim (Option-cases (latest_active key rows)) [
  | inl absent ↦ ground (arith, absent, h)
  | inr (best, e) ↦ ground (arith, e, h, latest_active-task key rows e)
]

latest_active-none :
    (key : Text) (rows : List TaskRun)
    → latest_active key rows ≡ none
    → any (has_active_key key) rows ≡ false
unfolding latest_active
latest_active-none key [] h = refl
latest_active-none key (r ∷ rows) h = ground (arith, latest_active-none key rows)

any-append {ℓ} :
    {A : Type ℓ} (p : A → Bool) (xs ys : List A) → any p (xs ++ ys) ≡ (any p xs || any p ys)
any-append p [] ys = refl
any-append p (x ∷ xs) ys = ground (arith, any-append p xs ys)

insert_row-any :
    (p : TaskRun → Bool) (row : ℕ → TaskRun) (t : Table)
    → any p t.rows ≡ true
    → any p (insert_row row t).0.rows ≡ true
unfolding insert_row
insert_row-any p row t h = ground (arith, any-append p t.rows (row t.next_id ∷ []), h)

insert-task :
    (q : Request) (t : Table) {i : ℕ}
    → (insert_row (pending_row q) t).1 ≡ some i
    → any (is_task (key_of q) i) (insert_row (pending_row q) t).0.rows ≡ true
unfolding insert_row
insert-task q t {i} h = ground (
  arith,
  h,
  any-append (is_task (key_of q) i) t.rows (pending_row q t.next_id ∷ []),
  ==_refl (key_of q),
)

insert-refused :
    (q : Request) (t : Table)
    → (insert_row (pending_row q) t).1 ≡ none
    → (any (has_active_key (key_of q)) t.rows ≡ true)
      × ((insert_row (pending_row q) t).0.rows ≡ t.rows)
unfolding insert_row
insert-refused q t h = ground (arith, h)

-- An outcome that names a task names an active one of the key.
abbrev IsGood : Request → Table × Outcome → Type 0
IsGood q out = elim out.1 [
  | returned i reused ↦ any (is_task (key_of q) i) out.0.rows ≡ true
  | raised e ↦ Unit
]

module _ (q : Request) where
  reuse_for-IsGood :
      (s : TriggerSource) (i : ℕ) (t : Table)
      → any (is_task (key_of q) i) t.rows ≡ true
      → IsGood q (reuse_for s q i t)
  unfolding reuse_for
  reuse_for-IsGood TriggerSource.scheduler i t h =
      insert_row-any (is_task (key_of q) i) (skipped_row q i) t h
  reuse_for-IsGood _ i t h = h

  behind_conflict-IsGood :
      (gone : Table → Table × Outcome) (t : Table)
      → ((t : Table) → IsGood q (gone t))
      → IsGood q (behind_conflict q gone t)
  behind_conflict-IsGood gone t g = elim (Option-cases (latest_active (key_of q) t.rows)) [
    | inl absent ↦ unfold behind_conflict in rw (absent, behind_conflict) (g t)
    | inr (i, e) ↦
        unfold behind_conflict in
        rw (e, behind_conflict)
          (reuse_for-IsGood q.trigger_source i t (latest_active-task (key_of q) t.rows e))
  ]

  insert-settle-IsGood :
      (gone : Table → Table × Outcome) (between : Table → Table) (t : Table)
      → ((t : Table) → IsGood q (gone t))
      → IsGood q (
          settle
            (insert_row (pending_row q) t).1
            (λ s. behind_conflict q gone (between s))
            (insert_row (pending_row q) t).0)
  insert-settle-IsGood gone between t g = elim (Option-cases (insert_row (pending_row q) t).1) [
    | inl e ↦
        unfold settle in
        rw (e, settle) (behind_conflict-IsGood gone (between (insert_row (pending_row q) t).0) g)
    | inr (i, e) ↦ unfold settle in rw (e, settle) (insert-task q t e)
  ]

  attempt-IsGood :
      (others : ℕ → Table → Table) (retries : ℕ) (t : Table) → IsGood q (attempt others q retries t)
  unfolding attempt
  attempt-IsGood others zero t =
      insert-settle-IsGood (λ seen. (seen, raised runtime_error)) (others zero) t (λ t. tt)
  attempt-IsGood others (suc retries) t =
      insert-settle-IsGood (λ seen. attempt others q retries seen) (others (suc retries)) t
        (λ s. attempt-IsGood others retries s)

  enqueue_from-IsGood :
      (s : TriggerSource) (others : ℕ → Table → Table) (t : Table)
      → IsGood q (enqueue_from s others q t)
  unfolding enqueue_from
  enqueue_from-IsGood TriggerSource.other others t = tt
  enqueue_from-IsGood TriggerSource.scheduler others t = attempt-IsGood others 2 t
  enqueue_from-IsGood TriggerSource.manual others t = attempt-IsGood others 2 t

  enqueue_task-IsGood :
      (others : ℕ → Table → Table) (t : Table) → IsGood q (enqueue_task others q t)
  unfolding enqueue_task
  enqueue_task-IsGood others t = enqueue_from-IsGood q.trigger_source others t

  -- Whatever other sessions do between the attempts: if `enqueue_task` returns a task, new or reused,
  -- then the table that it leaves has a row with that id that is active and has the key asked for.
  pub enqueue_task-active :
      (others : ℕ → Table → Table) (t : Table) {i : ℕ} {reused : Bool}
      → (enqueue_task others q t).1 ≡ returned i reused
      → any (λ r. r.id == i && has_active_key (key_of q) r) (enqueue_task others q t).0.rows ≡ true
  enqueue_task-active others t {i} {reused} h = rw h at (enqueue_task-IsGood others t)

abbrev pub is_other : TriggerSource → Bool
is_other TriggerSource.other = true
is_other _ = false

abbrev pub is_returned : Outcome → Bool
is_returned (returned i reused) = true
is_returned (raised e) = false

module _ (q : Request) where
  reuse_for-returns :
      (s : TriggerSource) (i : ℕ) (t : Table) → is_returned (reuse_for s q i t).1 ≡ true
  unfolding reuse_for
  reuse_for-returns TriggerSource.scheduler i t = refl
  reuse_for-returns _ i t = refl

  -- A conflict with a row that is still there is settled at once.
  behind_conflict-returns :
      (gone : Table → Table × Outcome) (t : Table)
      → any (has_active_key (key_of q)) t.rows ≡ true
      → is_returned (behind_conflict q gone t).1 ≡ true
  behind_conflict-returns gone t h = elim (Option-cases (latest_active (key_of q) t.rows)) [
    | inl absent ↦ ground (arith, latest_active-none (key_of q) t.rows absent, h)
    | inr (i, e) ↦
        unfold behind_conflict in rw (e, behind_conflict) (reuse_for-returns q.trigger_source i t)
  ]

  refused-returns :
      (gone : Table → Table × Outcome) (t : Table)
      → (insert_row (pending_row q) t).1 ≡ none
      → is_returned (behind_conflict q gone (insert_row (pending_row q) t).0).1 ≡ true
  refused-returns gone t e =
      behind_conflict-returns gone _ (rw (insert-refused q t e).1 (insert-refused q t e).0)

  attempt-returns :
      (retries : ℕ) (t : Table) → is_returned (attempt (λ n s. s) q retries t).1 ≡ true
  unfolding attempt settle
  attempt-returns zero t = elim (Option-cases (insert_row (pending_row q) t).1) [
    | inl e ↦ rw e (refused-returns (λ seen. (seen, raised runtime_error)) t e)
    | inr (i, e) ↦ rw e refl
  ]
  attempt-returns (suc retries) t = elim (Option-cases (insert_row (pending_row q) t).1) [
    | inl e ↦ rw e (refused-returns (λ seen. attempt (λ n s. s) q retries seen) t e)
    | inr (i, e) ↦ rw e refl
  ]

  enqueue_from-returns :
      (s : TriggerSource) (t : Table)
      → is_returned (enqueue_from s (λ n s. s) q t).1 ≡ not (is_other s)
  unfolding enqueue_from
  enqueue_from-returns TriggerSource.other t = refl
  enqueue_from-returns TriggerSource.scheduler t = attempt-returns 2 t
  enqueue_from-returns TriggerSource.manual t = attempt-returns 2 t

  -- Where no other session moves in between, `enqueue_task` returns for every trigger source that it
  -- knows, and raises for every other.
  pub enqueue_task-returns :
      (t : Table) → is_returned (enqueue_task (λ n s. s) q t).1 ≡ not (is_other q.trigger_source)
  enqueue_task-returns t = unfold enqueue_task in enqueue_from-returns q.trigger_source t
