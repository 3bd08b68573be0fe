-- ===== src/Tasks/Worker/Keeps.antt =====
-- Every statement of the worker and of the reaper keeps the table valid.
use restock_system.Tasks.Worker.{
  next_pending, claim_one, heartbeat, set_progress, mark_success, mark_failed, reap_once, Progress,
  write_progress, holds, is_expired, has_values, claim_row,
}
use restock_system.Common.{
  ℕ, Text, Bool, List, ◌==◌, ◌≡◌, IsDistinct, some, true, Option-cases, Bool-cases, any, ◌+◌, false,
  take, codes, refl, inl, ◌&&◌, All-of, arith, inr, All, All-map_to, nat_eq, ◌∷◌, [], elem,
  nat_beq_iff,
}
use restock_system.Tasks.Table.{
  TaskRun, Table, is_active, Status, update_where, is_pending, is_running,
}
use restock_system.Tasks.Table.Invariant.{IsValid, IsUpdate, ids, update_where-IsValid}

-- The row that the claim selects is pending, and so is any row with its id.
pub next_pending-found :
    (locked : ℕ → Bool) (rows : List TaskRun) {c : TaskRun}
    → next_pending locked rows ≡ some c
    → any (λ r. r.id == c.id && is_pending r.status) rows ≡ true
unfolding next_pending
next_pending-found locked [] h = cc
next_pending-found locked (r ∷ rows) {c} h = elim (Option-cases (next_pending locked rows)) [
  | inl absent ↦ ground (arith, absent, h)
  | inr (best, e) ↦ ground (arith, e, h, next_pending-found locked rows e)
]

elem-ids :
    (i : ℕ) (rows : List TaskRun)
    → any (λ r. r.id == i && is_pending r.status) rows ≡ true
    → elem i (ids rows) ≡ true
elem-ids i [] h = cc
elem-ids i (r ∷ rows) h = ground (arith, elem-ids i rows)

no_id :
    (i : ℕ) (rows : List TaskRun)
    → elem i (ids rows) ≡ false
    → All (λ r. (r.id == i) ≡ true → is_pending r.status ≡ true) rows
no_id i [] h = tt
no_id i (r ∷ rows) h = (λ e. ground arith, no_id i rows (ground arith))

pub pending_of_id :
    (i : ℕ) (rows : List TaskRun)
    → IsDistinct (ids rows)
    → any (λ r. r.id == i && is_pending r.status) rows ≡ true
    → All (λ r. (r.id == i) ≡ true → is_pending r.status ≡ true) rows
pending_of_id i [] d h = tt
pending_of_id i (r ∷ rows) d h = elim (Bool-cases (r.id == i)) [
  | inl same ↦
      let same_id : r.id ≡ i = (nat_beq_iff r.id i).0 same in
      let absent : elem i (ids rows) ≡ false = rw same_id at d.0 in
      (λ _. ground (arith, elem-ids i rows), no_id i rows absent)
  | inr differ ↦ (λ e. cc, pending_of_id i rows d.1 (ground arith))
]

claim_row-IsUpdate :
    (worker : Text) (lease_seconds now i : ℕ) (r : TaskRun)
    → ((r.id == i) ≡ true → is_pending r.status ≡ true)
    → IsUpdate (λ r. r.id == i) (claim_row worker lease_seconds now) r
claim_row-IsUpdate worker lease_seconds now i r pending = record {
  same_id = refl;
  same_key = refl;
  not_activated = λ p h. ground (arith, pending p);
  valid = λ p v. record {
    unclaimed = λ h. cc;
    claimed_once = omega (arith, v.unclaimed (pending p));
    owned = λ h. (λ e. cc, λ e. cc);
  };
}

-- A claim keeps the table valid, whichever rows other sessions hold.
pub claim_one-IsValid :
    (locked : ℕ → Bool) (worker : Text) (lease_seconds now : ℕ) (t : Table)
    → IsValid t
    → IsValid (claim_one locked worker lease_seconds now t).0
unfolding claim_one
claim_one-IsValid locked worker lease_seconds now t v =
    elim (Option-cases (next_pending locked t.rows)) [
      | inl absent ↦ rw (absent, claim_one) v
      | inr (c, e) ↦
          rw (e, claim_one)
            (update_where-IsValid (λ r. r.id == c.id) (claim_row worker lease_seconds now) t
              (All-map_to (λ r. (r.id == c.id) ≡ true → is_pending r.status ≡ true)
                (IsUpdate (λ r. r.id == c.id) (claim_row worker lease_seconds now)) t.rows
                (claim_row-IsUpdate worker lease_seconds now c.id)
                (pending_of_id c.id t.rows v.distinct (next_pending-found locked t.rows e)))
              v)
    ]

pub heartbeat-IsValid :
    (worker : Text) (lease_seconds now task_id : ℕ) (t : Table)
    → IsValid t
    → IsValid (heartbeat worker lease_seconds now task_id t).0
unfolding heartbeat
heartbeat-IsValid worker lease_seconds now task_id t v =
    let beat = λ (r : TaskRun). record r {
      heartbeat_at = some now;
      lease_expires_at = some (now + lease_seconds);
    } in
    update_where-IsValid (holds worker task_id) beat t
      (All-of (IsUpdate (holds worker task_id) beat) t.rows (λ r. record {
        same_id = refl;
        same_key = refl;
        not_activated = λ p h. h;
        valid = λ p v. record {
          unclaimed = v.unclaimed;
          claimed_once = v.claimed_once;
          owned = λ h. ((v.owned h).0, λ e. cc);
        };
      }))
      v

write_progress-IsUpdate :
    (p : TaskRun → Bool) (v : Progress) (r : TaskRun) → IsUpdate p (write_progress v) r
write_progress-IsUpdate p v r = record {
  same_id = refl;
  same_key = refl;
  not_activated = λ q h. h;
  valid =
      λ q ok. record { unclaimed = ok.unclaimed; claimed_once = ok.claimed_once; owned = ok.owned };
}

pub set_progress-IsValid :
    (worker : Text) (task_id : ℕ) (v : Progress) (t : Table) (lease_lost : Bool)
    → IsValid t
    → IsValid (set_progress worker task_id v t lease_lost).0
unfolding set_progress
set_progress-IsValid worker task_id v t true ok = ok
set_progress-IsValid worker task_id v t false ok = elim (Bool-cases (has_values v)) [
  | inl e ↦ rw e (
      update_where-IsValid (holds worker task_id) (write_progress v) t
        (All-of (IsUpdate (holds worker task_id) (write_progress v)) t.rows
          (write_progress-IsUpdate (holds worker task_id) v))
        ok)
  | inr e ↦ rw e ok
]

-- An update that ends the rows that it selects, all of which run.
module _ (p : TaskRun → Bool) (g : TaskRun → TaskRun) where
  pub record Ends (r : TaskRun) : Type 0 where
    pub same_id : (g r).id ≡ r.id
    pub same_key : (g r).dedupe_key ≡ r.dedupe_key
    pub same_attempts : (g r).attempt_count ≡ r.attempt_count
    pub ended : is_active (g r).status ≡ false

  Ends-IsUpdate : (r : TaskRun) → Ends r → IsUpdate p g r
  Ends-IsUpdate r e = record {
    same_id = e.same_id;
    same_key = e.same_key;
    not_activated = λ q h. ground (arith, e.ended);
    valid = λ q ok. record {
      unclaimed = λ h. absurd (no_pending (g r).status e.ended h);
      claimed_once = omega (arith, e.same_attempts, ok.claimed_once);
      owned = λ h. absurd (no_running (g r).status e.ended h);
    };
  }
    where
      no_pending : (s : Status) → is_active s ≡ false → is_pending s ≡ true → ⊥
      no_pending s a b = ground arith

      no_running : (s : Status) → is_active s ≡ false → is_running s ≡ true → ⊥
      no_running s a b = ground arith

  pub Ends-IsValid :
      (t : Table) → ((r : TaskRun) → Ends r) → IsValid t → IsValid (update_where p g t).0
  Ends-IsValid t e v =
      update_where-IsValid p g t (All-of (IsUpdate p g) t.rows (λ r. Ends-IsUpdate r (e r))) v

pub mark_success-IsValid :
    (worker : Text) (now task_id : ℕ) (t : Table)
    → IsValid t
    → IsValid (mark_success worker now task_id t)
unfolding mark_success
mark_success-IsValid worker now task_id t =
    Ends-IsValid (holds worker task_id)
      (λ r. record r { status = Status.success; finished_at = some now }) t
      (λ r. record { same_id = refl; same_key = refl; same_attempts = refl; ended = refl })

pub mark_failed-IsValid :
    (worker : Text) (now task_id : ℕ) (error : Text) (t : Table)
    → IsValid t
    → IsValid (mark_failed worker now task_id error t)
unfolding mark_failed
mark_failed-IsValid worker now task_id error t =
    Ends-IsValid (holds worker task_id)
      (λ r. record r {
        status = Status.failed;
        error_msg = some (take 5000 error);
        finished_at = some now;
      })
      t (λ r. record { same_id = refl; same_key = refl; same_attempts = refl; ended = refl })

pub reap_once-IsValid : (now : ℕ) (t : Table) → IsValid t → IsValid (reap_once now t)
unfolding reap_once
reap_once-IsValid now t =
    Ends-IsValid (is_expired now)
      (λ r. record r {
        status = Status.failed;
        error_msg = some (codes "Lease expired, worker presumed dead");
        finished_at = some now;
      })
      t (λ r. record { same_id = refl; same_key = refl; same_attempts = refl; ended = refl })
