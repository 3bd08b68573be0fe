-- ===== src/Tasks/Table/Invariant.antt =====
-- What every statement that the queue runs keeps of the table.
use restock_system.Tasks.Table.{
  TaskRun, Table, is_pending, count_if, update_rows, update_where, insert_row, has_active_key,
  is_active, is_running,
}
use restock_system.Common.{
  List, ℕ, Text, Bool, ◌++◌, All, ◌≡◌, ◌∷◌, true, any, [], ◌<◌, ◌≤◌, arith, Bool-cases, ◌+◌, false,
  ap, IsDistinct, elem-append, ◌&&◌, refl, nat_eq, inl, ◌≢◌, All-map_to, inr, none, text_eq,
  All-snoc,
}

-- A pending task was never claimed, no task is claimed twice, and a running one has a worker and a
-- lease.
pub record IsRow (r : TaskRun) : Type 0 where
  pub unclaimed : is_pending r.status ≡ true → r.attempt_count ≡ 0
  pub claimed_once : r.attempt_count ≤ 1
  pub owned : is_running r.status ≡ true → (r.worker_id ≢ none) × (r.lease_expires_at ≢ none)

abbrev pub ids : List TaskRun → List ℕ
ids [] = []
ids (r ∷ rows) = r.id ∷ ids rows

pub record IsValid (t : Table) : Type 0 where
  pub unique : (key : Text) → count_if (has_active_key key) t.rows ≤ 1
  pub distinct : IsDistinct (ids t.rows)
  pub fresh : All (λ i. i < t.next_id) (ids t.rows)
  pub rows_valid : All IsRow t.rows

-- An update that keeps the identity of a row, does not make it active, and leaves it valid.
pub record IsUpdate (p : TaskRun → Bool) (g : TaskRun → TaskRun) (r : TaskRun) : Type 0 where
  pub same_id : (g r).id ≡ r.id
  pub same_key : (g r).dedupe_key ≡ r.dedupe_key
  pub not_activated : p r ≡ true → is_active (g r).status ≡ true → is_active r.status ≡ true
  pub valid : p r ≡ true → IsRow r → IsRow (g r)

module _ (p : TaskRun → Bool) (g : TaskRun → TaskRun) where
  count-update_rows :
      (key : Text) (rows : List TaskRun)
      → All (IsUpdate p g) rows
      → count_if (has_active_key key) (update_rows p g rows) ≤ count_if (has_active_key key) rows
  count-update_rows key [] u = omega arith
  count-update_rows key (r ∷ rows) u =
      ground (arith, count-update_rows key rows u.1, u.0.not_activated, u.0.same_key)

  ids-update_rows :
      (rows : List TaskRun) → All (IsUpdate p g) rows → ids (update_rows p g rows) ≡ ids rows
  ids-update_rows [] u = refl
  ids-update_rows (r ∷ rows) u = ground (arith, ids-update_rows rows u.1, u.0.same_id)

  rows_valid-update_rows :
      (rows : List TaskRun)
      → All (IsUpdate p g) rows
      → All IsRow rows
      → All IsRow (update_rows p g rows)
  rows_valid-update_rows [] u h = tt
  rows_valid-update_rows (r ∷ rows) u h = elim (Bool-cases (p r)) [
    | inl e ↦ rw e (u.0.valid e h.0, rows_valid-update_rows rows u.1 h.1)
    | inr e ↦ rw e (h.0, rows_valid-update_rows rows u.1 h.1)
  ]

  pub update_where-IsValid :
      (t : Table) → All (IsUpdate p g) t.rows → IsValid t → IsValid (update_where p g t).0
  unfolding update_where
  update_where-IsValid t u v = record {
    unique = λ key. omega (arith, count-update_rows key t.rows u, v.unique key);
    distinct = rw (ids-update_rows t.rows u) v.distinct;
    fresh = rw (ids-update_rows t.rows u) v.fresh;
    rows_valid = rows_valid-update_rows t.rows u v.rows_valid;
  }

count-append :
    (p : TaskRun → Bool) (rows more : List TaskRun)
    → count_if p (rows ++ more) ≡ count_if p rows + count_if p more
count-append p [] more = omega arith
count-append p (r ∷ rows) more = omega (arith, count-append p rows more)

count-zero : (p : TaskRun → Bool) (rows : List TaskRun) → any p rows ≡ false → count_if p rows ≡ 0
count-zero p [] h = refl
count-zero p (r ∷ rows) h = ground (arith, count-zero p rows)

ids-append : (rows : List TaskRun) (r : TaskRun) → ids (rows ++ r ∷ []) ≡ ids rows ++ r.id ∷ []
ids-append [] r = refl
ids-append (x ∷ rows) r = ap (◌∷◌ x.id) (ids-append rows r)

snoc_fresh-IsDistinct :
    (is : List ℕ) (n : ℕ) → All (λ i. i < n) is → IsDistinct is → IsDistinct (is ++ n ∷ [])
snoc_fresh-IsDistinct [] n f d = (refl, tt)
snoc_fresh-IsDistinct (i ∷ is) n f d =
    (ground (arith, elem-append i is (n ∷ []), f.0), snoc_fresh-IsDistinct is n f.1 d.1)

fresh-snoc : (is : List ℕ) (n : ℕ) → All (λ i. i < n) is → All (λ i. i < n + 1) (is ++ n ∷ [])
fresh-snoc [] n f = (omega arith, tt)
fresh-snoc (i ∷ is) n f = (omega (arith, f.0), fresh-snoc is n f.1)

module _ (row : ℕ → TaskRun) (same_id : (i : ℕ) → (row i).id ≡ i)
    (ok : (i : ℕ) → IsRow (row i)) where
  -- An insert keeps the table valid, whether the index lets it through or not.
  pub insert_row-IsValid : (t : Table) → IsValid t → IsValid (insert_row row t).0
  unfolding insert_row
  insert_row-IsValid t v =
      elim (Bool-cases (
        is_active (row t.next_id).status
        && any (has_active_key (row t.next_id).dedupe_key) t.rows)) [
          | inl refused ↦ rw refused (record {
            unique = v.unique;
            distinct = v.distinct;
            fresh =
                All-map_to (λ i. i < t.next_id) (λ i. i < t.next_id + 1) (ids t.rows)
                  (λ i h. omega arith) v.fresh;
            rows_valid = v.rows_valid;
          })
          | inr done ↦ rw done (record {
            unique = λ key. ground (
              arith,
              count-append (has_active_key key) t.rows (row t.next_id ∷ []),
              count-zero (has_active_key key) t.rows,
              v.unique key,
              text_eq.same_iff (row t.next_id).dedupe_key key,
            );
            distinct =
                rw (ids-append, same_id)
                  (snoc_fresh-IsDistinct (ids t.rows) t.next_id v.fresh v.distinct);
            fresh = rw (ids-append, same_id) (fresh-snoc (ids t.rows) t.next_id v.fresh);
            rows_valid = All-snoc IsRow t.rows (row t.next_id) v.rows_valid (ok t.next_id);
          })
        ]
