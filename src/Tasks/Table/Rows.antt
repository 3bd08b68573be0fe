-- ===== src/Tasks/Table/Rows.antt =====
-- The row with an id, behind an insert and behind an update.
use restock_system.Common.{
  ℕ, List, Bool, Option, ◌≡◌, All, none, some, false, ◌++◌, arith, ◌∷◌, if◌then◌else◌, if-cases, [],
  ◌==◌, nat_eq, inl, some_inj, ap, subst, ◌∙◌, sym, inr, nat_beq_iff, ◌<◌, keep_if, elem,
  IsDistinct, refl, ◌⊎◌, Bool-cases,
}
use restock_system.Tasks.Table.Invariant.{ids}
use restock_system.Tasks.Table.{TaskRun, insert_row, Table, update_rows}

-- The row with an id.
abbrev pub row_at : ℕ → List TaskRun → Option TaskRun
row_at i [] = none
row_at i (r ∷ rows) = if r.id == i then some r else row_at i rows

row_at-append :
    (i : ℕ) (rows more : List TaskRun) {r : TaskRun}
    → row_at i rows ≡ some r
    → row_at i (rows ++ more) ≡ some r
row_at-append i [] more h = cc
row_at-append i (x ∷ rows) more {r = r} h = ground (arith, row_at-append i rows more {r = r})

pub All-row_at {κ} :
    (P : TaskRun → Type κ) (i : ℕ) (rows : List TaskRun) {r : TaskRun}
    → All P rows
    → row_at i rows ≡ some r
    → P r × (r.id ≡ i)
All-row_at P i [] a h = cc
All-row_at P i (x ∷ rows) a h = elim (if-cases (x.id == i) (some x) (row_at i rows) h) [
  | inl (e, found) ↦
      let same = some_inj found in
      (subst P same a.0, ap (λ y. y.id) (sym same) ∙ (nat_beq_iff x.id i).0 e)
  | inr (e, later) ↦ All-row_at P i rows a.1 later
]

-- An update keeps ids, and does not touch a row that it does not select.
pub row_at-update_rows :
    (p : TaskRun → Bool) (g : TaskRun → TaskRun) (i : ℕ) (rows : List TaskRun) {r : TaskRun}
    → ((x : TaskRun) → (g x).id ≡ x.id)
    → p r ≡ false
    → row_at i rows ≡ some r
    → row_at i (update_rows p g rows) ≡ some r
row_at-update_rows p g i [] k f h = cc
row_at-update_rows p g i (x ∷ rows) {r} k f h =
    elim (if-cases (x.id == i) (some x) (row_at i rows) h) [
      | inl (e, found) ↦ let off : p x ≡ false = ap p (some_inj found) ∙ f in rw (off, e) found
      | inr (e, later) ↦ ground (arith, k x, row_at-update_rows p g i rows k f later)
    ]

pub insert_row-row_at :
    (row : ℕ → TaskRun) (i : ℕ) (t : Table) {r : TaskRun}
    → row_at i t.rows ≡ some r
    → row_at i (insert_row row t).0.rows ≡ some r
unfolding insert_row
insert_row-row_at row i t h = ground (arith, row_at-append i t.rows (row t.next_id ∷ []) h)

module _ (p : TaskRun → Bool) (g : TaskRun → TaskRun) (i : ℕ)
    (k : (x : TaskRun) → (g x).id ≡ x.id) where
  -- The row with an id, behind an update.
  pub row_at-update :
      (rows : List TaskRun) {r : TaskRun}
      → row_at i rows ≡ some r
      → row_at i (update_rows p g rows) ≡ some (if p r then g r else r)
  row_at-update [] h = cc
  row_at-update (x ∷ rows) {r} h = elim (if-cases (x.id == i) (some x) (row_at i rows) h) [
    | inl (e, found) ↦
        let same = some_inj found in
        subst (λ y. row_at i (update_rows p g (x ∷ rows)) ≡ some (if p y then g y else y)) same
          (ground (arith, k x, e))
    | inr (e, later) ↦ ground (arith, k x, row_at-update rows later)
  ]

  -- An update finds no row where there was none.
  pub row_at-absent :
      (rows : List TaskRun) → row_at i rows ≡ none → row_at i (update_rows p g rows) ≡ none
  row_at-absent [] h = refl
  row_at-absent (x ∷ rows) h = ground (arith, k x, row_at-absent rows, h)

pub row_at-snoc :
    (i : ℕ) (rows : List TaskRun) (r : TaskRun)
    → row_at i rows ≡ none
    → (r.id == i) ≡ false
    → row_at i (rows ++ r ∷ []) ≡ none
row_at-snoc i [] r h e = rw e refl
row_at-snoc i (x ∷ rows) r h e = ground (arith, row_at-snoc i rows r, h, e)

pub row_at-fresh :
    (i : ℕ) (rows : List TaskRun) (n : ℕ) {r : TaskRun}
    → All (λ j. j < n) (ids rows)
    → row_at i rows ≡ some r
    → i < n
row_at-fresh i [] n f h = cc
row_at-fresh i (x ∷ rows) n f h = elim (if-cases (x.id == i) (some x) (row_at i rows) h) [
  | inl (e, found) ↦ ground (arith, f.0, nat_beq_iff x.id i)
  | inr (e, later) ↦ row_at-fresh i rows n f.1 later
]

module _ (p : TaskRun → Bool) (i : ℕ) where
  pub row_at-keep_if-none :
      (rows : List TaskRun) → row_at i rows ≡ none → row_at i (keep_if p rows) ≡ none
  row_at-keep_if-none [] h = refl
  row_at-keep_if-none (x ∷ rows) h = ground (arith, row_at-keep_if-none rows, h)

  no_row : (rows : List TaskRun) → elem i (ids rows) ≡ false → row_at i rows ≡ none
  no_row [] h = refl
  no_row (x ∷ rows) h = ground (arith, no_row rows, h)

  -- Behind a deletion, the row with an id is what it was, or there is none.
  pub row_at-keep_if :
      (rows : List TaskRun) {r : TaskRun}
      → IsDistinct (ids rows)
      → row_at i rows ≡ some r
      → (row_at i (keep_if p rows) ≡ some r) ⊎ (row_at i (keep_if p rows) ≡ none)
  row_at-keep_if [] d h = cc
  row_at-keep_if (x ∷ rows) {r} d h = elim (Bool-cases (p x)) [
    | inl q ↦ elim (if-cases (x.id == i) (some x) (row_at i rows) h) [
      | inl (e, found) ↦ inl (rw (q, e) found)
      | inr (e, later) ↦ rw (q, e) (row_at-keep_if rows d.1 later)
    ]
    | inr q ↦ elim (if-cases (x.id == i) (some x) (row_at i rows) h) [
      | inl (e, found) ↦
          let same : x.id ≡ i = (nat_beq_iff x.id i).0 e in
          let absent : elem i (ids rows) ≡ false = rw same at d.0 in
          inr (rw q (row_at-keep_if-none rows (no_row rows absent)))
      | inr (e, later) ↦ rw q (row_at-keep_if rows d.1 later)
    ]
  ]
