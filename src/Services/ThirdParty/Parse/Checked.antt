-- ===== src/Services/ThirdParty/Parse/Checked.antt =====
-- The rows that the parser of a workbook returns (`parse_third_party_inventory_workbook`).
use restock_system.Common.{
  Option, Text, is_none, is_nil, List, ◌≡◌, ℕ, none, some, true, false, All, if◌then◌else◌,
  if-cases, ◌∷◌, Bool-cases, suc, [], inl, arith, any, refl, inr, some_inj, not, subst,
}
use restock_system.Services.ThirdParty.Parse.{
  ParsedRow, parse_quantity, row_errors, parse_row, parse_rows, Columns,
  parse_third_party_inventory_workbook, Cell, cell_text, parsed_with, parse_sheet, is_given,
  cell_at, or_none, find_columns, int_of,
}
use restock_system.Common.Strings.{Unicode}
use restock_system.Common.Int.{ℤ, pos, ◌≤ℤ◌, ltb_ℤ}
use restock_system.Services.Errors.{answered, answered_inj}

abbrev IsQuantity : Option ℤ → Type 0
IsQuantity quantity = (n : ℤ) × (quantity ≡ some n) × (pos 0 ≤ℤ n)

-- A row without an error has all its columns, and amounts that are not negative; one with an error has
-- no amounts.
abbrev pub IsChecked : ParsedRow → Type 0
IsChecked row =
    (is_none row.error_message ≡ true
      → (is_nil row.warehouse_name ≡ false)
        × (is_given row.commodity_sku ≡ true)
        × IsQuantity row.available
        × IsQuantity row.reserved)
    × (is_none row.error_message ≡ false → (row.available ≡ none) × (row.reserved ≡ none))

is_given-or_none : (t : Text) → is_nil t ≡ false → is_given (or_none t) ≡ true
is_given-or_none [] h = cc
is_given-or_none (c ∷ t) h = refl

bound_of :
    (read : Option ℤ) {n : ℤ}
    → (elim read [ none ↦ none | some parsed ↦ if ltb_ℤ parsed (pos 0) then none else some parsed ])
      ≡ some n
    → pos 0 ≤ℤ n
bound_of none h = cc
bound_of (some parsed) h = elim (if-cases (ltb_ℤ parsed (pos 0)) none (some parsed) h) [
  | inl (q, refusal) ↦ cc
  | inr (q, same) ↦ ground (arith, some_inj same, q)
]

module _ (u : Unicode) where
  parse_quantity-bound : (value : Cell) {n : ℤ} → parse_quantity u value ≡ some n → pos 0 ≤ℤ n
  unfolding parse_quantity
  parse_quantity-bound value h = elim (if-cases (is_nil (cell_text u value)) _ _ h) [
    | inl (q, zero_) ↦ ground (arith, some_inj zero_)
    | inr (q, read) ↦ bound_of (int_of u value) read
  ]

  row_errors-nil :
      (name sku : Text) (available reserved : Option ℤ)
      → is_nil (row_errors u name sku available reserved) ≡ true
      → (is_nil name ≡ false)
        × (is_nil sku ≡ false)
        × ((n : ℤ) × (available ≡ some n))
        × ((n : ℤ) × (reserved ≡ some n))
  unfolding row_errors
  row_errors-nil [] sku available reserved h = cc
  row_errors-nil (c ∷ name) [] available reserved h = cc
  row_errors-nil (c ∷ name) (d ∷ sku) none reserved h = cc
  row_errors-nil (c ∷ name) (d ∷ sku) (some n) none h = cc
  row_errors-nil (c ∷ name) (d ∷ sku) (some n) (some m) h = (refl, refl, (n, refl), (m, refl))

  parse_row-IsChecked :
      (columns : Columns) (row_no : ℕ) (row : List Cell)
      → IsChecked (parse_row u columns row_no row)
  unfolding parse_row
  parse_row-IsChecked columns row_no row =
      let name = cell_text u (cell_at columns.warehouse_name row) in
      let sku = cell_text u (cell_at columns.commodity_sku row) in
      let available = parse_quantity u (cell_at columns.available row) in
      let reserved = parse_quantity u (cell_at columns.reserved row) in
      elim (Bool-cases (is_nil (row_errors u name sku available reserved))) [
        | inl q ↦
            let (named, listed, (n, stock), (m, held)) =
              row_errors-nil name sku available reserved q in
            rw q (
              λ valid. (
                named,
                is_given-or_none sku listed,
                (n, stock, parse_quantity-bound (cell_at columns.available row) stock),
                (m, held, parse_quantity-bound (cell_at columns.reserved row) held),
              ),
              λ invalid. cc,
            )
        | inr q ↦ rw q (λ valid. cc, λ invalid. (refl, refl))
      ]

  parse_rows-IsChecked :
      (columns : Columns) (row_no : ℕ) (rows : List (List Cell))
      → All IsChecked (parse_rows u columns row_no rows)
  unfolding parse_rows
  parse_rows-IsChecked columns row_no [] = tt
  parse_rows-IsChecked columns row_no (row ∷ rows) =
      let rest = parse_rows-IsChecked columns (suc row_no) rows in
      elim (Bool-cases (any (λ (value : Cell). not (is_nil (cell_text u value))) row)) [
        | inl q ↦ rw q (parse_row-IsChecked columns row_no row, rest)
        | inr q ↦ rw q rest
      ]

  parsed_with-IsChecked :
      (columns : Option Columns) (rows : List (List Cell)) {parsed_rows : List ParsedRow}
      → parsed_with u columns rows ≡ answered parsed_rows
      → (is_nil parsed_rows ≡ false) × All IsChecked parsed_rows
  parsed_with-IsChecked none rows h = cc
  parsed_with-IsChecked (some columns) rows h =
      let parsed = parse_rows u columns 2 rows in
      elim (if-cases (is_nil parsed) _ _ h) [
        | inl (q, refusal) ↦ cc
        | inr (q, answer) ↦
            subst (λ (t : List ParsedRow). (is_nil t ≡ false) × All IsChecked t)
              (answered_inj answer) (q, parse_rows-IsChecked columns 2 rows)
      ]

  parse_sheet-IsChecked :
      (sheet : Option (List (List Cell))) {parsed_rows : List ParsedRow}
      → parse_sheet u sheet ≡ answered parsed_rows
      → (is_nil parsed_rows ≡ false) × All IsChecked parsed_rows
  parse_sheet-IsChecked none h = cc
  parse_sheet-IsChecked (some []) h = cc
  parse_sheet-IsChecked (some (header_row ∷ rows)) h =
      parsed_with-IsChecked (find_columns u header_row) rows h

  -- A workbook that is answered has at least one row. Each row without an error has a warehouse, a sku
  -- and two amounts, neither negative; each row with an error has no amounts.
  pub parse_third_party_inventory_workbook-IsChecked :
      (load_workbook : List ℕ → Option (List (List Cell))) (content : List ℕ)
      {parsed_rows : List ParsedRow}
      → parse_third_party_inventory_workbook u load_workbook content ≡ answered parsed_rows
      → (is_nil parsed_rows ≡ false) × All IsChecked parsed_rows
  unfolding parse_third_party_inventory_workbook
  parse_third_party_inventory_workbook-IsChecked load_workbook content h =
      elim (if-cases (is_nil content) _ _ h) [
        | inl (q, refusal) ↦ cc
        | inr (q, answer) ↦ parse_sheet-IsChecked (load_workbook content) answer
      ]
