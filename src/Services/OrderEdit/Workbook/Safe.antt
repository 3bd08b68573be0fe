-- ===== src/Services/OrderEdit/Workbook/Safe.antt =====
-- What a parsed workbook updates (`_parse_match_workbook`).
use restock_system.Common.Strings.{Unicode}
use restock_system.Common.{
  List, Text, ℕ, Dict, IsDistinct, elem, is_nil, Bool-cases, Option, keys, ◌≡◌, ◌∷◌, inl, All, true,
  suc, false, inr, some, all, [], if-cases, none, text_eq, put-IsDistinct, drop, length, not,
  All-keys-put, get, refl, subst, put,
}
use restock_system.Services.OrderEdit.{EditableField}
use restock_system.Services.OrderEdit.Workbook.{
  RowState, match_row, match_rows, ParsedWorkbook, workbook_of, parse_match_workbook, match_new,
  match_order, match_sheet, value_at, keep_row, values_to, is_expected_header, header_of,
  normalized_row,
}
use restock_system.Services.OrderEdit.Normalize.{Normalized, RawValue, string_cell}
use restock_system.Services.Errors.{answered, answered_inj}

module _ (u : Unicode) (fields : List EditableField) (eu_countries all_order_ids : List Text) where
  -- The updates so far are of orders that exist, each once.
  abbrev AreOfOrders : RowState → Type 0
  AreOfOrders s =
      IsDistinct (keys s.updates_by_order)
      × All (λ (id : Text). elem id all_order_ids ≡ true) (keys s.updates_by_order)

  keep_row-AreOfOrders :
      (id : Text) (n : Normalized) (s : RowState)
      → elem id all_order_ids ≡ true
      → AreOfOrders s
      → AreOfOrders (keep_row id n s)
  keep_row-AreOfOrders id n s exists_ h = elim (Bool-cases (is_nil n.errors)) [
    | inl q ↦ rw q (
      put-IsDistinct id n.values s.updates_by_order h.0,
      All-keys-put (λ (id : Text). elem id all_order_ids ≡ true) id n.values s.updates_by_order
          exists_ h.1,
    )
    | inr q ↦ rw q h
  ]

  match_new-AreOfOrders :
      (row_number : ℕ) (id : Text) (values : List RawValue) (s : RowState)
      → AreOfOrders s
      → AreOfOrders (match_new u fields eu_countries all_order_ids row_number id values s)
  match_new-AreOfOrders row_number id values s h = elim (Bool-cases (elem id all_order_ids)) [
    | inl q ↦
        let noted : RowState = record s { seen_orders = put id row_number s.seen_orders } in
        rw q (
          keep_row-AreOfOrders id
            (normalized_row u fields eu_countries all_order_ids row_number values
              noted.country_options)
            noted q h)
    | inr q ↦ rw q h
  ]

  match_order-AreOfOrders :
      (row_number : ℕ) (id : Text) (values : List RawValue) (seen : Option ℕ) (s : RowState)
      → AreOfOrders s
      → AreOfOrders (match_order u fields eu_countries all_order_ids row_number id values seen s)
  match_order-AreOfOrders row_number id values (some previous_row) s h = h
  match_order-AreOfOrders row_number id values none s h =
      match_new-AreOfOrders row_number id values s h

  match_row-AreOfOrders :
      (row_number : ℕ) (row_values : List RawValue) (s : RowState)
      → AreOfOrders s
      → AreOfOrders (match_row u fields eu_countries all_order_ids row_number row_values s)
  unfolding match_row
  match_row-AreOfOrders row_number row_values s h =
      let id = string_cell u (value_at 0 row_values) in
      elim (Bool-cases (all (λ (value : RawValue). is_nil (string_cell u value)) row_values)) [
        | inl q ↦ rw q h
        | inr q ↦ rw q (elim (Bool-cases (is_nil id)) [
          | inl r ↦ rw r h
          | inr r ↦
              rw r (
                match_order-AreOfOrders row_number id (drop 1 row_values) (get id s.seen_orders) s
                  h)
        ])
      ]

  match_rows-AreOfOrders :
      (row_number : ℕ) (rows : List (List RawValue)) (s : RowState)
      → AreOfOrders s
      → AreOfOrders (match_rows u fields eu_countries all_order_ids row_number rows s)
  unfolding match_rows
  match_rows-AreOfOrders row_number [] s h = h
  match_rows-AreOfOrders row_number (row ∷ rows) s h =
      match_rows-AreOfOrders (suc row_number) rows _
        (match_row-AreOfOrders row_number (values_to (suc (length fields)) row) s h)

  -- With an error nothing is updated; what is updated are orders that exist, each once, and their
  -- number is reported.
  abbrev pub IsSafe : ParsedWorkbook → Type 0
  IsSafe parsed =
      (is_nil parsed.errors ≡ false
        → (parsed.updates_by_order ≡ []) × (parsed.country_overrides ≡ []))
      × IsDistinct (keys parsed.updates_by_order)
      × All (λ (id : Text). elem id all_order_ids ≡ true) (keys parsed.updates_by_order)
      × (parsed.matched_order_count ≡ length parsed.updates_by_order)

  workbook_of-IsSafe :
      (s : RowState) → AreOfOrders s → IsSafe (workbook_of u fields eu_countries all_order_ids s)
  unfolding workbook_of
  workbook_of-IsSafe s h = elim (Bool-cases (is_nil s.errors)) [
    | inl q ↦ rw q (λ failed. cc, h.0, h.1, refl)
    | inr q ↦ rw q (λ failed. (refl, refl), tt, tt, refl)
  ]

  match_sheet-IsSafe :
      (country_options : Dict Text Text) (sheet : Option (List (List RawValue)))
      {parsed : ParsedWorkbook}
      → match_sheet u fields eu_countries all_order_ids country_options sheet ≡ answered parsed
      → IsSafe parsed
  match_sheet-IsSafe country_options none h = cc
  match_sheet-IsSafe country_options (some sheet) h =
      elim (if-cases
        (not (
          is_expected_header u fields eu_countries all_order_ids
            (header_of u fields eu_countries all_order_ids sheet)))
        _ _ h) [
          | inl (q, refusal) ↦ cc
          | inr (q, answer) ↦
              subst IsSafe (answered_inj answer)
                (workbook_of-IsSafe _ (match_rows-AreOfOrders 2 (drop 1 sheet) _ (tt, tt)))
        ]

  -- A workbook that is answered updates nothing where it has an error. What it updates are orders that
  -- exist, each once, and `matched_order_count` is their number.
  pub parse_match_workbook-IsSafe :
      (load_workbook : List ℕ → Option (List (List RawValue))) (country_options : Dict Text Text)
      (content : List ℕ) {parsed : ParsedWorkbook}
      → parse_match_workbook u fields eu_countries all_order_ids load_workbook country_options
          content
        ≡ answered parsed
      → IsSafe parsed
  unfolding parse_match_workbook
  parse_match_workbook-IsSafe load_workbook country_options content h =
      elim (if-cases (is_nil content) _ _ h) [
        | inl (q, refusal) ↦ cc
        | inr (q, answer) ↦ match_sheet-IsSafe country_options (load_workbook content) answer
      ]
