-- ===== src/Services/OrderEdit/Workbook.antt =====
-- The rows of a workbook with new values of orders (`_parse_match_workbook` in
-- backend/app/services/order_edit.py). What openpyxl reads of the file, the countries known and mapped to
-- EU, and the ids of the orders there are, are arguments.
use restock_system.Common.{
  Dict, Text, ℕ, List, Option, codes, for_each, [], put, ◌++◌, if◌then◌else◌, Bool, ◌∷◌, some,
  is_nil, not, all, suc, map, text_eq, elem, drop, length, zero, none, get, ◌==◌, true, ◌&&◌,
  list_beq,
}
use restock_system.Common.Strings.{Unicode}
use restock_system.Services.OrderEdit.Normalize.{
  RawValue, MatchError, Normalized, no_value, string_cell, normalize_update_values,
}
use restock_system.Services.OrderEdit.{EditableField}
use restock_system.Services.Errors.{Reply, refused, validation_failed, answered}
use restock_system.Tasks.Queue.{decimal}
pub mod Safe

pub record ParsedWorkbook : Type 0 where
  pub updates_by_order : Dict Text (Dict Text (Option Text))
  pub country_overrides : Dict Text Text
  pub matched_order_count : ℕ
  pub update_fields : List Text
  pub errors : List MatchError

abbrev pub order_number_header : Text
order_number_header = codes "订单号"

abbrev pub value_at : ℕ → List RawValue → RawValue
value_at n [] = no_value
value_at zero (value ∷ row) = value
value_at (suc n) (value ∷ row) = value_at n row

-- The first values of a row, filled up with None
abbrev pub values_to : ℕ → List RawValue → List RawValue
values_to zero row = []
values_to (suc n) [] = no_value ∷ values_to n []
values_to (suc n) (value ∷ row) = value ∷ values_to n row

-- `d.update(other)`
abbrev pub update_with : Dict Text Text → Dict Text Text → Dict Text Text
update_with other d = for_each (λ (entry : Text × Text). put entry.0 entry.1) other d

-- The variables of the loop over the rows
pub record RowState : Type 0 where
  pub errors : List MatchError
  pub seen_orders : Dict Text ℕ
  pub updates_by_order : Dict Text (Dict Text (Option Text))
  pub country_overrides : Dict Text Text
  pub country_options : Dict Text Text

abbrev pub add_row_error : ℕ → Text → RowState → RowState
add_row_error row_number message s =
    let error : MatchError = record {
      row = row_number;
      field = order_number_header;
      message = message;
    } in
    record s { errors = s.errors ++ error ∷ [] }

-- `{field.model_field: row_values[index + 1] for index, field in enumerate(fields)}`; it is only looked up
abbrev pub raw_updates_of : List EditableField → List RawValue → Dict Text RawValue
raw_updates_of [] values = []
raw_updates_of (field ∷ fields) [] = put field.model_field no_value (raw_updates_of fields [])
raw_updates_of (field ∷ fields) (value ∷ values) =
    put field.model_field value (raw_updates_of fields values)

-- The values of a row are taken where none has an error.
abbrev pub keep_row : Text → Normalized → RowState → RowState
keep_row amazon_order_id n s =
    let extended : RowState = record s {
      errors = s.errors ++ n.errors;
      country_options = n.country_options;
    } in
    if is_nil n.errors
    then record extended {
      updates_by_order = put amazon_order_id n.values s.updates_by_order;
      country_overrides = update_with n.country_overrides s.country_overrides;
    }
    else extended

module _ (u : Unicode) (fields : List EditableField) (eu_countries all_order_ids : List Text) where
  abbrev pub normalized_row : ℕ → List RawValue → Dict Text Text → Normalized
  normalized_row row_number values country_options =
      normalize_update_values u (raw_updates_of fields values) fields row_number country_options
        true true eu_countries

  -- A row whose order was not seen in an earlier one
  abbrev pub match_new : ℕ → Text → List RawValue → RowState → RowState
  match_new row_number amazon_order_id values s =
      let noted : RowState = record s {
        seen_orders = put amazon_order_id row_number s.seen_orders;
      } in
      if not (elem amazon_order_id all_order_ids)
      then add_row_error row_number (codes "订单号不存在") noted
      else keep_row amazon_order_id (normalized_row row_number values noted.country_options) noted

  abbrev pub match_order : ℕ → Text → List RawValue → Option ℕ → RowState → RowState
  match_order row_number amazon_order_id values (some previous_row) s =
      add_row_error row_number (codes "订单号与第 " ++ decimal previous_row ++ codes " 行重复") s
  match_order row_number amazon_order_id values none s =
      match_new row_number amazon_order_id values s

  -- The values of a row: that of the order id, and those of the fields
  unfoldable pub match_row : ℕ → List RawValue → RowState → RowState
  match_row row_number row_values s =
      let amazon_order_id = string_cell u (value_at 0 row_values) in
      if all (λ (value : RawValue). is_nil (string_cell u value)) row_values
      then s
      else if is_nil amazon_order_id
      then add_row_error row_number (codes "订单号不能为空") s
      else match_order row_number amazon_order_id (drop 1 row_values)
          (get amazon_order_id s.seen_orders) s

  unfoldable pub match_rows : ℕ → List (List RawValue) → RowState → RowState
  match_rows row_number [] s = s
  match_rows row_number (row ∷ rows) s =
      match_rows (suc row_number) rows
        (match_row row_number (values_to (suc (length fields)) row) s)

  abbrev pub no_rows : Dict Text Text → RowState
  no_rows country_options = record {
    errors = [];
    seen_orders = [];
    updates_by_order = [];
    country_overrides = [];
    country_options = country_options;
  }

  -- One error, and nothing is to be updated.
  unfoldable pub workbook_of : RowState → ParsedWorkbook
  workbook_of s = record {
    updates_by_order = if is_nil s.errors then s.updates_by_order else [];
    country_overrides = if is_nil s.errors then s.country_overrides else [];
    matched_order_count = if is_nil s.errors then length s.updates_by_order else 0;
    update_fields = map (λ (field : EditableField). field.label) fields;
    errors = s.errors;
  }

  -- The header is the order number and the labels, and nothing follows.
  abbrev pub is_expected_header : List RawValue → Bool
  is_expected_header header_row =
      let expected_headers =
        order_number_header ∷ map (λ (field : EditableField). field.label) fields in
      let n = suc (length fields) in
      list_beq (map (string_cell u) (values_to n header_row)) expected_headers
      && all (λ (value : RawValue). is_nil (string_cell u value)) (drop n header_row)

  abbrev pub header_of : List (List RawValue) → List RawValue
  header_of [] = []
  header_of (header_row ∷ rows) = header_row

  abbrev pub match_sheet : Dict Text Text → Option (List (List RawValue)) → Reply ParsedWorkbook
  match_sheet country_options none = refused validation_failed
  match_sheet country_options (some sheet) =
      if not (is_expected_header (header_of sheet))
      then refused validation_failed
      else answered (workbook_of (match_rows 2 (drop 1 sheet) (no_rows country_options)))

  unfoldable pub parse_match_workbook :
      (List ℕ → Option (List (List RawValue))) → Dict Text Text → List ℕ → Reply ParsedWorkbook
  parse_match_workbook load_workbook country_options content =
      if is_nil content
      then refused validation_failed
      else match_sheet country_options (load_workbook content)
