-- ===== src/Services/ThirdParty/Parse.antt =====
-- The rows of an uploaded workbook (`parse_third_party_inventory_workbook` and its helpers, in
-- backend/app/services/third_party_inventory.py). What openpyxl reads of the file is a parameter.
pub mod Checked
use restock_system.Common.{
  Text, ℕ, Option, [], List, if◌then◌else◌, Dict, ◌>>=◌, ◌∷◌, is_nil, ◌++◌, none, suc, get, codes,
  some, put, any, zero, not, text_eq, Bool, false,
}
use restock_system.Common.Strings.{Unicode, strip, parse_int, join}
use restock_system.Common.Int.{ℤ, pos, ltb_ℤ}
use restock_system.Services.Errors.{Reply, refused, validation_failed, answered}

-- A value of a cell: none, a text, or a number, date or Boolean of which only `str(value)` and
-- `int(value)` are read; no `int` is its `TypeError` or `ValueError`.
pub data Cell : Type 0 where
  empty : Cell
  text_cell : Text → Cell
  other_cell : Text → Option ℤ → Cell

abbrev pub str_of : Cell → Text
str_of empty = []
str_of (text_cell t) = t
str_of (other_cell t n) = t

pub record ParsedRow : Type 0 where
  pub source_row_no : ℕ
  pub warehouse_name : Text
  pub commodity_sku : Option Text
  pub available : Option ℤ
  pub reserved : Option ℤ
  pub error_message : Option Text

-- The places of the required headers
pub record Columns : Type 0 where
  pub warehouse_name : ℕ
  pub commodity_sku : ℕ
  pub available : ℕ
  pub reserved : ℕ

-- `value or None` on a text
abbrev pub or_none : Text → Option Text
or_none t = if is_nil t then none else some t

-- `text` is truthy.
abbrev pub is_given : Option Text → Bool
is_given none = false
is_given (some t) = not (is_nil t)

-- `row[idx] if idx < len(row) else None`
abbrev pub cell_at : ℕ → List Cell → Cell
cell_at n [] = empty
cell_at zero (cell ∷ row) = cell
cell_at (suc n) (cell ∷ row) = cell_at n row

module _ (u : Unicode) where
  unfoldable pub cell_text : Cell → Text
  cell_text value = strip u (str_of value)

  abbrev pub int_of : Cell → Option ℤ
  int_of empty = none
  int_of (text_cell t) = parse_int u t
  int_of (other_cell t n) = n

  -- `none` is the `ValueError`.
  unfoldable pub parse_quantity : Cell → Option ℤ
  parse_quantity value = if is_nil (cell_text value) then some (pos 0) else elim (int_of value) [
    | none ↦ none
    | some parsed ↦ if ltb_ℤ parsed (pos 0) then none else some parsed
  ]

  -- The message of that error, or none
  abbrev pub quantity_errors : Text → Option ℤ → List Text
  quantity_errors field_name none = (field_name ++ codes " 必须为非负整数") ∷ []
  quantity_errors field_name (some n) = []

  -- `{header: idx for idx, header in enumerate(headers) if header}`: of equal headers, the last
  abbrev pub header_index : ℕ → List Cell → Dict Text ℕ → Dict Text ℕ
  header_index idx [] index = index
  header_index idx (cell ∷ cells) index =
      let header = cell_text cell in
      header_index (suc idx) cells (if is_nil header then index else put header idx index)

  -- A missing header is `none`.
  unfoldable pub find_columns : List Cell → Option Columns
  find_columns header_row =
      let index = header_index 0 header_row [] in
      do
        warehouse_name ← get (codes "仓库") index
        commodity_sku ← get (codes "SKU") index
        available ← get (codes "可用数") index
        reserved ← get (codes "待出库") index
        some (record {
          warehouse_name = warehouse_name;
          commodity_sku = commodity_sku;
          available = available;
          reserved = reserved;
        })

  -- `if not warehouse_name: errors.append(...)`
  abbrev pub blank_errors : Text → Text → List Text
  blank_errors message t = if is_nil t then message ∷ [] else []

  -- The errors of a row, in the order of its checks
  unfoldable pub row_errors : Text → Text → Option ℤ → Option ℤ → List Text
  row_errors warehouse_name commodity_sku available reserved =
      blank_errors (codes "仓库不能为空") warehouse_name
      ++ blank_errors (codes "SKU 不能为空") commodity_sku
      ++ quantity_errors (codes "可用数") available
      ++ quantity_errors (codes "待出库") reserved

  -- One row of the workbook
  unfoldable pub parse_row : Columns → ℕ → List Cell → ParsedRow
  parse_row columns row_no row =
      let warehouse_name = cell_text (cell_at columns.warehouse_name row) in
      let commodity_sku = cell_text (cell_at columns.commodity_sku row) in
      let available = parse_quantity (cell_at columns.available row) in
      let reserved = parse_quantity (cell_at columns.reserved row) in
      let errors = row_errors warehouse_name commodity_sku available reserved in
      record {
        source_row_no = row_no;
        warehouse_name = warehouse_name;
        commodity_sku = or_none commodity_sku;
        available = if is_nil errors then available else none;
        reserved = if is_nil errors then reserved else none;
        error_message = if is_nil errors then none else some (join (codes "；") errors);
      }

  -- The rows below the header, from a row number on; blank ones are skipped.
  unfoldable pub parse_rows : Columns → ℕ → List (List Cell) → List ParsedRow
  parse_rows columns row_no [] = []
  parse_rows columns row_no (row ∷ rows) =
      let rest = parse_rows columns (suc row_no) rows in
      if any (λ (value : Cell). not (is_nil (cell_text value))) row
      then parse_row columns row_no row ∷ rest
      else rest

  abbrev pub parsed_with : Option Columns → List (List Cell) → Reply (List ParsedRow)
  parsed_with none rows = refused validation_failed
  parsed_with (some columns) rows =
      let parsed_rows = parse_rows columns 2 rows in
      if is_nil parsed_rows then refused validation_failed else answered parsed_rows

  -- From the rows of the sheet; `none` where the file cannot be read
  abbrev pub parse_sheet : Option (List (List Cell)) → Reply (List ParsedRow)
  parse_sheet none = refused validation_failed
  parse_sheet (some []) = refused validation_failed
  parse_sheet (some (header_row ∷ rows)) = parsed_with (find_columns header_row) rows

  unfoldable pub parse_third_party_inventory_workbook :
      (List ℕ → Option (List (List Cell))) → List ℕ → Reply (List ParsedRow)
  parse_third_party_inventory_workbook load_workbook content =
      if is_nil content then refused validation_failed else parse_sheet (load_workbook content)
