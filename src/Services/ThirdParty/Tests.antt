-- ===== src/Services/ThirdParty/Tests.antt =====
-- An import of third-party stock at a concrete workbook.
use restock_system.Services.ThirdParty.Steps.Consistent.{IsConsistent}
use Prim.Native.String.{String}
use restock_system.Services.ThirdParty.Parse.{
  parse_third_party_inventory_workbook, find_columns, parse_rows, parse_row, row_errors, cell_text,
  parse_quantity, Cell, text_cell, ParsedRow, empty,
}
use restock_system.Common.Strings.{join, strip, parse_int, Unicode}
use restock_system.Services.ThirdParty.Import.{
  create_import_preview, save_preview, preview_batch, summary_of, warehouses_by_name, is_valid_row,
  find_batch, is_pending_batch, fits_rows,
}
use restock_system.Services.ThirdParty.Confirm.{
  confirm_import_batch, valid_items_of, apply_items, known_warehouses, is_valid_item, totals_of,
  assign_warehouses, or_zero, fits_totals, confirmed_totals,
}
use restock_system.Common.Int.{◌+ℤ◌, pos}
use restock_system.Common.{
  List, ◌≡◌, codes, none, is_nil, ◌==◌, ◌∷◌, ℕ, some, false, any, leb, [], Option, All, map, ◌&&◌,
  refl, if◌then◌else◌, ◌-◌, nat_eq,
}
use restock_system.Services.Errors.{Reply, answered, refused}
use restock_system.Services.ThirdParty.{Warehouse, Inventory, Batch, fits_integer}
use restock_system.Services.ThirdParty.Confirm.Previewed.{
  is_answered, confirm_import_batch-preview, has_room,
}
use restock_system.Services.ThirdParty.Confirm.Totals.{stock_of, stored_at}
use restock_system.Services.ThirdParty.Steps.{Steps, next, previewed, confirmed, stop, upserted}
use restock_system.Services.ThirdParty.Steps.Kept.{Steps-IsConsistent}
use restock_system.Engine.Total.{sum_ℤ}
use restock_system.Services.ThirdParty.Parse.Checked.{
  IsChecked, parse_third_party_inventory_workbook-IsChecked,
}
use restock_system.Services.ThirdParty.Confirm.Applied.{confirm_import_batch-stock}
use restock_system.Services.ThirdParty.Current.{upsert_current_item, insert_or_update}
use restock_system.Services.ThirdParty.Steps.Batches.{IsClosed, Steps-IsClosed}

abbrev plain : Unicode
plain = record {
  is_space = λ c. c == b' ';
  is_alpha = λ c. leb b'A' c && leb c b'z';
  upper = λ c. c ∷ [];
  digit_value = λ c. if leb b'0' c && leb c b'9' then some (c - b'0') else none;
}

abbrev cell : String → Cell
cell t = text_cell (codes t)

-- A header and three rows, of which the second has an amount that is no number
abbrev rows : List (List Cell)
rows =
    (cell "仓库" ∷ cell "SKU" ∷ cell "可用数" ∷ cell "待出库" ∷ [])
    ∷ (cell "A" ∷ cell "S" ∷ cell "5" ∷ empty ∷ [])
    ∷ (cell "A" ∷ cell "S" ∷ cell "x" ∷ cell "1" ∷ [])
    ∷ (cell "B" ∷ cell "S" ∷ cell "2" ∷ cell "3" ∷ [])
    ∷ (cell "A" ∷ cell "S" ∷ cell "4" ∷ cell "1" ∷ [])
    ∷ []

abbrev load_rows : List ℕ → Option (List (List Cell))
load_rows content = some rows

abbrev content : List ℕ
content = 1 ∷ []

abbrev parsed_of : Reply (List ParsedRow) → List ParsedRow
parsed_of (refused e) = []
parsed_of (answered rows) = rows

abbrev warehouse_a : Warehouse
warehouse_a = record { id = 1; name = codes "A"; country = some (codes "US") }

abbrev empty_tables : Inventory
empty_tables = record {
  warehouses = warehouse_a ∷ [];
  next_warehouse_id = 2;
  batches = [];
  next_batch_id = 1;
  items = [];
  next_item_id = 1;
  current = [];
  next_current_id = 1;
}

abbrev tables_of : Reply Inventory → Inventory
tables_of (refused e) = empty_tables
tables_of (answered tables) = tables

abbrev parsed_rows : List ParsedRow
parsed_rows = parsed_of (parse_third_party_inventory_workbook plain load_rows content)

abbrev previewed_tables : Inventory
previewed_tables =
    tables_of (create_import_preview plain load_rows (codes "f") content none empty_tables)

abbrev confirmed_tables : Inventory
confirmed_tables = tables_of (confirm_import_batch 1 none (codes "now") previewed_tables)

parse_run : parse_third_party_inventory_workbook plain load_rows content ≡ answered parsed_rows
unfolding parse_third_party_inventory_workbook find_columns parse_rows parse_row row_errors join
    cell_text parse_quantity strip parse_int
parse_run = refl

preview_run :
    create_import_preview plain load_rows (codes "f") content none empty_tables
    ≡ answered previewed_tables
unfolding parse_third_party_inventory_workbook find_columns parse_rows parse_row row_errors join
    cell_text parse_quantity strip parse_int create_import_preview save_preview preview_batch
    summary_of warehouses_by_name fits_rows fits_integer
preview_run = refl

confirm_run : confirm_import_batch 1 none (codes "now") previewed_tables ≡ answered confirmed_tables
unfolding parse_third_party_inventory_workbook find_columns parse_rows parse_row row_errors join
    cell_text parse_quantity strip parse_int create_import_preview save_preview preview_batch
    summary_of warehouses_by_name fits_rows fits_integer confirm_import_batch valid_items_of
    apply_items known_warehouses is_valid_item totals_of assign_warehouses fits_totals
    confirmed_totals ◌+ℤ◌
confirm_run = refl

parse_third_party_inventory_workbook-IsChecked_example :
    (is_nil parsed_rows ≡ false) × All IsChecked parsed_rows
parse_third_party_inventory_workbook-IsChecked_example =
    parse_third_party_inventory_workbook-IsChecked plain load_rows content parse_run

confirm_import_batch-preview_example :
    is_answered (confirm_import_batch 1 none (codes "now") previewed_tables)
    ≡ (any is_valid_row parsed_rows && has_room 1 previewed_tables)
confirm_import_batch-preview_example =
    confirm_import_batch-preview plain load_rows (codes "f") content none none (codes "now")
      empty_tables (record { batches = tt; items = tt }) parse_run preview_run

confirm_import_batch-stock_example :
    (stock_of (λ row. row.available) (1, codes "S") confirmed_tables.current
      ≡ sum_ℤ (
          map (λ item. or_zero item.available) (stored_at 1 (1, codes "S") confirmed_tables.items)))
    × (stock_of (λ row. row.reserved) (1, codes "S") confirmed_tables.current
        ≡ sum_ℤ (
            map
              (λ item. or_zero item.reserved)
              (stored_at 1 (1, codes "S") confirmed_tables.items)))
confirm_import_batch-stock_example =
    confirm_import_batch-stock 1 none (codes "now") previewed_tables (1, codes "S") confirm_run

-- The available stock of the first warehouse is that of both its rows.
stock_run : stock_of (λ row. row.available) (1, codes "S") confirmed_tables.current ≡ pos 9
unfolding parse_third_party_inventory_workbook find_columns parse_rows parse_row row_errors join
    cell_text parse_quantity strip parse_int create_import_preview save_preview preview_batch
    summary_of warehouses_by_name fits_rows fits_integer confirm_import_batch valid_items_of
    apply_items known_warehouses is_valid_item totals_of assign_warehouses fits_totals
    confirmed_totals ◌+ℤ◌
stock_run = refl

abbrev import_steps : Steps plain load_rows empty_tables confirmed_tables
import_steps =
    next empty_tables previewed_tables confirmed_tables
      (previewed (codes "f") content none empty_tables previewed_tables preview_run)
      (next previewed_tables confirmed_tables confirmed_tables
        (confirmed 1 none (codes "now") previewed_tables confirmed_tables confirm_run)
        (stop confirmed_tables))

Steps-IsConsistent_example : IsConsistent confirmed_tables
Steps-IsConsistent_example = Steps-IsConsistent plain load_rows import_steps (record {
  unique_names = (refl, tt);
  unique_keys = tt;
  unique_ids = tt;
  fresh = tt;
  in_warehouses = tt;
})

abbrev batch_of : Option Batch → Batch
batch_of none = preview_batch [] (codes "f") none [] 0
batch_of (some batch) = batch

abbrev applied_one : Batch
applied_one = batch_of (find_batch 1 confirmed_tables.batches)

found_run : find_batch 1 confirmed_tables.batches ≡ some applied_one
unfolding parse_third_party_inventory_workbook find_columns parse_rows parse_row row_errors join
    cell_text parse_quantity strip parse_int create_import_preview save_preview preview_batch
    summary_of warehouses_by_name fits_rows fits_integer confirm_import_batch valid_items_of
    apply_items known_warehouses is_valid_item totals_of assign_warehouses fits_totals
    confirmed_totals ◌+ℤ◌
found_run = refl

closed_run : is_pending_batch applied_one.status ≡ false
unfolding parse_third_party_inventory_workbook find_columns parse_rows parse_row row_errors join
    cell_text parse_quantity strip parse_int create_import_preview save_preview preview_batch
    summary_of warehouses_by_name fits_rows fits_integer confirm_import_batch valid_items_of
    apply_items known_warehouses is_valid_item totals_of assign_warehouses fits_totals
    confirmed_totals ◌+ℤ◌
closed_run = refl

abbrev upserted_tables : Inventory
upserted_tables = tables_of (upsert_current_item 1 (codes "S") (pos 7) (pos 0) confirmed_tables)

upsert_run :
    upsert_current_item 1 (codes "S") (pos 7) (pos 0) confirmed_tables ≡ answered upserted_tables
unfolding parse_third_party_inventory_workbook find_columns parse_rows parse_row row_errors join
    cell_text parse_quantity strip parse_int create_import_preview save_preview preview_batch
    summary_of warehouses_by_name fits_rows fits_integer confirm_import_batch valid_items_of
    apply_items known_warehouses is_valid_item totals_of assign_warehouses fits_totals
    confirmed_totals ◌+ℤ◌ upsert_current_item insert_or_update
upsert_run = refl

Steps-IsClosed_example : IsClosed 1 applied_one upserted_tables
Steps-IsClosed_example =
    Steps-IsClosed plain load_rows 1 applied_one
      (next confirmed_tables upserted_tables upserted_tables
        (upserted 1 (codes "S") (pos 7) (pos 0) confirmed_tables upserted_tables upsert_run)
        (stop upserted_tables))
      (found_run, closed_run)
