-- ===== src/Services/ThirdParty/Import.antt =====
-- The preview of an import, and its confirmation (`create_import_preview`, `confirm_import_batch`,
-- `expire_pending_batch` in backend/app/services/third_party_inventory.py).
use restock_system.Common.{
  ℕ, List, Dict, Text, Option, Bool, put, for_each, sorted, map, length, none, ◌∷◌, true, keep_if,
  get, suc, ◌++◌, if◌then◌else◌, text_eq, false, elem, from_keys, not, take, [], ◌==◌, some, keys,
  is_nil, ◌+◌, nat_eq, codes, ◌-◌, is_none, ◌&&◌,
}
use restock_system.Services.ThirdParty.{
  BatchStatus, Warehouse, Batch, Issue, Summary, ImportItem, Inventory, fits_integer,
}
use restock_system.Services.ThirdParty.Parse.{
  ParsedRow, Cell, or_none, parse_third_party_inventory_workbook,
}
use restock_system.Common.Strings.{Unicode, text_le}
use restock_system.Services.Errors.{Reply, refused, answered, not_found, conflict, unhandled}
use restock_system.Common.Int.{ℤ}

abbrev pub preview_issue_limit : ℕ
preview_issue_limit = 20

abbrev pub is_pending_batch : BatchStatus → Bool
is_pending_batch BatchStatus.pending = true
is_pending_batch _ = false

-- `{row.name: row for row in existing_rows}`, of the rows whose name is among the given
abbrev pub note_warehouse : Warehouse → Dict Text Warehouse → Dict Text Warehouse
note_warehouse row = put row.name row

unfoldable pub warehouses_by_name : List Text → List Warehouse → Dict Text Warehouse
warehouses_by_name names warehouses =
    for_each note_warehouse (keep_if (λ (row : Warehouse). elem row.name names) warehouses) []

-- `sorted({...})` on texts
abbrev pub sorted_set : List Text → List Text
sorted_set texts = sorted text_le (from_keys texts)

abbrev pub is_valid_row : ParsedRow → Bool
is_valid_row row = is_none row.error_message

abbrev pub issue_of : ParsedRow → Issue
issue_of row = record {
  row = row.source_row_no;
  warehouse_name = or_none row.warehouse_name;
  commodity_sku = row.commodity_sku;
  message = row.error_message;
}

-- `name not in warehouse_by_name or warehouse_by_name[name].country is None`
abbrev pub is_unmaintained : Dict Text Warehouse → Text → Bool
is_unmaintained warehouse_by_name name = elim (get name warehouse_by_name) [
  | none ↦ true
  | some warehouse ↦ is_none warehouse.country
]

unfoldable pub summary_of : Dict Text Warehouse → List Text → List ParsedRow → Summary
summary_of warehouse_by_name names parsed_rows =
    let issues = map issue_of (keep_if (λ (row : ParsedRow). not (is_valid_row row)) parsed_rows) in
    record {
      new_warehouses = keep_if (λ (name : Text). not (elem name (keys warehouse_by_name))) names;
      unmaintained_warehouses = sorted_set (keep_if (is_unmaintained warehouse_by_name) names);
      issues = take preview_issue_limit issues;
      issue_count = length issues;
    }

abbrev pub import_item : Dict Text Warehouse → ℕ → ℕ → ParsedRow → ImportItem
import_item warehouse_by_name batch_id id row = record {
  id = id;
  batch_id = batch_id;
  warehouse_name_raw = row.warehouse_name;
  warehouse_id = elim (get row.warehouse_name warehouse_by_name) [
    | none ↦ none
    | some warehouse ↦ some warehouse.id
  ];
  commodity_sku = row.commodity_sku;
  available = row.available;
  reserved = row.reserved;
  source_row_no = row.source_row_no;
  error_message = row.error_message;
}

-- The rows of a table that come from a list, with the ids from a first one on
abbrev pub numbered {ℓ κ} : {A : Type ℓ} {B : Type κ} → (ℕ → A → B) → ℕ → List A → List B
numbered f n [] = []
numbered f n (x ∷ xs) = f n x ∷ numbered f (suc n) xs

-- The names of the warehouses of the valid rows
abbrev pub valid_warehouse_names : List ParsedRow → List Text
valid_warehouse_names parsed_rows =
    sorted_set (map (λ (row : ParsedRow). row.warehouse_name) (keep_if is_valid_row parsed_rows))

unfoldable pub preview_batch : Dict Text Warehouse → Text → Option Text → List ParsedRow → ℕ → Batch
preview_batch warehouse_by_name filename created_by parsed_rows id =
    let valid_row_count = length (keep_if is_valid_row parsed_rows) in
    let summary = summary_of warehouse_by_name (valid_warehouse_names parsed_rows) parsed_rows in
    let name = take 255 filename in
    record {
      id = id;
      filename = if is_nil name then codes "third-party-inventory.xlsx" else name;
      status = BatchStatus.pending;
      row_count = length parsed_rows;
      valid_row_count = valid_row_count;
      skipped_row_count = length parsed_rows - valid_row_count;
      new_warehouse_count = length summary.new_warehouses;
      created_by = created_by;
      confirmed_by = none;
      confirmed_at = none;
      summary = summary;
    }

unfoldable pub save_preview : Text → Option Text → List ParsedRow → Inventory → Inventory
save_preview filename created_by parsed_rows inventory =
    let warehouse_by_name =
      warehouses_by_name (valid_warehouse_names parsed_rows) inventory.warehouses in
    let batch =
      preview_batch warehouse_by_name filename created_by parsed_rows inventory.next_batch_id in
    record inventory {
      batches = inventory.batches ++ batch ∷ [];
      next_batch_id = suc inventory.next_batch_id;
      items =
          inventory.items
          ++ numbered (import_item warehouse_by_name batch.id) inventory.next_item_id parsed_rows;
      next_item_id = inventory.next_item_id + length parsed_rows;
    }

-- Whether the amounts of the rows fit their columns
abbrev pub fits_amount : Option ℤ → Bool
fits_amount none = true
fits_amount (some n) = fits_integer n

unfoldable pub fits_rows : List ParsedRow → Bool
fits_rows [] = true
fits_rows (row ∷ rows) = fits_amount row.available && fits_amount row.reserved && fits_rows rows

-- The tables afterwards; an insert that the database refuses leaves nothing.
abbrev pub preview_of : Text → Option Text → Inventory → Reply (List ParsedRow) → Reply Inventory
preview_of filename created_by inventory (refused e) = refused e
preview_of filename created_by inventory (answered parsed_rows) =
    if fits_rows parsed_rows
    then answered (save_preview filename created_by parsed_rows inventory)
    else refused unhandled

unfoldable pub create_import_preview :
    Unicode
    → (List ℕ → Option (List (List Cell)))
    → Text
    → List ℕ
    → Option Text
    → Inventory
    → Reply Inventory
create_import_preview u load_workbook filename content created_by inventory =
    preview_of filename created_by inventory
      (parse_third_party_inventory_workbook u load_workbook content)

abbrev pub find_batch : ℕ → List Batch → Option Batch
find_batch i [] = none
find_batch i (batch ∷ batches) = if batch.id == i then some batch else find_batch i batches

-- The update of the row of a batch
abbrev pub set_batch : ℕ → (Batch → Batch) → List Batch → List Batch
set_batch i change [] = []
set_batch i change (batch ∷ batches) =
    (if batch.id == i then change batch else batch) ∷ set_batch i change batches

-- What a call that needs a pending batch comes to
abbrev pub on_pending {ℓ} : {A : Type ℓ} → Option Batch → Reply A → Reply A
on_pending none result = refused not_found
on_pending (some batch) result = if is_pending_batch batch.status then result else refused conflict

abbrev pub expired_batch : Batch → Batch
expired_batch batch = record batch { status = BatchStatus.expired }

unfoldable pub expire_pending_batch : ℕ → Inventory → Reply Inventory
expire_pending_batch batch_id inventory =
    on_pending (find_batch batch_id inventory.batches)
      (answered (record inventory { batches = set_batch batch_id expired_batch inventory.batches }))
