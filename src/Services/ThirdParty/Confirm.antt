-- ===== src/Services/ThirdParty/Confirm.antt =====
-- The confirmation of an import (`confirm_import_batch` in
-- backend/app/services/third_party_inventory.py).
pub mod Names
pub mod Totals
pub mod Stock
pub mod Applied
pub mod Warehouses
pub mod Previewed
use restock_system.Common.{
  Option, Dict, Text, List, ℕ, Bool, keep_if, sorted, some, false, none, for_each, get, ◌==◌, ltb,
  leb, ◌∷◌, not, if◌then◌else◌, ◌&&◌, [], ◌||◌, map, nat_eq, text_eq, is_nil, elem, put, keys,
  get_or, ◌++◌, ◌+◌, suc, length, is_none, stock_key_eq, true,
}
use restock_system.Services.ThirdParty.{
  ImportItem, Warehouse, CurrentItem, Batch, Inventory, import_operation, BatchStatus, fits_integer,
}
use restock_system.Common.Int.{ℤ, pos, ◌+ℤ◌}
use restock_system.Services.ThirdParty.Import.{
  sorted_set, warehouses_by_name, set_batch, numbered, on_pending, find_batch,
}
use restock_system.Core.Countries.{text_of}
use restock_system.Common.Strings.{text_le}
use restock_system.Services.Errors.{Reply, refused, validation_failed, answered, unhandled}
use restock_system.Services.ThirdParty.Parse.{is_given}

-- The items that a confirmation imports
unfoldable pub is_valid_item : ImportItem → Bool
is_valid_item item =
    is_none item.error_message
    && not (is_nil item.warehouse_name_raw)
    && is_given item.commodity_sku
    && not (is_none item.available)
    && not (is_none item.reserved)

-- The loop over the names: the dictionary of the warehouses, and their table
pub record Known : Type 0 where
  pub by_name : Dict Text Warehouse
  pub warehouses : List Warehouse
  pub next_id : ℕ

abbrev pub add_warehouse : Text → Known → Known
add_warehouse name known =
    let warehouse : Warehouse = record { id = known.next_id; name = name; country = none } in
    if elem name (keys known.by_name) then known else record {
      by_name = put name warehouse known.by_name;
      warehouses = known.warehouses ++ warehouse ∷ [];
      next_id = suc known.next_id;
    }

unfoldable pub known_warehouses : List Text → List Warehouse → ℕ → Known
known_warehouses names warehouses next_id = for_each add_warehouse names (record {
  by_name = warehouses_by_name names warehouses;
  warehouses = warehouses;
  next_id = next_id;
})

-- `item.warehouse_id = warehouse_by_name[item.warehouse_name_raw].id` on the valid items of the batch
abbrev pub assigned_to : Option Warehouse → ImportItem → ImportItem
assigned_to none item = item
assigned_to (some warehouse) item = record item { warehouse_id = some warehouse.id }

abbrev pub assigned : Dict Text Warehouse → ImportItem → ImportItem
assigned by_name item = assigned_to (get item.warehouse_name_raw by_name) item

abbrev pub is_imported : ℕ → ImportItem → Bool
is_imported batch_id item = item.batch_id == batch_id && is_valid_item item

unfoldable pub assign_warehouses : Dict Text Warehouse → ℕ → List ImportItem → List ImportItem
assign_warehouses by_name batch_id [] = []
assign_warehouses by_name batch_id (item ∷ items) =
    (if is_imported batch_id item then assigned by_name item else item)
    ∷ assign_warehouses by_name batch_id items

pub record Amounts : Type 0 where
  pub available : ℤ
  pub reserved : ℤ

abbrev pub no_amounts : Amounts
no_amounts = record { available = pos 0; reserved = pos 0 }

-- `int(n or 0)`
abbrev pub or_zero : Option ℤ → ℤ
or_zero none = pos 0
or_zero (some n) = n

abbrev pub plus_item : ImportItem → Amounts → Amounts
plus_item item amounts = record {
  available = amounts.available +ℤ or_zero item.available;
  reserved = amounts.reserved +ℤ or_zero item.reserved;
}

-- `totals[key] += ...` for an item
abbrev pub add_found :
    Option Warehouse → ImportItem → Dict (ℕ × Text) Amounts → Dict (ℕ × Text) Amounts
add_found none item totals = totals
add_found (some warehouse) item totals =
    let key : ℕ × Text = (warehouse.id, text_of item.commodity_sku) in
    put key (plus_item item (get_or key totals no_amounts)) totals

abbrev pub add_amounts :
    Dict Text Warehouse → ImportItem → Dict (ℕ × Text) Amounts → Dict (ℕ × Text) Amounts
add_amounts by_name item = add_found (get item.warehouse_name_raw by_name) item

unfoldable pub totals_of : Dict Text Warehouse → List ImportItem → Dict (ℕ × Text) Amounts
totals_of by_name valid_items = for_each (add_amounts by_name) valid_items []

-- The order of `sorted` on the entries of the totals: their keys differ
abbrev pub key_le : (ℕ × Text) → (ℕ × Text) → Bool
key_le (i, s) (j, t) = ltb i j || (i == j && text_le s t)

abbrev pub imported_item : ℕ → ℕ → (ℕ × Text) × Amounts → CurrentItem
imported_item batch_id id ((warehouse_id, commodity_sku), amounts) = record {
  id = id;
  warehouse_id = warehouse_id;
  commodity_sku = commodity_sku;
  available = amounts.available;
  reserved = amounts.reserved;
  source_batch_id = some batch_id;
  last_operation = import_operation;
}

abbrev pub applied_batch : Option Text → Text → Batch → Batch
applied_batch confirmed_by now batch = record batch {
  status = BatchStatus.applied;
  confirmed_by = confirmed_by;
  confirmed_at = some now;
}

-- The valid items of a batch, by their rows
unfoldable pub valid_items_of : ℕ → List ImportItem → List ImportItem
valid_items_of batch_id items = keep_if is_valid_item (
    sorted (λ a b. leb a.source_row_no b.source_row_no)
      (keep_if (λ (item : ImportItem). item.batch_id == batch_id) items))

-- The entries to insert
abbrev pub insert_values : Dict (ℕ × Text) Amounts → Dict (ℕ × Text) Amounts
insert_values = sorted (λ a b. key_le a.0 b.0)

unfoldable pub apply_items : ℕ → Option Text → Text → List ImportItem → Inventory → Inventory
apply_items batch_id confirmed_by now valid_items inventory =
    let names = sorted_set (map (λ (item : ImportItem). item.warehouse_name_raw) valid_items) in
    let known = known_warehouses names inventory.warehouses inventory.next_warehouse_id in
    let entries = insert_values (totals_of known.by_name valid_items) in
    record inventory {
      warehouses = known.warehouses;
      next_warehouse_id = known.next_id;
      batches = set_batch batch_id (applied_batch confirmed_by now) inventory.batches;
      items = assign_warehouses known.by_name batch_id inventory.items;
      current = numbered (imported_item batch_id) inventory.next_current_id entries;
      next_current_id = inventory.next_current_id + length entries;
    }

-- Whether the sums fit the columns of the stock
unfoldable pub fits_totals : Dict (ℕ × Text) Amounts → Bool
fits_totals [] = true
fits_totals ((key, amounts) ∷ totals) =
    fits_integer amounts.available && fits_integer amounts.reserved && fits_totals totals

-- The sums of the items, by the warehouses that the confirmation knows then
unfoldable pub confirmed_totals : List ImportItem → Inventory → Dict (ℕ × Text) Amounts
confirmed_totals valid_items inventory =
    let names = sorted_set (map (λ (item : ImportItem). item.warehouse_name_raw) valid_items) in
    let known = known_warehouses names inventory.warehouses inventory.next_warehouse_id in
    totals_of known.by_name valid_items

unfoldable pub confirm_import_batch : ℕ → Option Text → Text → Inventory → Reply Inventory
confirm_import_batch batch_id confirmed_by now inventory =
    let valid_items = valid_items_of batch_id inventory.items in
    on_pending (find_batch batch_id inventory.batches) (
      if is_nil valid_items
      then refused validation_failed
      else if fits_totals (confirmed_totals valid_items inventory)
      then answered (apply_items batch_id confirmed_by now valid_items inventory)
      else refused unhandled)
