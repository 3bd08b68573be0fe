-- ===== src/Services/ThirdParty/Current.antt =====
-- The edits of the current stock (`upsert_current_item`, `patch_current_item`, `delete_current_item`,
-- `sync_import_items_warehouse_id` in backend/app/services/third_party_inventory.py).
use restock_system.Common.{
  ℕ, List, Option, none, Text, keep_if, ◌∷◌, some, if◌then◌else◌, map, not, Bool, suc, ◌==◌, elem,
  is_nil, zero, ◌++◌, ◌&&◌, [], nat_eq, is_none, text_eq, stock_key_eq,
}
use restock_system.Services.ThirdParty.{
  CurrentItem, Warehouse, Inventory, ImportItem, manual_operation, fits_integer,
}
use restock_system.Common.Int.{ℤ}
use restock_system.Services.Errors.{Reply, refused, not_found, conflict, answered, unhandled}

abbrev pub find_warehouse : ℕ → List Warehouse → Option Warehouse
find_warehouse i [] = none
find_warehouse i (row ∷ rows) = if row.id == i then some row else find_warehouse i rows

abbrev pub find_current : ℕ → List CurrentItem → Option CurrentItem
find_current i [] = none
find_current i (row ∷ rows) = if row.id == i then some row else find_current i rows

-- The columns of the unique constraint
abbrev pub stock_key_of : CurrentItem → ℕ × Text
stock_key_of item = (item.warehouse_id, item.commodity_sku)

abbrev pub stock_keys_of : List CurrentItem → List (ℕ × Text)
stock_keys_of = map stock_key_of

abbrev pub manual_item : ℕ → ℕ → Text → ℤ → ℤ → CurrentItem
manual_item id warehouse_id commodity_sku available reserved = record {
  id = id;
  warehouse_id = warehouse_id;
  commodity_sku = commodity_sku;
  available = available;
  reserved = reserved;
  source_batch_id = none;
  last_operation = manual_operation;
}

-- `ON CONFLICT ... DO UPDATE`: the row with the key of the new one takes its values.
abbrev pub update_at : CurrentItem → List CurrentItem → List CurrentItem
update_at new [] = []
update_at new (row ∷ rows) =
    (if stock_key_of row == stock_key_of new then record new { id = row.id } else row)
    ∷ update_at new rows

-- The insert with its conflict clause; the sequence moves on in both cases.
unfoldable pub insert_or_update : CurrentItem → Inventory → Inventory
insert_or_update new inventory = record inventory {
  current =
      if elem (stock_key_of new) (stock_keys_of inventory.current)
      then update_at new inventory.current
      else inventory.current ++ new ∷ [];
  next_current_id = suc inventory.next_current_id;
}

unfoldable pub upsert_current_item : ℕ → Text → ℤ → ℤ → Inventory → Reply Inventory
upsert_current_item warehouse_id commodity_sku available reserved inventory =
    elim (find_warehouse warehouse_id inventory.warehouses) [
      | none ↦ refused not_found
      | some warehouse ↦
          if fits_integer available && fits_integer reserved
          then answered (
              insert_or_update
                (manual_item inventory.next_current_id warehouse_id commodity_sku available
                  reserved)
                inventory)
          else refused unhandled
    ]

-- The values of a patch; none is a missing key or None.
pub record PatchValues : Type 0 where
  pub warehouse_id : Option ℕ
  pub commodity_sku : Option Text
  pub available : Option ℤ
  pub reserved : Option ℤ

-- `value or old`
abbrev pub number_or : Option ℕ → ℕ → ℕ
number_or none old = old
number_or (some zero) old = old
number_or (some (suc n)) old = suc n

abbrev pub text_or : Option Text → Text → Text
text_or none old = old
text_or (some t) old = if is_nil t then old else t

-- `if value is not None: old = value`
abbrev pub int_or : Option ℤ → ℤ → ℤ
int_or none old = old
int_or (some n) old = n

abbrev pub patched_item : PatchValues → CurrentItem → CurrentItem
patched_item values item = record {
  id = item.id;
  warehouse_id = number_or values.warehouse_id item.warehouse_id;
  commodity_sku = text_or values.commodity_sku item.commodity_sku;
  available = int_or values.available item.available;
  reserved = int_or values.reserved item.reserved;
  source_batch_id = none;
  last_operation = manual_operation;
}

abbrev pub set_current : CurrentItem → List CurrentItem → List CurrentItem
set_current new [] = []
set_current new (row ∷ rows) = (if row.id == new.id then new else row) ∷ set_current new rows

abbrev pub others_of : ℕ → List CurrentItem → List CurrentItem
others_of i = keep_if (λ (row : CurrentItem). not (row.id == i))

-- The commit, which the database refuses where another row has the key, or where an amount does not fit;
-- the code answers both as a conflict.
unfoldable pub save_current : CurrentItem → Inventory → Reply Inventory
save_current item inventory =
    if elem (stock_key_of item) (stock_keys_of (others_of item.id inventory.current))
    then refused conflict
    else if fits_integer item.available && fits_integer item.reserved
    then answered (record inventory { current = set_current item inventory.current })
    else refused conflict

abbrev pub patch_found : Option CurrentItem → PatchValues → Inventory → Reply Inventory
patch_found none values inventory = refused not_found
patch_found (some item) values inventory =
    let warehouse_id = number_or values.warehouse_id item.warehouse_id in
    elim (find_warehouse warehouse_id inventory.warehouses) [
      | none ↦ refused not_found
      | some warehouse ↦ save_current (patched_item values item) inventory
    ]

unfoldable pub patch_current_item : ℕ → PatchValues → Inventory → Reply Inventory
patch_current_item item_id values inventory =
    patch_found (find_current item_id inventory.current) values inventory

unfoldable pub delete_current_item : ℕ → Inventory → Reply Inventory
delete_current_item item_id inventory = elim (find_current item_id inventory.current) [
  | none ↦ refused not_found
  | some item ↦ answered (record inventory { current = others_of item_id inventory.current })
]

-- The rows that the update selects: without a warehouse and without an error, with its name
abbrev pub is_unassigned : Warehouse → ImportItem → Bool
is_unassigned warehouse item =
    item.warehouse_name_raw == warehouse.name
    && is_none item.warehouse_id
    && is_none item.error_message

abbrev pub sync_item : Warehouse → ImportItem → ImportItem
sync_item warehouse item =
    if is_unassigned warehouse item then record item { warehouse_id = some warehouse.id } else item

unfoldable pub sync_import_items_warehouse_id : Warehouse → Inventory → Inventory
sync_import_items_warehouse_id warehouse inventory = record inventory {
  items = map (sync_item warehouse) inventory.items;
}
