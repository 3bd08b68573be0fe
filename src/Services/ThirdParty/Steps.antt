-- ===== src/Services/ThirdParty/Steps.antt =====
-- The calls that change the tables of third-party stock, as steps
-- (backend/app/services/third_party_inventory.py).
pub mod Batches
pub mod CurrentRows
pub mod Consistent
pub mod Kept
use restock_system.Common.Strings.{Unicode}
use restock_system.Services.Errors.{answered, Reply, refused, answered_inj}
use restock_system.Common.{
  Text, Option, List, ◌≡◌, ℕ, Option-cases, some, inl, inr, elem, none, false, if-cases,
  stock_key_eq, refl, ◌&&◌,
}
use restock_system.Services.ThirdParty.Import.{
  create_import_preview, expire_pending_batch, preview_of, save_preview, fits_rows,
}
use restock_system.Services.ThirdParty.Current.{
  upsert_current_item, patch_current_item, delete_current_item, save_current, PatchValues,
  others_of, patch_found, find_current, find_warehouse, sync_import_items_warehouse_id,
  insert_or_update, number_or, manual_item, patched_item, stock_key_of, stock_keys_of, set_current,
}
use restock_system.Services.ThirdParty.{Inventory, CurrentItem, Warehouse, fits_integer}
use restock_system.Services.ThirdParty.Parse.{Cell, ParsedRow, parse_third_party_inventory_workbook}
use restock_system.Common.Int.{ℤ}
use restock_system.Services.ThirdParty.Confirm.{confirm_import_batch}

module _ (u : Unicode) (load_workbook : List ℕ → Option (List (List Cell))) where
  -- A call that commits, before and after. A refused one rolls back.
  pub data Step : Inventory → Inventory → Type 0 where
    previewed :
        (filename : Text) (content : List ℕ) (created_by : Option Text) (before after : Inventory)
        → create_import_preview u load_workbook filename content created_by before ≡ answered after
        → Step before after
    confirmed :
        (batch_id : ℕ) (confirmed_by : Option Text) (now : Text) (before after : Inventory)
        → confirm_import_batch batch_id confirmed_by now before ≡ answered after
        → Step before after
    expired :
        (batch_id : ℕ) (before after : Inventory)
        → expire_pending_batch batch_id before ≡ answered after
        → Step before after
    upserted :
        (warehouse_id : ℕ) (commodity_sku : Text) (available reserved : ℤ)
        (before after : Inventory)
        → upsert_current_item warehouse_id commodity_sku available reserved before ≡ answered after
        → Step before after
    patched :
        (item_id : ℕ) (values : PatchValues) (before after : Inventory)
        → patch_current_item item_id values before ≡ answered after
        → Step before after
    deleted :
        (item_id : ℕ) (before after : Inventory)
        → delete_current_item item_id before ≡ answered after
        → Step before after
    synced :
        (warehouse : Warehouse) (before : Inventory)
        → Step before (sync_import_items_warehouse_id warehouse before)

  -- A sequence of calls
  pub data Steps : Inventory → Inventory → Type 0 where
    stop : (before : Inventory) → Steps before before
    next :
        (before between after : Inventory)
        → Step before between
        → Steps between after
        → Steps before after

  -- What each step keeps, a sequence keeps.
  pub Steps-keep {ℓ} :
      (P : Inventory → Type ℓ) {before after : Inventory}
      → ((before after : Inventory) → Step before after → P before → P after)
      → Steps before after
      → P before
      → P after
  Steps-keep P k (stop before) p = p
  Steps-keep P k (next before between after step steps) p =
      Steps-keep P k steps (k before between step p)

preview_of-answered :
    (filename : Text) (created_by : Option Text) (before : Inventory)
    (parsed : Reply (List ParsedRow)) {after : Inventory}
    → preview_of filename created_by before parsed ≡ answered after
    → (parsed_rows : List ParsedRow) × (save_preview filename created_by parsed_rows before ≡ after)
preview_of-answered filename created_by before (refused e) h = cc
preview_of-answered filename created_by before (answered parsed_rows) h =
    elim (if-cases (fits_rows parsed_rows) _ _ h) [
      | inl (fit, saved) ↦ (parsed_rows, answered_inj saved)
      | inr (overflow, refusal) ↦ cc
    ]

-- What the call with an answer does to the tables
pub previewed-after :
    (u : Unicode) (load_workbook : List ℕ → Option (List (List Cell))) (filename : Text)
    (content : List ℕ) (created_by : Option Text) (before after : Inventory)
    → create_import_preview u load_workbook filename content created_by before ≡ answered after
    → (parsed_rows : List ParsedRow) × (save_preview filename created_by parsed_rows before ≡ after)
unfolding create_import_preview
previewed-after u load_workbook filename content created_by before after h =
    preview_of-answered filename created_by before
      (parse_third_party_inventory_workbook u load_workbook content) h

pub upserted-after :
    (warehouse_id : ℕ) (sku : Text) (available reserved : ℤ) (before after : Inventory)
    → upsert_current_item warehouse_id sku available reserved before ≡ answered after
    → ((warehouse : Warehouse) × (find_warehouse warehouse_id before.warehouses ≡ some warehouse))
      × (insert_or_update
            (manual_item before.next_current_id warehouse_id sku available reserved)
            before
          ≡ after)
unfolding upsert_current_item
upserted-after warehouse_id sku available reserved before after h =
    elim (Option-cases (find_warehouse warehouse_id before.warehouses)) [
      | inl absent ↦ let stop = rw (absent, upsert_current_item) at h in cc
      | inr (warehouse, found) ↦
          let written = rw (found, upsert_current_item) at h in
          elim (if-cases (fits_integer available && fits_integer reserved) _ _ written) [
            | inl (fit, done) ↦ ((warehouse, found), answered_inj done)
            | inr (overflow, refusal) ↦ cc
          ]
    ]

pub patch_found-answered :
    (found : Option CurrentItem) (values : PatchValues) (before : Inventory) {after : Inventory}
    → patch_found found values before ≡ answered after
    → (item : CurrentItem) × (found ≡ some item)
      × ((warehouse : Warehouse) × (find_warehouse
              (number_or values.warehouse_id item.warehouse_id)
              before.warehouses
            ≡ some warehouse))
      × (save_current (patched_item values item) before ≡ answered after)
patch_found-answered none values before h = cc
patch_found-answered (some item) values before h =
    elim (Option-cases
      (find_warehouse (number_or values.warehouse_id item.warehouse_id) before.warehouses)) [
        | inl absent ↦ let stop = rw (absent, patch_found) at h in cc
        | inr (warehouse, known) ↦ (item, refl, (warehouse, known), rw (known, patch_found) at h)
      ]

pub patched-after :
    (item_id : ℕ) (values : PatchValues) (before after : Inventory)
    → patch_current_item item_id values before ≡ answered after
    → (item : CurrentItem) × (find_current item_id before.current ≡ some item)
      × ((warehouse : Warehouse) × (find_warehouse
              (number_or values.warehouse_id item.warehouse_id)
              before.warehouses
            ≡ some warehouse))
      × (elem
            (stock_key_of (patched_item values item))
            (stock_keys_of (others_of item.id before.current))
          ≡ false)
      × (record before { current = set_current (patched_item values item) before.current } ≡ after)
unfolding patch_current_item save_current
patched-after item_id values before after h =
    let (item, found, known, saved) =
      patch_found-answered (find_current item_id before.current) values before h in
    elim (if-cases
      (elem (stock_key_of (patched_item values item))
        (stock_keys_of (others_of item.id before.current)))
      _ _ saved) [
        | inl (q, refusal) ↦ cc
        | inr (q, rest) ↦
            elim (if-cases
              (fits_integer (patched_item values item).available
                && fits_integer (patched_item values item).reserved)
              _ _ rest) [
                | inl (fit, done) ↦ (item, found, known, q, answered_inj done)
                | inr (overflow, refusal) ↦ cc
              ]
      ]

pub deleted-after :
    (item_id : ℕ) (before after : Inventory)
    → delete_current_item item_id before ≡ answered after
    → record before { current = others_of item_id before.current } ≡ after
unfolding delete_current_item
deleted-after item_id before after h = elim (Option-cases (find_current item_id before.current)) [
  | inl absent ↦ let stop = rw (absent, delete_current_item) at h in cc
  | inr (item, found) ↦ answered_inj (rw (found, delete_current_item) at h)
]
