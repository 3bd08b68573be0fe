-- ===== src/Services/ThirdParty/Confirm/Applied.antt =====
-- What a confirmation that is answered leaves (`confirm_import_batch`): its stock, against the items of
-- the batch.
use restock_system.Common.{
  Option, ℕ, Dict, ◌≡◌, Text, List, is_nil, refl, IsDistinct, false, keys, some, map,
  for_each-keeps, if-cases, none, true, subst, inl, put-IsDistinct, [], inr, get, ◌∙◌, get_or, ap,
  stock_key_eq, text_eq,
}
use restock_system.Services.ThirdParty.Confirm.Totals.{
  Column, stock_of, stored_at, stock_of-numbered,
}
use restock_system.Services.ThirdParty.Confirm.{
  totals_of, confirm_import_batch, apply_items, or_zero, known_warehouses, Known, valid_items_of,
  assigned_to, Amounts, add_found, add_amounts, insert_values, plus_item, no_amounts, key_le,
  fits_totals, confirmed_totals,
}
use restock_system.Services.Errors.{answered, Reply, refused, conflict, answered_inj}
use restock_system.Services.ThirdParty.{Warehouse, Batch, Inventory, ImportItem}
use restock_system.Services.ThirdParty.Import.{on_pending, find_batch, is_pending_batch}
use restock_system.Services.ThirdParty.Confirm.Stock.{
  valid_names, totals-stored, known_warehouses-AreNamed,
}
use restock_system.Engine.Total.{sum_ℤ}
use restock_system.Core.Countries.{text_of}
use restock_system.Services.Entries.{get-sorted}

available_same :
    (found : Option Warehouse) (item : ImportItem)
    → or_zero (assigned_to found item).available ≡ or_zero item.available
available_same none item = refl
available_same (some warehouse) item = refl

reserved_same :
    (found : Option Warehouse) (item : ImportItem)
    → or_zero (assigned_to found item).reserved ≡ or_zero item.reserved
reserved_same none item = refl
reserved_same (some warehouse) item = refl

abbrev available_column : Column
available_column = record {
  of_amounts = λ amounts. amounts.available;
  of_item = λ item. or_zero item.available;
  of_row = λ row. row.available;
  from_zero = refl;
  plus = λ item amounts. refl;
  inserted = λ batch_id id entry. refl;
  assigned_same = available_same;
}

abbrev reserved_column : Column
reserved_column = record {
  of_amounts = λ amounts. amounts.reserved;
  of_item = λ item. or_zero item.reserved;
  of_row = λ row. row.reserved;
  from_zero = refl;
  plus = λ item amounts. refl;
  inserted = λ batch_id id entry. refl;
  assigned_same = reserved_same;
}

add_found-IsDistinct :
    (found : Option Warehouse) (item : ImportItem) (totals : Dict (ℕ × Text) Amounts)
    → IsDistinct (keys totals)
    → IsDistinct (keys (add_found found item totals))
add_found-IsDistinct none item totals d = d
add_found-IsDistinct (some warehouse) item totals d =
    let key : ℕ × Text = (warehouse.id, text_of item.commodity_sku) in
    put-IsDistinct key (plus_item item (get_or key totals no_amounts)) totals d

pub totals_of-IsDistinct :
    (by_name : Dict Text Warehouse) (items : List ImportItem)
    → IsDistinct (keys (totals_of by_name items))
unfolding totals_of
totals_of-IsDistinct by_name items =
    for_each-keeps (λ totals. IsDistinct (keys totals)) (add_amounts by_name) items []
      (λ item totals d. add_found-IsDistinct (get item.warehouse_name_raw by_name) item totals d) tt

-- An answered call on a pending batch found one, and its body answered.
pub on_pending-answered {ℓ} :
    {A : Type ℓ} (found : Option Batch) (result : Reply A) {a : A}
    → on_pending found result ≡ answered a
    → (batch : Batch) × (found ≡ some batch)
      × (is_pending_batch batch.status ≡ true)
      × (result ≡ answered a)
on_pending-answered none result h = cc
on_pending-answered (some batch) result h =
    elim (if-cases (is_pending_batch batch.status) result (refused conflict) h) [
      | inl (q, answer) ↦ (batch, refl, q, answer)
      | inr (q, answer) ↦ cc
    ]

-- An answered confirmation found a pending batch with valid items, and applied them.
pub confirm_import_batch-applies :
    (batch_id : ℕ) (confirmed_by : Option Text) (now : Text) (inventory : Inventory)
    {after : Inventory}
    → confirm_import_batch batch_id confirmed_by now inventory ≡ answered after
    → (is_nil (valid_items_of batch_id inventory.items) ≡ false)
      × (apply_items batch_id confirmed_by now (valid_items_of batch_id inventory.items) inventory
          ≡ after)
unfolding confirm_import_batch
confirm_import_batch-applies batch_id confirmed_by now inventory h =
    let valid_items = valid_items_of batch_id inventory.items in
    let (batch, found, pending, answer) =
      on_pending-answered (find_batch batch_id inventory.batches) _ h in
    elim (if-cases (is_nil valid_items) _ _ answer) [
      | inl (q, refusal) ↦ cc
      | inr (q, rest) ↦
          elim (if-cases (fits_totals (confirmed_totals valid_items inventory)) _ _ rest) [
            | inl (fit, applied) ↦ (q, answered_inj applied)
            | inr (overflow, refusal) ↦ cc
          ]
    ]

abbrev pub confirmed_known : ℕ → Inventory → Known
confirmed_known batch_id inventory =
    known_warehouses (valid_names batch_id inventory.items) inventory.warehouses
      inventory.next_warehouse_id

apply_items-column :
    (c : Column) (key : ℕ × Text) (batch_id : ℕ) (confirmed_by : Option Text) (now : Text)
    (inventory : Inventory)
    → (let after =
          apply_items batch_id confirmed_by now
            (valid_items_of batch_id inventory.items)
            inventory in
        stock_of c.of_row key after.current
        ≡ sum_ℤ (map c.of_item (stored_at batch_id key after.items)))
unfolding apply_items known_warehouses
apply_items-column c key batch_id confirmed_by now inventory =
    let known = confirmed_known batch_id inventory in
    let totals = totals_of known.by_name (valid_items_of batch_id inventory.items) in
    stock_of-numbered c key batch_id inventory.next_current_id (insert_values totals)
    ∙ ap (λ o. c.of_amounts (elim o [ some w ↦ w | none ↦ no_amounts ]))
        (get-sorted key_le key totals
          (totals_of-IsDistinct known.by_name (valid_items_of batch_id inventory.items)))
    ∙ totals-stored c key batch_id known.by_name inventory.items
        (known_warehouses-AreNamed batch_id inventory.items _)

-- After a confirmation that is answered, the stock of every warehouse and sku is the sum over the
-- imported items of the batch that the items' table now holds for that warehouse and sku, of the
-- available and of the reserved amounts; no other stock is left.
pub confirm_import_batch-stock :
    (batch_id : ℕ) (confirmed_by : Option Text) (now : Text) (inventory : Inventory)
    {after : Inventory} (key : ℕ × Text)
    → confirm_import_batch batch_id confirmed_by now inventory ≡ answered after
    → (stock_of (λ row. row.available) key after.current
        ≡ sum_ℤ (map (λ item. or_zero item.available) (stored_at batch_id key after.items)))
      × (stock_of (λ row. row.reserved) key after.current
          ≡ sum_ℤ (map (λ item. or_zero item.reserved) (stored_at batch_id key after.items)))
confirm_import_batch-stock batch_id confirmed_by now inventory key h =
    let (valid, applied) = confirm_import_batch-applies batch_id confirmed_by now inventory h in
    subst
      (λ (t : Inventory).
        (stock_of (λ row. row.available) key t.current
          ≡ sum_ℤ (map (λ item. or_zero item.available) (stored_at batch_id key t.items)))
        × (stock_of (λ row. row.reserved) key t.current
            ≡ sum_ℤ (map (λ item. or_zero item.reserved) (stored_at batch_id key t.items))))
      applied
      (
        apply_items-column available_column key batch_id confirmed_by now inventory,
        apply_items-column reserved_column key batch_id confirmed_by now inventory,
      )
