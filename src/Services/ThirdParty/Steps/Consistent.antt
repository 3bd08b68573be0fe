-- ===== src/Services/ThirdParty/Steps/Consistent.antt =====
-- What every call keeps of the tables: the two unique constraints, the ids and the foreign key of the
-- current stock.
use mathlib.Core.List.{map-append}
use restock_system.Services.ThirdParty.{Inventory, CurrentItem, Warehouse}
use restock_system.Common.{
  List, ℕ, Eq, Bool, IsDistinct, All, Option, ◌≡◌, elem, ◌<◌, Dict, Text, Bool-cases, map, not,
  true, some, false, suc, keep_if, ◌==◌, ◌∷◌, arith, All-map_to, keys, keep_if-All, nat_eq, inl,
  nat_beq_iff, [], text_eq, inr, refl, stock_key_eq, sorted-IsDistinct, sorted-All, snoc-IsDistinct,
  All-snoc,
}
use restock_system.Services.ThirdParty.Current.{
  insert_or_update, others_of, find_warehouse, update_at, set_current, stock_key_of, stock_keys_of,
}
use restock_system.Services.ThirdParty.Confirm.Warehouses.{
  names_of, warehouse_ids, known_warehouses-IsKnown, totals_of-in,
}
use restock_system.Services.ThirdParty.Confirm.{
  Amounts, apply_items, valid_items_of, imported_item, totals_of, insert_values, key_le,
}
use restock_system.Services.ThirdParty.Steps.CurrentRows.{
  current_ids, set_current-IsDistinct, keys-update_at, ids-set_current, ids-update_at,
  keys-numbered, ids-numbered-IsDistinct, ids-numbered-fresh,
}
use restock_system.Services.ThirdParty.Import.{numbered}
use restock_system.Services.ThirdParty.Confirm.Applied.{confirmed_known, totals_of-IsDistinct}
use restock_system.Services.ThirdParty.Confirm.Stock.{valid_names}
use restock_system.Services.Entries.{keys-sorted}

pub record IsConsistent (inventory : Inventory) : Type 0 where
  pub unique_names : IsDistinct (names_of inventory.warehouses)
  pub unique_keys : IsDistinct (stock_keys_of inventory.current)
  pub unique_ids : IsDistinct (current_ids inventory.current)
  pub fresh : All (λ i. i < inventory.next_current_id) (current_ids inventory.current)
  pub in_warehouses :
      All
        (λ (row : CurrentItem). elem row.warehouse_id (warehouse_ids inventory.warehouses) ≡ true)
        inventory.current

abbrev HasWarehouse : List Warehouse → CurrentItem → Type 0
HasWarehouse warehouses row = elem row.warehouse_id (warehouse_ids warehouses) ≡ true

pub find_warehouse-elem :
    (i : ℕ) (warehouses : List Warehouse) {warehouse : Warehouse}
    → find_warehouse i warehouses ≡ some warehouse
    → elem i (warehouse_ids warehouses) ≡ true
find_warehouse-elem i [] h = cc
find_warehouse-elem i (row ∷ rows) {warehouse} h =
    ground (arith, find_warehouse-elem i rows {warehouse = warehouse}, h)

fresh-absent : (n : ℕ) (is : List ℕ) → All (λ i. i < n) is → elem n is ≡ false
fresh-absent n [] h = refl
fresh-absent n (i ∷ is) h = ground (arith, nat_beq_iff i n, fresh-absent n is h.1, h.0)

one_more : (n : ℕ) (is : List ℕ) → All (λ i. i < n) is → All (λ i. i < suc n) is
one_more n is h = All-map_to (λ i. i < n) (λ i. i < suc n) is (λ i below. omega (arith, below)) h

numbered-in :
    (batch_id n : ℕ) (warehouses : List Warehouse) (entries : Dict (ℕ × Text) Amounts)
    → All (λ (key : ℕ × Text). elem key.0 (warehouse_ids warehouses) ≡ true) (keys entries)
    → All (HasWarehouse warehouses) (numbered (imported_item batch_id) n entries)
numbered-in batch_id n warehouses [] h = tt
numbered-in batch_id n warehouses ((key, amounts) ∷ entries) h =
    (h.0, numbered-in batch_id (suc n) warehouses entries h.1)

module _ (batch_id : ℕ) (confirmed_by : Option Text) (now : Text) (before : Inventory) where
  pub apply_items-IsConsistent :
      IsConsistent before
      → IsConsistent
          (apply_items batch_id confirmed_by now (valid_items_of batch_id before.items) before)
  unfolding apply_items
  apply_items-IsConsistent c =
      let known = confirmed_known batch_id before in
      let k =
        known_warehouses-IsKnown (valid_names batch_id before.items) before.warehouses
          before.next_warehouse_id c.unique_names in
      let items = valid_items_of batch_id before.items in
      let totals = totals_of known.by_name items in
      let entries = insert_values totals in
      let sorted_keys = keys-sorted key_le totals in
      record {
        unique_names = k.unique_names;
        unique_keys = rw (keys-numbered batch_id before.next_current_id entries) (
            rw sorted_keys
              (sorted-IsDistinct key_le (keys totals) (totals_of-IsDistinct known.by_name items)));
        unique_ids = ids-numbered-IsDistinct batch_id before.next_current_id entries;
        fresh = ids-numbered-fresh batch_id before.next_current_id _ entries (omega arith);
        in_warehouses = numbered-in batch_id before.next_current_id known.warehouses entries (
            rw sorted_keys (
              sorted-All key_le
                (λ (key : ℕ × Text). elem key.0 (warehouse_ids known.warehouses) ≡ true)
                (keys totals) (totals_of-in known.warehouses known.by_name items k.stored)));
      }

update_at-in :
    (warehouses : List Warehouse) (new : CurrentItem) (rows : List CurrentItem)
    → HasWarehouse warehouses new
    → All (HasWarehouse warehouses) rows
    → All (HasWarehouse warehouses) (update_at new rows)
update_at-in warehouses new [] p h = tt
update_at-in warehouses new (row ∷ rows) p h =
    elim (Bool-cases (stock_key_of row == stock_key_of new)) [
      | inl q ↦ rw q (p, update_at-in warehouses new rows p h.1)
      | inr q ↦ rw q (h.0, update_at-in warehouses new rows p h.1)
    ]

set_current-in :
    (warehouses : List Warehouse) (new : CurrentItem) (rows : List CurrentItem)
    → HasWarehouse warehouses new
    → All (HasWarehouse warehouses) rows
    → All (HasWarehouse warehouses) (set_current new rows)
set_current-in warehouses new [] p h = tt
set_current-in warehouses new (row ∷ rows) p h = elim (Bool-cases (row.id == new.id)) [
  | inl q ↦ rw q (p, set_current-in warehouses new rows p h.1)
  | inr q ↦ rw q (h.0, set_current-in warehouses new rows p h.1)
]

pub insert_or_update-IsConsistent :
    (new : CurrentItem) (before : Inventory)
    → new.id ≡ before.next_current_id
    → HasWarehouse before.warehouses new
    → IsConsistent before
    → IsConsistent (insert_or_update new before)
unfolding insert_or_update
insert_or_update-IsConsistent new before numbered_next known c =
    elim (Bool-cases (elem (stock_key_of new) (stock_keys_of before.current))) [
      | inl q ↦ rw q (record {
        unique_names = c.unique_names;
        unique_keys = rw (keys-update_at new before.current) c.unique_keys;
        unique_ids = rw (ids-update_at new before.current) c.unique_ids;
        fresh =
            rw (ids-update_at new before.current)
              (one_more before.next_current_id (current_ids before.current) c.fresh);
        in_warehouses = update_at-in before.warehouses new before.current known c.in_warehouses;
      })
      | inr q ↦ rw q (record {
        unique_names = c.unique_names;
        unique_keys =
            rw (map-append stock_key_of before.current (new ∷ []))
              (snoc-IsDistinct (stock_key_of new) (stock_keys_of before.current) q c.unique_keys);
        unique_ids = rw (map-append (λ (row : CurrentItem). row.id) before.current (new ∷ [])) (
            snoc-IsDistinct new.id (current_ids before.current)
              (rw numbered_next
                (fresh-absent before.next_current_id (current_ids before.current) c.fresh))
              c.unique_ids);
        fresh = rw (map-append (λ (row : CurrentItem). row.id) before.current (new ∷ [])) (
            All-snoc (λ i. i < suc before.next_current_id) (current_ids before.current) new.id
              (one_more before.next_current_id (current_ids before.current) c.fresh)
              (omega (arith, numbered_next)));
        in_warehouses =
            All-snoc (HasWarehouse before.warehouses) before.current new c.in_warehouses known;
      })
    ]

pub set_current-IsConsistent :
    (new : CurrentItem) (before : Inventory)
    → elem (stock_key_of new) (stock_keys_of (others_of new.id before.current)) ≡ false
    → HasWarehouse before.warehouses new
    → IsConsistent before
    → IsConsistent (record before { current = set_current new before.current })
set_current-IsConsistent new before free known c = record {
  unique_names = c.unique_names;
  unique_keys = set_current-IsDistinct new before.current c.unique_ids free c.unique_keys;
  unique_ids = rw (ids-set_current new before.current) c.unique_ids;
  fresh = rw (ids-set_current new before.current) c.fresh;
  in_warehouses = set_current-in before.warehouses new before.current known c.in_warehouses;
}

module _ {ℓ κ} {A : Type ℓ} {B : Type κ} ⦃e : Eq B⦄ (f : A → B) (p : A → Bool) where
  elem-map-keep_if :
      (b : B) (xs : List A) → elem b (map f xs) ≡ false → elem b (map f (keep_if p xs)) ≡ false
  elem-map-keep_if b [] h = refl
  elem-map-keep_if b (x ∷ xs) h = elim (Bool-cases (p x)) [
    | inl q ↦ rw q (ground (arith, elem-map-keep_if b xs, h))
    | inr q ↦ rw q (elem-map-keep_if b xs (ground (arith, h)))
  ]

  map-keep_if-IsDistinct : (xs : List A) → IsDistinct (map f xs) → IsDistinct (map f (keep_if p xs))
  map-keep_if-IsDistinct [] d = tt
  map-keep_if-IsDistinct (x ∷ xs) d = elim (Bool-cases (p x)) [
    | inl q ↦ rw q (elem-map-keep_if (f x) xs d.0, map-keep_if-IsDistinct xs d.1)
    | inr q ↦ rw q (map-keep_if-IsDistinct xs d.1)
  ]

map-keep_if-All {ℓ κ} :
    {A : Type ℓ} {B : Type κ} (P : B → Type 0) (f : A → B) (p : A → Bool) (xs : List A)
    → All P (map f xs)
    → All P (map f (keep_if p xs))
map-keep_if-All P f p [] h = tt
map-keep_if-All P f p (x ∷ xs) h = elim (Bool-cases (p x)) [
  | inl q ↦ rw q (h.0, map-keep_if-All P f p xs h.1)
  | inr q ↦ rw q (map-keep_if-All P f p xs h.1)
]

pub others_of-IsConsistent :
    (i : ℕ) (before : Inventory)
    → IsConsistent before
    → IsConsistent (record before { current = others_of i before.current })
others_of-IsConsistent i before c =
    let p : CurrentItem → Bool = λ row. not (row.id == i) in
    record {
      unique_names = c.unique_names;
      unique_keys = map-keep_if-IsDistinct stock_key_of p before.current c.unique_keys;
      unique_ids =
          map-keep_if-IsDistinct (λ (row : CurrentItem). row.id) p before.current c.unique_ids;
      fresh =
          map-keep_if-All (λ n. n < before.next_current_id) (λ (row : CurrentItem). row.id) p
            before.current c.fresh;
      in_warehouses = keep_if-All (HasWarehouse before.warehouses) p before.current c.in_warehouses;
    }

-- A change of the batches and items alone
pub same_stock :
    (before after : Inventory)
    → after.warehouses ≡ before.warehouses
    → after.current ≡ before.current
    → after.next_current_id ≡ before.next_current_id
    → IsConsistent before
    → IsConsistent after
same_stock before after ws cs n c = record {
  unique_names = rw ws c.unique_names;
  unique_keys = rw cs c.unique_keys;
  unique_ids = rw cs c.unique_ids;
  fresh = rw (cs, n) c.fresh;
  in_warehouses = rw (ws, cs) c.in_warehouses;
}
