-- ===== src/Services/ThirdParty/Confirm/Stock.antt =====
-- The stock that a confirmation leaves is what its batch holds (`confirm_import_batch`).
use restock_system.Services.ThirdParty.Confirm.{
  valid_items_of, Known, is_valid_item, is_imported, assign_warehouses, add_warehouse, totals_of,
  no_amounts, assigned, assigned_to,
}
use restock_system.Common.{
  ℕ, Text, List, Dict, Bool, elem, any, map, ◌≡◌, All, for_each, get_or, ◌==◌, true, if◌then◌else◌,
  Option, ◌∷◌, ◌&&◌, keys, All-map_to, keep_if, ◌≢◌, ap, any-keep_if, elem-sorted, none, text_eq,
  sorted, ◌∙◌, Bool-cases, leb, from_keys, arith, sym, [], inl, any-sorted, elem-from_keys, ==_refl,
  get-some_of_elem, refl, stock_key_eq, some, get, nat_eq, inr, false,
}
use restock_system.Services.ThirdParty.Confirm.Totals.{
  Column, contribution, is_stored_at, stored_at, given, totals_of-sum,
}
use restock_system.Services.ThirdParty.{ImportItem, Warehouse}
use restock_system.Services.ThirdParty.Import.{sorted_set}
use restock_system.Common.Int.{ℤ, pos, ◌+ℤ◌}
use restock_system.Engine.Total.{sum_ℤ}
use restock_system.Services.ThirdParty.Confirm.Names.{known_warehouses-found}
use restock_system.Services.Entries.{sum-keep_if, sum-sorted, elem-map, All-found, sum-congr}
use restock_system.Common.Strings.{text_le}

unfold_imported {ℓ} :
    {A : Type ℓ} (a b : Bool) (x y : A)
    → (if a then (if b then x else y) else y) ≡ (if a && b then x else y)
unfold_imported true b x y = refl
unfold_imported false b x y = refl

pub any-valid_items_of :
    (p : ImportItem → Bool) (batch_id : ℕ) (items : List ImportItem)
    → any p (valid_items_of batch_id items)
      ≡ any (λ (x : ImportItem). x.batch_id == batch_id && (is_valid_item x && p x)) items
unfolding valid_items_of
any-valid_items_of p batch_id items =
    any-keep_if p is_valid_item (
      sorted (λ a b. leb a.source_row_no b.source_row_no)
        (keep_if (λ (x : ImportItem). x.batch_id == batch_id) items))
    ∙ any-sorted (λ a b. leb a.source_row_no b.source_row_no) (λ x. is_valid_item x && p x)
        (keep_if (λ (x : ImportItem). x.batch_id == batch_id) items)
    ∙ any-keep_if (λ x. is_valid_item x && p x) (λ (x : ImportItem). x.batch_id == batch_id) items

abbrev pub valid_names : ℕ → List ImportItem → List Text
valid_names batch_id items =
    sorted_set (map (λ (x : ImportItem). x.warehouse_name_raw) (valid_items_of batch_id items))

elem-valid_names :
    (name : Text) (batch_id : ℕ) (items : List ImportItem)
    → elem name (valid_names batch_id items)
      ≡ any
          (λ (x : ImportItem).
            x.batch_id == batch_id && (is_valid_item x && x.warehouse_name_raw == name))
          items
elem-valid_names name batch_id items =
    let names = map (λ (x : ImportItem). x.warehouse_name_raw) (valid_items_of batch_id items) in
    elem-sorted text_le name (from_keys names)
    ∙ elem-from_keys name names
    ∙ elem-map (λ (x : ImportItem). x.warehouse_name_raw) name (valid_items_of batch_id items)
    ∙ any-valid_items_of (λ (x : ImportItem). x.warehouse_name_raw == name) batch_id items

-- The imported items of a batch have their warehouses in the dictionary.
abbrev pub AreNamed : ℕ → Dict Text Warehouse → List ImportItem → Type 0
AreNamed batch_id by_name items =
    All
      (λ (item : ImportItem).
        is_imported batch_id item ≡ true → elem item.warehouse_name_raw (keys by_name) ≡ true)
      items

pub known_warehouses-AreNamed :
    (batch_id : ℕ) (items : List ImportItem) (known : Known)
    → AreNamed batch_id (for_each add_warehouse (valid_names batch_id items) known).by_name items
known_warehouses-AreNamed batch_id items known =
    All-map_to (λ (item : ImportItem). (p : ImportItem → Bool) → p item ≡ true → any p items ≡ true)
      (λ (item : ImportItem).
        is_imported batch_id item ≡ true
        → elem item.warehouse_name_raw
            (keys (for_each add_warehouse (valid_names batch_id items) known).by_name)
          ≡ true)
      items
      (λ item found q.
        known_warehouses-found item.warehouse_name_raw (valid_names batch_id items) known (
          elem-valid_names item.warehouse_name_raw batch_id items
          ∙ found
              (λ (x : ImportItem).
                x.batch_id == batch_id
                && (is_valid_item x && x.warehouse_name_raw == item.warehouse_name_raw))
              (ground (arith, q, ==_refl item.warehouse_name_raw))))
      (All-found items)

module _ (c : Column) (key : ℕ × Text) (batch_id : ℕ) (by_name : Dict Text Warehouse) where
  abbrev imported_part : ImportItem → ℤ
  imported_part item = if is_imported batch_id item then contribution c key by_name item else pos 0

  abbrev stored_part : ImportItem → ℤ
  stored_part item = if is_stored_at batch_id key item then c.of_item item else pos 0

  sum-valid_items_of :
      (items : List ImportItem)
      → sum_ℤ (map (contribution c key by_name) (valid_items_of batch_id items))
        ≡ sum_ℤ (map imported_part items)
  unfolding valid_items_of
  sum-valid_items_of items =
      let f = contribution c key by_name in
      let in_batch = keep_if (λ (x : ImportItem). x.batch_id == batch_id) items in
      sum-keep_if f is_valid_item (sorted (λ a b. leb a.source_row_no b.source_row_no) in_batch)
      ∙ sum-sorted (λ x. if is_valid_item x then f x else pos 0)
          (λ a b. leb a.source_row_no b.source_row_no) in_batch
      ∙ sum-keep_if (λ x. if is_valid_item x then f x else pos 0)
          (λ (x : ImportItem). x.batch_id == batch_id) items
      ∙ sum-congr
          (λ (x : ImportItem).
            if x.batch_id == batch_id then (if is_valid_item x then f x else pos 0) else pos 0)
          imported_part items
          (λ x. unfold_imported (x.batch_id == batch_id) (is_valid_item x) (f x) (pos 0))

  stored_part-assigned :
      (item : ImportItem) (found : Option Warehouse)
      → is_imported batch_id item ≡ true
      → found ≢ none
      → given c key found item ≡ stored_part (assigned_to found item)
  unfolding is_valid_item
  stored_part-assigned item none q ne = absurd (ne refl)
  stored_part-assigned item (some warehouse) q ne =
      rw (q, c.assigned_same (some warehouse) item) refl

  imported_part-assigned :
      (item : ImportItem)
      → (is_imported batch_id item ≡ true → elem item.warehouse_name_raw (keys by_name) ≡ true)
      → imported_part item
        ≡ stored_part (if is_imported batch_id item then assigned by_name item else item)
  imported_part-assigned item named = elim (Bool-cases (is_imported batch_id item)) [
    | inl q ↦
        let (warehouse, found) = get-some_of_elem item.warehouse_name_raw by_name (named q) in
        rw q (stored_part-assigned item (get item.warehouse_name_raw by_name) q (λ absent. cc))
    | inr q ↦ rw (q, q) refl
  ]

  sum-assign_warehouses :
      (items : List ImportItem)
      → AreNamed batch_id by_name items
      → sum_ℤ (map imported_part items)
        ≡ sum_ℤ (map stored_part (assign_warehouses by_name batch_id items))
  unfolding assign_warehouses
  sum-assign_warehouses [] h = refl
  sum-assign_warehouses (item ∷ items) h =
      ap (λ n. n +ℤ sum_ℤ (map imported_part items)) (imported_part-assigned item h.0)
      ∙ ap
          (λ n.
            stored_part (if is_imported batch_id item then assigned by_name item else item) +ℤ n)
          (sum-assign_warehouses items h.1)

  pub totals-stored :
      (items : List ImportItem)
      → AreNamed batch_id by_name items
      → c.of_amounts (get_or key (totals_of by_name (valid_items_of batch_id items)) no_amounts)
        ≡ sum_ℤ (map c.of_item (stored_at batch_id key (assign_warehouses by_name batch_id items)))
  totals-stored items named =
      totals_of-sum c key by_name (valid_items_of batch_id items)
      ∙ sum-valid_items_of items
      ∙ sum-assign_warehouses items named
      ∙ sym (
          sum-keep_if c.of_item (is_stored_at batch_id key)
            (assign_warehouses by_name batch_id items))
