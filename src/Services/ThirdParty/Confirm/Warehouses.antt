-- ===== src/Services/ThirdParty/Confirm/Warehouses.antt =====
-- The warehouses that a confirmation leaves: their names stay distinct, and its stock is in them.
use mathlib.Core.List.{map-append}
use restock_system.Common.{
  List, Text, ℕ, map, elem, ◌++◌, All, Dict, IsDistinct, Option, ◌≡◌, ◌∷◌, All-map_to, ◌||◌, values,
  keep_if, text_eq, true, [], any, Bool, keys, for_each, false, none, ◌==◌, ◌∙◌, arith, some,
  for_each-keeps, nat_eq, Bool-cases, sym, ap, ==_refl, put, any-keep_if, keep_if-All, elem-append,
  elem-keys-put, All-values-put, any-congr, get, refl, inl, ◌&&◌, All-keys-put, All-values-get, inr,
  snoc-IsDistinct, get_or, stock_key_eq,
}
use restock_system.Services.ThirdParty.{Warehouse, ImportItem}
use restock_system.Services.ThirdParty.Import.{warehouses_by_name, note_warehouse}
use restock_system.Services.ThirdParty.Confirm.{
  known_warehouses, totals_of, Known, Amounts, add_warehouse, add_found, add_amounts, plus_item,
  no_amounts,
}
use restock_system.Services.Entries.{elem-map, All-found}
use restock_system.Core.Countries.{text_of}

abbrev pub names_of : List Warehouse → List Text
names_of = map (λ (row : Warehouse). row.name)

abbrev pub warehouse_ids : List Warehouse → List ℕ
warehouse_ids = map (λ (row : Warehouse). row.id)

-- The warehouse stands in the table.
abbrev pub IsIn : List Warehouse → Warehouse → Type 0
IsIn warehouses row = elem row.id (warehouse_ids warehouses) ≡ true

-- What the loop over the names keeps: the dictionary holds warehouses of the table, and those of them
-- that are named
pub record IsKnown (names : List Text) (known : Known) : Type 0 where
  pub unique_names : IsDistinct (names_of known.warehouses)
  pub complete :
      (name : Text)
      → elem name names ≡ true
      → elem name (names_of known.warehouses) ≡ true
      → elem name (keys known.by_name) ≡ true
  pub stored : All (IsIn known.warehouses) (values known.by_name)

IsIn-snoc :
    (warehouses : List Warehouse) (new row : Warehouse)
    → IsIn warehouses row
    → IsIn (warehouses ++ new ∷ []) row
IsIn-snoc warehouses new row h =
    rw (map-append (λ (w : Warehouse). w.id) warehouses (new ∷ []))
      (elem-append row.id (warehouse_ids warehouses) (new.id ∷ []) ∙ ground (arith, h))

new-IsIn : (warehouses : List Warehouse) (new : Warehouse) → IsIn (warehouses ++ new ∷ []) new
new-IsIn warehouses new = rw (map-append (λ (w : Warehouse). w.id) warehouses (new ∷ [])) (
    elem-append new.id (warehouse_ids warehouses) (new.id ∷ [])
    ∙ ground (arith, nat_eq.same_iff new.id new.id))

names_of-snoc :
    (warehouses : List Warehouse) (new : Warehouse)
    → names_of (warehouses ++ new ∷ []) ≡ names_of warehouses ++ new.name ∷ []
names_of-snoc warehouses new = map-append (λ (w : Warehouse). w.name) warehouses (new ∷ [])

absent_of_unknown :
    (names : List Text) (known : Known) (name : Text)
    → IsKnown names known
    → elem name names ≡ true
    → elem name (keys known.by_name) ≡ false
    → elem name (names_of known.warehouses) ≡ false
absent_of_unknown names known name k asked unknown =
    elim (Bool-cases (elem name (names_of known.warehouses))) [
      | inl there ↦ let found = k.complete name asked there in cc
      | inr absent ↦ absent
    ]

add_warehouse_complete :
    (names : List Text) (known : Known) (name other : Text)
    → IsKnown names known
    → elem other names ≡ true
    → elem other (
        names_of
          (known.warehouses ++ record { id = known.next_id; name = name; country = none } ∷ []))
      ≡ true
    → (name == other || elem other (keys known.by_name)) ≡ true
add_warehouse_complete names known name other k wanted there =
    let new : Warehouse = record { id = known.next_id; name = name; country = none } in
    let split =
      sym (elem-append other (names_of known.warehouses) (name ∷ []))
      ∙ ap (elem other) (sym (names_of-snoc known.warehouses new))
      ∙ there in
    ground (arith, split, k.complete other wanted)

add_warehouse-IsKnown :
    (names : List Text) (known : Known) (name : Text)
    → elem name names ≡ true
    → IsKnown names known
    → IsKnown names (add_warehouse name known)
add_warehouse-IsKnown names known name asked k =
    let new : Warehouse = record { id = known.next_id; name = name; country = none } in
    elim (Bool-cases (elem name (keys known.by_name))) [
      | inl q ↦ rw q k
      | inr q ↦ rw q (record {
        unique_names = rw (names_of-snoc known.warehouses new) (
            snoc-IsDistinct name (names_of known.warehouses)
              (absent_of_unknown names known name k asked q) k.unique_names);
        complete = λ other wanted there.
            elem-keys-put name other new known.by_name
            ∙ add_warehouse_complete names known name other k wanted there;
        stored =
            All-values-put (IsIn (known.warehouses ++ new ∷ [])) name new known.by_name
              (new-IsIn known.warehouses new)
              (All-map_to (IsIn known.warehouses) (IsIn (known.warehouses ++ new ∷ []))
                (values known.by_name) (IsIn-snoc known.warehouses new) k.stored);
      })
    ]

for_each-IsKnown :
    (names more : List Text) (known : Known)
    → All (λ (name : Text). elem name names ≡ true) more
    → IsKnown names known
    → IsKnown names (for_each add_warehouse more known)
for_each-IsKnown names [] known asked k = k
for_each-IsKnown names (name ∷ more) known asked k =
    for_each-IsKnown names more (add_warehouse name known) asked.1
      (add_warehouse-IsKnown names known name asked.0 k)

elem-any : (name : Text) (names : List Text) → elem name names ≡ any (λ t. t == name) names
elem-any name [] = refl
elem-any name (t ∷ names) = ap (λ b. t == name || b) (elem-any name names)

all_asked : (names : List Text) → All (λ (name : Text). elem name names ≡ true) names
all_asked names =
    All-map_to (λ (name : Text). (p : Text → Bool) → p name ≡ true → any p names ≡ true)
      (λ (name : Text). elem name names ≡ true) names
      (λ name found. elem-any name names ∙ found (λ t. t == name) (==_refl name)) (All-found names)

all-IsIn : (warehouses : List Warehouse) → All (IsIn warehouses) warehouses
all-IsIn warehouses =
    All-map_to
      (λ (row : Warehouse). (p : Warehouse → Bool) → p row ≡ true → any p warehouses ≡ true)
      (IsIn warehouses) warehouses
      (λ row found.
        elem-map (λ (w : Warehouse). w.id) row.id warehouses
        ∙ found (λ (w : Warehouse). w.id == row.id) (==_refl row.id))
      (All-found warehouses)

keys-note_warehouse :
    (name : Text) (rows : List Warehouse) (by_name : Dict Text Warehouse)
    → (elem name (names_of rows) || elem name (keys by_name)) ≡ true
    → elem name (keys (for_each note_warehouse rows by_name)) ≡ true
keys-note_warehouse name [] by_name h = h
keys-note_warehouse name (row ∷ rows) by_name h =
    keys-note_warehouse name rows (put row.name row by_name)
      (ground (arith, elem-keys-put row.name name row by_name, h))

values-note_warehouse :
    (P : Warehouse → Type 0) (rows : List Warehouse) (by_name : Dict Text Warehouse)
    → All P rows
    → All P (values by_name)
    → All P (values (for_each note_warehouse rows by_name))
values-note_warehouse P [] by_name h k = k
values-note_warehouse P (row ∷ rows) by_name h k =
    values-note_warehouse P rows (put row.name row by_name) h.1
      (All-values-put P row.name row by_name h.0 k)

named_rows :
    (name : Text) (names : List Text) (warehouses : List Warehouse)
    → elem name names ≡ true
    → elem name (names_of warehouses) ≡ true
    → elem name (names_of (keep_if (λ (row : Warehouse). elem row.name names) warehouses)) ≡ true
named_rows name names warehouses asked there =
    elem-map (λ (w : Warehouse). w.name) name
      (keep_if (λ (row : Warehouse). elem row.name names) warehouses)
    ∙ any-keep_if (λ (w : Warehouse). w.name == name) (λ (w : Warehouse). elem w.name names)
        warehouses
    ∙ any-congr (λ (w : Warehouse). elem w.name names && w.name == name)
        (λ (w : Warehouse). w.name == name) warehouses
        (λ w. ground (arith, text_eq.same_iff w.name name, asked))
    ∙ sym (elem-map (λ (w : Warehouse). w.name) name warehouses)
    ∙ there

warehouses_by_name-IsKnown :
    (names : List Text) (warehouses : List Warehouse) (next_id : ℕ)
    → IsDistinct (names_of warehouses)
    → IsKnown names (record {
      by_name = warehouses_by_name names warehouses;
      warehouses = warehouses;
      next_id = next_id;
    })
unfolding warehouses_by_name
warehouses_by_name-IsKnown names warehouses next_id d = record {
  unique_names = d;
  complete = λ name asked there.
      let rows = keep_if (λ (row : Warehouse). elem row.name names) warehouses in
      keys-note_warehouse name rows []
        (ground (arith, named_rows name names warehouses asked there));
  stored =
      let rows = keep_if (λ (row : Warehouse). elem row.name names) warehouses in
      values-note_warehouse (IsIn warehouses) rows []
        (keep_if-All (IsIn warehouses) (λ (row : Warehouse). elem row.name names) warehouses
          (all-IsIn warehouses))
        tt;
}

pub known_warehouses-IsKnown :
    (names : List Text) (warehouses : List Warehouse) (next_id : ℕ)
    → IsDistinct (names_of warehouses)
    → IsKnown names (known_warehouses names warehouses next_id)
unfolding known_warehouses
known_warehouses-IsKnown names warehouses next_id d =
    for_each-IsKnown names names _ (all_asked names)
      (warehouses_by_name-IsKnown names warehouses next_id d)

-- The keys of the totals are in the table, as the warehouses are.
add_found-in :
    (P : ℕ → Type 0) (found : Option Warehouse) (item : ImportItem)
    (totals : Dict (ℕ × Text) Amounts)
    → ((warehouse : Warehouse) → found ≡ some warehouse → P warehouse.id)
    → All (λ (key : ℕ × Text). P key.0) (keys totals)
    → All (λ (key : ℕ × Text). P key.0) (keys (add_found found item totals))
add_found-in P none item totals known h = h
add_found-in P (some warehouse) item totals known h =
    let key : ℕ × Text = (warehouse.id, text_of item.commodity_sku) in
    All-keys-put (λ (key : ℕ × Text). P key.0) key (plus_item item (get_or key totals no_amounts))
      totals (known warehouse refl) h

pub totals_of-in :
    (warehouses : List Warehouse) (by_name : Dict Text Warehouse) (items : List ImportItem)
    → All (IsIn warehouses) (values by_name)
    → All
        (λ (key : ℕ × Text). elem key.0 (warehouse_ids warehouses) ≡ true)
        (keys (totals_of by_name items))
unfolding totals_of
totals_of-in warehouses by_name items stored =
    let P : ℕ → Type 0 = λ i. elem i (warehouse_ids warehouses) ≡ true in
    for_each-keeps (λ totals. All (λ (key : ℕ × Text). P key.0) (keys totals)) (add_amounts by_name)
      items []
      (λ item totals h.
        add_found-in P (get item.warehouse_name_raw by_name) item totals
          (λ warehouse q.
            All-values-get (IsIn warehouses) item.warehouse_name_raw warehouse by_name q stored)
          h)
      tt
