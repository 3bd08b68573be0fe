-- ===== src/Services/ThirdParty/Confirm/Previewed.antt =====
-- A preview, and then its confirmation (`create_import_preview`, `confirm_import_batch`).
use restock_system.Services.ThirdParty.{Inventory, Batch, Warehouse, ImportItem}
use restock_system.Services.Errors.{
  Reply, refused, validation_failed, answered, answered_inj, unhandled,
}
use restock_system.Services.ThirdParty.Confirm.{
  is_valid_item, confirm_import_batch, valid_items_of, fits_totals, confirmed_totals,
}
use restock_system.Common.{
  Dict, ℕ, Bool, List, Text, All, not, is_nil, if◌then◌else◌, Option, ◌<◌, false, ◌≡◌, any, true,
  ◌++◌, ◌==◌, some, refl, ◌∷◌, [], Bool-cases, ◌&&◌, arith, is_none, ◌∙◌, nat_beq_iff, ap, inl, suc,
  nat_eq, inr, if-cases, subst,
}
use restock_system.Services.ThirdParty.Import.{
  create_import_preview, save_preview, find_batch, preview_batch, import_item, is_valid_row,
  warehouses_by_name, is_pending_batch, on_pending, numbered, valid_warehouse_names, preview_of,
  fits_rows,
}
use restock_system.Common.Strings.{Unicode}
use restock_system.Services.ThirdParty.Parse.{ParsedRow, Cell, parse_third_party_inventory_workbook}
use restock_system.Services.ThirdParty.Parse.Checked.{
  IsChecked, parse_third_party_inventory_workbook-IsChecked,
}
use restock_system.Services.ThirdParty.Confirm.Stock.{any-valid_items_of}

-- No batch and no item has an id that the sequence of batches has still to give.
pub record IsFresh (inventory : Inventory) : Type 0 where
  pub batches : All (λ (b : Batch). b.id < inventory.next_batch_id) inventory.batches
  pub items : All (λ (item : ImportItem). item.batch_id < inventory.next_batch_id) inventory.items

abbrev pub is_answered {ℓ} : {A : Type ℓ} → Reply A → Bool
is_answered (refused e) = false
is_answered (answered a) = true

find_batch-new :
    (new : Batch) (batches : List Batch)
    → All (λ (b : Batch). b.id < new.id) batches
    → find_batch new.id (batches ++ new ∷ []) ≡ some new
find_batch-new new [] h = ground (arith, nat_beq_iff new.id new.id)
find_batch-new new (b ∷ batches) h =
    ground (arith, nat_beq_iff b.id new.id, find_batch-new new batches h.1, h.0)

-- The item of a checked row is imported when the row has no error.
is_valid_item-import_item :
    (by_name : Dict Text Warehouse) (batch_id id : ℕ) (row : ParsedRow)
    → IsChecked row
    → is_valid_item (import_item by_name batch_id id row) ≡ is_valid_row row
unfolding is_valid_item
is_valid_item-import_item by_name batch_id id row checked =
    elim (Bool-cases (is_none row.error_message)) [
      | inl q ↦
          let (named, listed, (n, stock, low), (m, held, low_)) = checked.0 q in
          rw (q, named, listed, stock, held) refl
      | inr q ↦ rw q refl
    ]

any-numbered :
    (by_name : Dict Text Warehouse) (batch_id n : ℕ) (rows : List ParsedRow)
    → All IsChecked rows
    → any
        (λ (x : ImportItem). x.batch_id == batch_id && (is_valid_item x && true))
        (numbered (import_item by_name batch_id) n rows)
      ≡ any is_valid_row rows
any-numbered by_name batch_id n [] h = refl
any-numbered by_name batch_id n (row ∷ rows) h = ground (
  arith,
  nat_beq_iff batch_id batch_id,
  is_valid_item-import_item by_name batch_id n row h.0,
  any-numbered by_name batch_id (suc n) rows h.1,
)

any-older :
    (batch_id : ℕ) (items more : List ImportItem)
    → All (λ (item : ImportItem). item.batch_id < batch_id) items
    → any (λ (x : ImportItem). x.batch_id == batch_id && (is_valid_item x && true)) (items ++ more)
      ≡ any (λ (x : ImportItem). x.batch_id == batch_id && (is_valid_item x && true)) more
any-older batch_id [] more h = refl
any-older batch_id (item ∷ items) more h =
    ground (arith, nat_beq_iff item.batch_id batch_id, any-older batch_id items more h.1, h.0)

not-not : (b : Bool) → not (not b) ≡ b
not-not true = refl
not-not false = refl

is_nil-any {ℓ} : {A : Type ℓ} (xs : List A) → is_nil xs ≡ not (any (λ x. true) xs)
is_nil-any [] = refl
is_nil-any (x ∷ xs) = refl

is_answered-if {ℓ} :
    {A : Type ℓ} (b fit : Bool) (a : A)
    → is_answered
        (if b then refused validation_failed else if fit then answered a else refused unhandled)
      ≡ (not b && fit)
is_answered-if true fit a = refl
is_answered-if false true a = refl
is_answered-if false false a = refl

-- Whether the sums of the valid items of a batch fit the columns of the stock
abbrev pub has_room : ℕ → Inventory → Bool
has_room batch_id inventory =
    fits_totals (confirmed_totals (valid_items_of batch_id inventory.items) inventory)

module _ (filename : Text) (created_by confirmed_by : Option Text) (now : Text)
    (inventory : Inventory) where
  valid_items_of-save_preview :
      (parsed_rows : List ParsedRow)
      → IsFresh inventory
      → All IsChecked parsed_rows
      → is_nil (
          valid_items_of inventory.next_batch_id
            (save_preview filename created_by parsed_rows inventory).items)
        ≡ not (any is_valid_row parsed_rows)
  unfolding save_preview preview_batch
  valid_items_of-save_preview parsed_rows fresh checked =
      let n = inventory.next_batch_id in
      let by_name = warehouses_by_name (valid_warehouse_names parsed_rows) inventory.warehouses in
      let new = numbered (import_item by_name n) inventory.next_item_id parsed_rows in
      is_nil-any (valid_items_of n (inventory.items ++ new))
      ∙ ap not (
          any-valid_items_of (λ x. true) n (inventory.items ++ new)
          ∙ any-older n inventory.items new fresh.items
          ∙ any-numbered by_name n inventory.next_item_id parsed_rows checked)

  new_batch-found :
      (parsed_rows : List ParsedRow)
      → IsFresh inventory
      → (batch : Batch) × (find_batch inventory.next_batch_id
            (save_preview filename created_by parsed_rows inventory).batches
          ≡ some batch)
        × (is_pending_batch batch.status ≡ true)
  unfolding save_preview preview_batch
  new_batch-found parsed_rows fresh = (_, find_batch-new _ inventory.batches fresh.batches, refl)

  confirm-save_preview :
      (parsed_rows : List ParsedRow)
      → IsFresh inventory
      → All IsChecked parsed_rows
      → is_answered (
          confirm_import_batch inventory.next_batch_id confirmed_by now
            (save_preview filename created_by parsed_rows inventory))
        ≡ (any is_valid_row parsed_rows
            && has_room inventory.next_batch_id
                (save_preview filename created_by parsed_rows inventory))
  unfolding confirm_import_batch
  confirm-save_preview parsed_rows fresh checked =
      let (batch, found, pending) = new_batch-found parsed_rows fresh in
      rw (found, pending, on_pending)
        (is_answered-if
            (is_nil (
              valid_items_of inventory.next_batch_id
                (save_preview filename created_by parsed_rows inventory).items))
            _ _
          ∙ ap
              (λ b.
                b
                && has_room inventory.next_batch_id
                    (save_preview filename created_by parsed_rows inventory))
              (ap not (valid_items_of-save_preview parsed_rows fresh checked)
                ∙ not-not (any is_valid_row parsed_rows)))

-- A preview that is answered can be confirmed, under the id that it gave to its batch, exactly when a row
-- of its workbook has no error and the sums over its valid rows, by warehouse and sku, fit the integer
-- columns of the stock.
pub confirm_import_batch-preview :
    (u : Unicode) (load_workbook : List ℕ → Option (List (List Cell))) (filename : Text)
    (content : List ℕ) (created_by confirmed_by : Option Text) (now : Text) (inventory : Inventory)
    {after : Inventory} {parsed_rows : List ParsedRow}
    → IsFresh inventory
    → parse_third_party_inventory_workbook u load_workbook content ≡ answered parsed_rows
    → create_import_preview u load_workbook filename content created_by inventory ≡ answered after
    → is_answered (confirm_import_batch inventory.next_batch_id confirmed_by now after)
      ≡ (any is_valid_row parsed_rows && has_room inventory.next_batch_id after)
unfolding create_import_preview
confirm_import_batch-preview u load_workbook filename content created_by confirmed_by now inventory
      {after} {parsed_rows} fresh parsed previewed =
    let (some_row, checked) =
      parse_third_party_inventory_workbook-IsChecked u load_workbook content parsed in
    let run = rw (parsed, preview_of) at previewed in
    elim (if-cases (fits_rows parsed_rows) _ _ run) [
      | inl (fit, saved) ↦
          subst
            (λ (t : Inventory).
              is_answered (confirm_import_batch inventory.next_batch_id confirmed_by now t)
              ≡ (any is_valid_row parsed_rows && has_room inventory.next_batch_id t))
            (answered_inj saved)
            (confirm-save_preview filename created_by confirmed_by now inventory parsed_rows fresh
              checked)
      | inr (overflow, refusal) ↦ cc
    ]
