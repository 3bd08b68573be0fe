-- ===== src/Services/ThirdParty/Confirm/Totals.antt =====
-- The stock that a confirmation leaves, against the items of its batch.
use restock_system.Services.ThirdParty.{CurrentItem, ImportItem, Warehouse}
use restock_system.Common.{
  ℕ, Option, Text, List, Bool, Dict, false, keep_if, get, get_or, ◌&&◌, ◌≡◌, for_each, ◌∷◌, some,
  if◌then◌else◌, ◌==◌, sym, map, Bool-cases, none, text_eq, [], nat_eq, inl, ◌∙◌, stock_key_eq, inr,
  ap, suc, get_or-put,
}
use restock_system.Services.ThirdParty.Confirm.{
  Amounts, totals_of, is_imported, no_amounts, imported_item, plus_item, add_amounts, add_found,
  assigned_to,
}
use restock_system.Common.Int.{ℤ, pos, ◌+ℤ◌, +ℤ-zero_right, +ℤ_assoc, +ℤ-zero_left}
use restock_system.Services.ThirdParty.Import.{numbered}
use restock_system.Core.Countries.{text_of}
use restock_system.Engine.Total.{sum_ℤ}
use restock_system.Services.ThirdParty.Current.{stock_key_of}

-- A column of the row of a warehouse and a sku, and zero without one
abbrev pub stock_of : (CurrentItem → ℤ) → ℕ × Text → List CurrentItem → ℤ
stock_of column key [] = pos 0
stock_of column key (row ∷ rows) =
    if stock_key_of row == key then column row else stock_of column key rows

abbrev pub is_at : ℕ → Option ℕ → Bool
is_at warehouse_id none = false
is_at warehouse_id (some i) = i == warehouse_id

-- An imported item of a batch, in a warehouse and of a sku
abbrev pub is_stored_at : ℕ → ℕ × Text → ImportItem → Bool
is_stored_at batch_id (warehouse_id, commodity_sku) item =
    is_imported batch_id item
    && is_at warehouse_id item.warehouse_id
    && text_of item.commodity_sku == commodity_sku

abbrev pub stored_at : ℕ → ℕ × Text → List ImportItem → List ImportItem
stored_at batch_id key = keep_if (is_stored_at batch_id key)

-- One of the two columns: in a sum, in an item and in a row
pub record Column : Type 0 where
  pub of_amounts : Amounts → ℤ
  pub of_item : ImportItem → ℤ
  pub of_row : CurrentItem → ℤ
  pub from_zero : of_amounts no_amounts ≡ pos 0
  pub plus :
      (item : ImportItem) (amounts : Amounts)
      → of_amounts (plus_item item amounts) ≡ of_amounts amounts +ℤ of_item item
  pub inserted :
      (batch_id id : ℕ) (entry : (ℕ × Text) × Amounts)
      → of_row (imported_item batch_id id entry) ≡ of_amounts entry.1
  pub assigned_same :
      (warehouse : Option Warehouse) (item : ImportItem)
      → of_item (assigned_to warehouse item) ≡ of_item item

module _ (c : Column) (key : ℕ × Text) where
  abbrev pub given : Option Warehouse → ImportItem → ℤ
  given none item = pos 0
  given (some warehouse) item =
      if (warehouse.id, text_of item.commodity_sku) == key then c.of_item item else pos 0

  abbrev pub contribution : Dict Text Warehouse → ImportItem → ℤ
  contribution by_name item = given (get item.warehouse_name_raw by_name) item

  add_found-adds :
      (found : Option Warehouse) (item : ImportItem) (totals : Dict (ℕ × Text) Amounts)
      → c.of_amounts (get_or key (add_found found item totals) no_amounts)
        ≡ c.of_amounts (get_or key totals no_amounts) +ℤ given found item
  add_found-adds none item totals =
      sym (+ℤ-zero_right (c.of_amounts (get_or key totals no_amounts)))
  add_found-adds (some warehouse) item totals =
      let k : ℕ × Text = (warehouse.id, text_of item.commodity_sku) in
      let written = plus_item item (get_or k totals no_amounts) in
      ap c.of_amounts (get_or-put k key written no_amounts totals) ∙ elim (Bool-cases (k == key)) [
        | inl q ↦ rw q (
            c.plus item (get_or k totals no_amounts)
            ∙ ap (λ j. c.of_amounts (get_or j totals no_amounts) +ℤ c.of_item item)
                ((stock_key_eq.same_iff k key).0 q))
        | inr q ↦ rw q (sym (+ℤ-zero_right (c.of_amounts (get_or key totals no_amounts))))
      ]

  for_each-add_amounts :
      (by_name : Dict Text Warehouse) (items : List ImportItem) (totals : Dict (ℕ × Text) Amounts)
      → c.of_amounts (get_or key (for_each (add_amounts by_name) items totals) no_amounts)
        ≡ c.of_amounts (get_or key totals no_amounts) +ℤ sum_ℤ (map (contribution by_name) items)
  for_each-add_amounts by_name [] totals =
      sym (+ℤ-zero_right (c.of_amounts (get_or key totals no_amounts)))
  for_each-add_amounts by_name (item ∷ items) totals =
      for_each-add_amounts by_name items (add_amounts by_name item totals)
      ∙ ap (λ n. n +ℤ sum_ℤ (map (contribution by_name) items))
          (add_found-adds (get item.warehouse_name_raw by_name) item totals)
      ∙ +ℤ_assoc (c.of_amounts (get_or key totals no_amounts)) (contribution by_name item)
          (sum_ℤ (map (contribution by_name) items))

  pub totals_of-sum :
      (by_name : Dict Text Warehouse) (items : List ImportItem)
      → c.of_amounts (get_or key (totals_of by_name items) no_amounts)
        ≡ sum_ℤ (map (contribution by_name) items)
  unfolding totals_of
  totals_of-sum by_name items =
      for_each-add_amounts by_name items []
      ∙ ap (λ n. n +ℤ sum_ℤ (map (contribution by_name) items)) c.from_zero
      ∙ +ℤ-zero_left (sum_ℤ (map (contribution by_name) items))

  -- The inserted rows hold what the entries hold.
  pub stock_of-numbered :
      (batch_id n : ℕ) (entries : Dict (ℕ × Text) Amounts)
      → stock_of c.of_row key (numbered (imported_item batch_id) n entries)
        ≡ c.of_amounts (get_or key entries no_amounts)
  stock_of-numbered batch_id n [] = sym c.from_zero
  stock_of-numbered batch_id n ((k, amounts) ∷ entries) = elim (Bool-cases (k == key)) [
    | inl q ↦ rw (q, get_or) (c.inserted batch_id n (k, amounts))
    | inr q ↦ rw (q, get_or) (stock_of-numbered batch_id (suc n) entries)
  ]
