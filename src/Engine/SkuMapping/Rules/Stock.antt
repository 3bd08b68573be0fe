-- ===== src/Engine/SkuMapping/Rules/Stock.antt =====
-- The totals of loaded and merged stock (backend/app/engine/sku_mapping.py).
use restock_system.Engine.SkuMapping.{WarehouseStock, add_stock, merge_warehouse_stock, merge_entry}
use restock_system.Common.{
  Dict, Text, List, put, ◌≡◌, get, for_each, map, values, ◌∷◌, [], ◌==◌, inl, inr, pair_eq, ◌∙◌, ap,
  sym, get_or, text_eq, Option, subst, refl, if-cases, some,
}
use restock_system.Engine.SkuMapping.Rules.{load_stock_rows, StockRow, add_stock_row, int_or_zero}
use restock_system.Common.Int.{
  ℤ, ◌+ℤ◌, int_laws, +ℤ_swap_right, +ℤ-zero_left, +ℤ_assoc, +ℤ-zero_right, pos, +ℤ_comm,
}
use restock_system.Engine.Total.{sum_ℤ}

abbrev pub stock_sum : Dict (Text × Text) WarehouseStock → ℤ
stock_sum stock = sum_ℤ (map (λ (s : WarehouseStock). s.total) (values stock))

stock_sum-put_found :
    (key : Text × Text) (s : WarehouseStock) (d : Dict (Text × Text) WarehouseStock)
    (found : Option WarehouseStock)
    → get key d ≡ found
    → stock_sum (put key (add_stock found s) d) ≡ stock_sum d +ℤ s.total
stock_sum-put_found key s [] found h =
    subst (λ o. (add_stock o s).total +ℤ pos 0 ≡ pos 0 +ℤ s.total) h (+ℤ_comm s.total (pos 0))
stock_sum-put_found key s ((j, w) ∷ d) found h = elim (if-cases (j == key) (some w) (get key d) h) [
  | inl (q, here) ↦ rw q (
      subst (λ o. (add_stock o s).total +ℤ stock_sum d ≡ w.total +ℤ stock_sum d +ℤ s.total) here
        (+ℤ_swap_right w.total s.total (stock_sum d)))
  | inr (q, later) ↦ rw q (
      ap (λ n. w.total +ℤ n) (stock_sum-put_found key s d found later)
      ∙ sym (+ℤ_assoc w.total (stock_sum d) s.total))
]

stock_sum-put :
    (key : Text × Text) (s : WarehouseStock) (d : Dict (Text × Text) WarehouseStock)
    → stock_sum (put key (add_stock (get key d) s) d) ≡ stock_sum d +ℤ s.total
stock_sum-put key s d = stock_sum-put_found key s d (get key d) refl

abbrev pub rows_total : List StockRow → ℤ
rows_total rows = sum_ℤ (map (λ (r : StockRow). int_or_zero r.total) rows)

load_stock_rows-from :
    (sku_groups : Dict Text Text) (rows : List StockRow) (d : Dict (Text × Text) WarehouseStock)
    → stock_sum (for_each (add_stock_row sku_groups) rows d) ≡ stock_sum d +ℤ rows_total rows
load_stock_rows-from sku_groups [] d = grind int_laws
load_stock_rows-from sku_groups (r ∷ rows) d =
    let stock : WarehouseStock = record { country = r.country; total = int_or_zero r.total } in
    load_stock_rows-from sku_groups rows (add_stock_row sku_groups r d)
    ∙ ap (λ n. n +ℤ rows_total rows)
        (stock_sum-put (get_or r.sku sku_groups r.sku, r.warehouse_id) stock d)
    ∙ +ℤ_assoc (stock_sum d) stock.total (rows_total rows)

-- What is loaded by sku and warehouse adds up to what the rows have, however the skus are grouped.
pub stock_sum-load_stock_rows :
    (sku_groups : Dict Text Text) (rows : List StockRow)
    → stock_sum (load_stock_rows sku_groups rows) ≡ rows_total rows
unfolding load_stock_rows
stock_sum-load_stock_rows sku_groups rows =
    load_stock_rows-from sku_groups rows [] ∙ +ℤ-zero_left (rows_total rows)

merge_entries-from :
    (entries d : Dict (Text × Text) WarehouseStock)
    → stock_sum (for_each merge_entry entries d) ≡ stock_sum d +ℤ stock_sum entries
merge_entries-from [] d = sym (+ℤ-zero_right (stock_sum d))
merge_entries-from ((key, stock) ∷ entries) d =
    merge_entries-from entries (put key (add_stock (get key d) stock) d)
    ∙ ap (λ n. n +ℤ stock_sum entries) (stock_sum-put key stock d)
    ∙ +ℤ_assoc (stock_sum d) stock.total (stock_sum entries)

merge_maps-from :
    (maps : List (Dict (Text × Text) WarehouseStock)) (d : Dict (Text × Text) WarehouseStock)
    → stock_sum (for_each (for_each merge_entry) maps d) ≡ stock_sum d +ℤ sum_ℤ (map stock_sum maps)
merge_maps-from [] d = sym (+ℤ-zero_right (stock_sum d))
merge_maps-from (m ∷ maps) d =
    merge_maps-from maps (for_each merge_entry m d)
    ∙ ap (λ n. n +ℤ sum_ℤ (map stock_sum maps)) (merge_entries-from m d)
    ∙ +ℤ_assoc (stock_sum d) (stock_sum m) (sum_ℤ (map stock_sum maps))

-- The merged stock maps hold what the maps hold together.
pub stock_sum-merge_warehouse_stock :
    (maps : List (Dict (Text × Text) WarehouseStock))
    → stock_sum (merge_warehouse_stock maps) ≡ sum_ℤ (map stock_sum maps)
unfolding merge_warehouse_stock
stock_sum-merge_warehouse_stock maps =
    merge_maps-from maps [] ∙ +ℤ-zero_left (sum_ℤ (map stock_sum maps))
