-- ===== src/Engine/SaleDays.antt =====
-- Step 2, the stock of a country and the days that it lasts (backend/app/engine/step2_sale_days.py):
-- `merge_inventory` and `compute_sale_days`. The key set that `merge_inventory` runs through is given
-- with its order, which Python leaves open.
pub mod Lookup
use restock_system.Common.Floats.{Floats}
use restock_system.Common.Strings.{Unicode}
use restock_system.Common.Int.{ℤ, pos}
use restock_system.Common.{
  pair_eq, Dict, List, Text, get_or, [], Option, ◌∷◌, if◌then◌else◌, not, some, none,
}
use restock_system.Engine.Context.{BySku, InventoryStock, set_at, fill_from, at, stock_total}
use restock_system.Core.Countries.{is_reportable_country_code}

-- The entries of the dictionary for overseas stock
pub record Oversea : Type 0 where
  pub available : ℤ
  pub reserved : ℤ

abbrev pub no_stock : Oversea
no_stock = record { available = pos 0; reserved = pos 0 }

-- One key of `merge_inventory`
unfoldable pub merged_stock :
    Dict (Text × Text) Oversea → Dict (Text × Text) ℤ → Text × Text → InventoryStock
merged_stock oversea in_transit key =
    let inv = get_or key oversea no_stock in
    record {
      available = inv.available;
      reserved = inv.reserved;
      in_transit = get_or key in_transit (pos 0);
    }

unfoldable pub merge_keys :
    Dict (Text × Text) Oversea
    → Dict (Text × Text) ℤ
    → List (Text × Text)
    → BySku InventoryStock
    → BySku InventoryStock
merge_keys oversea in_transit [] merged = merged
merge_keys oversea in_transit ((sku, country) ∷ ks) merged =
    merge_keys oversea in_transit ks
      (set_at sku country (merged_stock oversea in_transit (sku, country)) merged)

unfoldable pub merge_inventory :
    List (Text × Text) → Dict (Text × Text) Oversea → Dict (Text × Text) ℤ → BySku InventoryStock
merge_inventory ks oversea in_transit = merge_keys oversea in_transit ks []

module _ (fl : Floats) (u : Unicode) (inventory : BySku InventoryStock) where
  -- The body of the loop of `compute_sale_days`, which raises nothing: the velocity is above zero.
  unfoldable pub sale_days_of : Text → Text → fl.Float → Option (Option fl.Float)
  sale_days_of sku country v =
      if not (is_reportable_country_code u (some country))
      then some none
      else if fl.le v (fl.of_int (pos 0))
      then some none
      else elim (at sku country inventory) [
        | none ↦ some none
        | some stock ↦ some (some (fl.div (fl.of_int (stock_total stock)) v))
      ]

  unfoldable pub compute_sale_days : BySku fl.Float → Option (BySku fl.Float)
  compute_sale_days velocity = fill_from sale_days_of velocity []
