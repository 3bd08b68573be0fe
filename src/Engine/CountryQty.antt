-- ===== src/Engine/CountryQty.antt =====
-- Step 3, the quantity to restock per country (backend/app/engine/step3_country_qty.py).
pub mod Lookup
use restock_system.Common.Floats.{Floats}
use restock_system.Common.Strings.{Unicode}
use restock_system.Engine.Context.{BySku, InventoryStock, fill_from, at, stock_total}
use restock_system.Common.Int.{ℤ, pos}
use restock_system.Common.{Text, Option, if◌then◌else◌, not, [], some, none}
use restock_system.Core.Countries.{is_reportable_country_code}

module _ (fl : Floats) (u : Unicode) (inventory : BySku InventoryStock) (target_days : ℤ) where
  -- The body of the loop; `math.ceil` raises on a float that is not finite.
  unfoldable pub country_qty_of : Text → Text → fl.Float → Option (Option ℤ)
  country_qty_of sku country v =
      if not (is_reportable_country_code u (some country))
      then some none
      else if fl.le v (fl.of_int (pos 0))
      then some none
      else elim (at sku country inventory) [
        | none ↦ some none
        | some stock ↦
            let raw = fl.sub (fl.mul (fl.of_int target_days) v) (fl.of_int (stock_total stock)) in
            if fl.le raw (fl.of_int (pos 0))
            then some none
            else elim (fl.ceil raw) [ none ↦ none | some qty ↦ some (some qty) ]
      ]

  unfoldable pub compute_country_qty : BySku fl.Float → Option (BySku ℤ)
  compute_country_qty velocity = fill_from country_qty_of velocity []
