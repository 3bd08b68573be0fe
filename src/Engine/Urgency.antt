-- ===== src/Engine/Urgency.antt =====
-- Step 6, the urgency of a sku (backend/app/engine/step6_timing.py). A set that the code runs through
-- is given with an order.
pub mod Order
use restock_system.Common.Floats.{Floats}
use restock_system.Common.{
  Dict, List, Text, Option, Bool, ◌∷◌, if◌then◌else◌, false, put, ltb, get, get_or, [], none, some,
  true, text_eq,
}
use restock_system.Common.Int.{ℤ, pos_part, pos}
use restock_system.Engine.Context.{BySku}

-- `{country for country, qty in country_qty_for_sku.items() if qty > 0}`
unfoldable pub positive_qty_countries : Dict Text ℤ → List Text
positive_qty_countries [] = []
positive_qty_countries ((country, qty) ∷ country_qty) =
    let rest = positive_qty_countries country_qty in
    if ltb 0 (pos_part qty) then country ∷ rest else rest

module _ (fl : Floats) where
  -- A missing value, or None, is passed over; every other is a number here.
  unfoldable pub has_urgent_sale_days : Dict Text (Option fl.Float) → ℤ → List Text → Bool
  has_urgent_sale_days sale_days_by_country lead_time_days [] = false
  has_urgent_sale_days sale_days_by_country lead_time_days (country ∷ effective_countries) =
      let rest = has_urgent_sale_days sale_days_by_country lead_time_days effective_countries in
      elim (get country sale_days_by_country) [
        | none ↦ rest
        | some none ↦ rest
        | some (some sale_days) ↦ if fl.le sale_days (fl.of_int lead_time_days) then true else rest
      ]

  unfoldable pub compute_urgency_for_sku : Dict Text (Option fl.Float) → Dict Text ℤ → ℤ → Bool
  compute_urgency_for_sku sale_days_for_sku country_qty_for_sku lead_time_days =
      has_urgent_sale_days sale_days_for_sku lead_time_days
        (positive_qty_countries country_qty_for_sku)

  unfoldable pub step6_timing :
      List Text → BySku (Option fl.Float) → Dict Text ℤ → BySku ℤ → Dict Text Bool
  step6_timing [] sale_days_snapshot lead_time_by_sku country_qty = []
  step6_timing (sku ∷ all_skus) sale_days_snapshot lead_time_by_sku country_qty =
      put sku
        (compute_urgency_for_sku (get_or sku sale_days_snapshot []) (get_or sku country_qty [])
          (get_or sku lead_time_by_sku (pos 50)))
        (step6_timing all_skus sale_days_snapshot lead_time_by_sku country_qty)
