-- ===== src/Engine/Total.antt =====
-- Step 4, the quantity to purchase per sku (backend/app/engine/step4_total.py): `compute_total` and
-- `step4_total`. The key set that `step4_total` runs through is given with its order, which Python
-- leaves open.
pub mod Purchase
use restock_system.Common.Floats.{Floats}
use restock_system.Engine.Context.{BySku, LocalStock, local_total}
use restock_system.Common.{
  List, Option, Dict, Text, ◌∷◌, ℕ, [], values, some, none, get_or, get, put, text_eq,
}
use restock_system.Common.Int.{ℤ, pos, ◌+ℤ◌, pos_part, ◌-ℤ◌}

pub record EngineContext (fl : Floats) : Type 0 where
  pub country_qty : BySku ℤ
  pub velocity : BySku fl.Float
  pub local_stock : Dict Text LocalStock
  pub buffer_days : ℤ
  pub safety_stock_days : ℤ

-- `sum` over integers, from 0
abbrev pub sum_ℤ : List ℤ → ℤ
sum_ℤ [] = pos 0
sum_ℤ (x ∷ xs) = x +ℤ sum_ℤ xs

module _ (fl : Floats) where
  -- `sum` over floats, from the left and from 0, as Python 3.11 adds them, the version of the image
  abbrev pub sum_floats : fl.Float → List fl.Float → fl.Float
  sum_floats acc [] = acc
  sum_floats acc (x ∷ xs) = sum_floats (fl.add acc x) xs

  abbrev pub local_total_of : Option LocalStock → ℤ
  local_total_of none = pos 0
  local_total_of (some stock) = local_total stock

  -- `math.ceil(sum_velocity * safety_stock_days)`
  unfoldable pub safety_qty_of : Dict Text fl.Float → ℤ → Option ℤ
  safety_qty_of velocity_for_sku safety_stock_days = fl.ceil (
      fl.mul (sum_floats (fl.of_int (pos 0)) (values velocity_for_sku))
        (fl.of_int safety_stock_days))

  unfoldable pub compute_total : Dict Text ℤ → Dict Text fl.Float → Option LocalStock → ℤ → Option ℕ
  compute_total country_qty_for_sku velocity_for_sku local_stock_for_sku safety_stock_days =
      elim (safety_qty_of velocity_for_sku safety_stock_days) [
        | none ↦ none
        | some safety_qty ↦ some (
            pos_part (
              sum_ℤ (values country_qty_for_sku)
              -ℤ local_total_of local_stock_for_sku
              +ℤ safety_qty))
      ]

  unfoldable pub step4_from : EngineContext fl → List Text → Dict Text ℕ → Option (Dict Text ℕ)
  step4_from ctx [] result = some result
  step4_from ctx (sku ∷ all_skus) result =
      elim (compute_total (get_or sku ctx.country_qty []) (get_or sku ctx.velocity [])
        (get sku ctx.local_stock) ctx.safety_stock_days) [
          | none ↦ none
          | some purchase_qty ↦ step4_from ctx all_skus (put sku purchase_qty result)
        ]

  unfoldable pub step4_total : EngineContext fl → List Text → Option (Dict Text ℕ)
  step4_total ctx all_skus = step4_from ctx all_skus []
