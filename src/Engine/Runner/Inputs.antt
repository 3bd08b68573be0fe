-- ===== src/Engine/Runner/Inputs.antt =====
-- The inputs of a calculation that an item keeps (`_build_calculation_inputs_snapshot`).
use restock_system.Common.Floats.{Floats}
use restock_system.Common.Int.{ℤ, pos, ◌-ℤ◌, leb_ℤ, ◌+ℤ◌}
use restock_system.Common.{
  Dict, Option, Text, ℕ, sorted, get, get_or, some, none, ◌>>=◌, values, [], ◌∷◌, text_eq, true,
  put, false,
}
use restock_system.Engine.Context.{InventoryStock, LocalStock, stock_total, local_total}
use restock_system.Common.Strings.{text_le}
use restock_system.Engine.Total.{sum_ℤ, sum_floats}

pub record CountryInputs (fl : Floats) : Type 0 where
  pub effective_target_days : ℤ
  pub daily_velocity : fl.Float
  pub overseas_available : ℤ
  pub overseas_reserved : ℤ
  pub in_transit : ℤ
  pub overseas_stock_total : ℤ
  pub target_stock_qty : ℤ
  pub raw_restock_qty : ℤ
  pub final_restock_qty : ℤ
  pub sale_days : Option fl.Float
  pub restock_date : Option Text

pub record PurchaseInputs (fl : Floats) : Type 0 where
  pub country_restock_qty_total : ℤ
  pub country_restock_qty_by_country : Dict Text ℤ
  pub daily_velocity_total : fl.Float
  pub daily_velocity_by_country : Dict Text fl.Float
  pub safety_stock_qty : ℤ
  pub local_stock_available : ℤ
  pub local_stock_reserved : ℤ
  pub local_stock_total : ℤ
  pub raw_purchase_qty : ℤ
  pub final_purchase_qty : ℕ

pub record CalculationInputs (fl : Floats) : Type 0 where
  pub version : ℕ
  pub generated_at : Text
  pub demand_date : Text
  pub target_days : ℤ
  pub demand_days : ℕ
  pub effective_target_days : ℤ
  pub safety_stock_days : ℤ
  pub purchase : PurchaseInputs fl
  pub restock_countries : Dict Text (CountryInputs fl)

-- The numbers of the days in a run
pub record Days : Type 0 where
  pub target_days : ℤ
  pub demand_days : ℕ
  pub effective_target_days : ℤ
  pub safety_stock_days : ℤ

-- `sorted(d.items())`, where the keys differ
abbrev pub sorted_items {ℓ} : {A : Type ℓ} → Dict Text A → Dict Text A
sorted_items d = sorted (λ a b. text_le a.0 b.0) d

-- `getattr(stock, name, 0)` on a stock that may be missing
abbrev pub stock_or_zero : Option InventoryStock → InventoryStock
stock_or_zero none = record { available = pos 0; reserved = pos 0; in_transit = pos 0 }
stock_or_zero (some stock) = stock

abbrev pub local_or_zero : Option LocalStock → LocalStock
local_or_zero none = record { available = pos 0; reserved = pos 0 }
local_or_zero (some stock) = stock

-- `d.get(k)` on a dictionary that may hold None
abbrev pub get_flat {ℓ} : {A : Type ℓ} → Text → Dict Text (Option A) → Option A
get_flat k d = elim (get k d) [ none ↦ none | some o ↦ o ]

module _ (fl : Floats) where
  module _ (effective_target_days : ℤ) (velocity_for_sku : Dict Text fl.Float)
      (inventory_for_sku : Dict Text InventoryStock) (sale_days_for_sku : Dict Text fl.Float)
      (restock_dates_for_sku : Dict Text (Option Text)) where
    -- The entry of a country with a quantity above zero; `math.ceil` may raise.
    unfoldable pub country_inputs : Text → ℤ → Option (CountryInputs fl)
    country_inputs country final_restock_qty =
        let daily_velocity = get_or country velocity_for_sku (fl.of_int (pos 0)) in
        let stock = stock_or_zero (get country inventory_for_sku) in
        let overseas_total = stock_total stock in
        elim (fl.ceil (fl.mul (fl.of_int effective_target_days) daily_velocity)) [
          | none ↦ none
          | some target_stock_qty ↦ some (record {
            effective_target_days = effective_target_days;
            daily_velocity = daily_velocity;
            overseas_available = stock.available;
            overseas_reserved = stock.reserved;
            in_transit = stock.in_transit;
            overseas_stock_total = overseas_total;
            target_stock_qty = target_stock_qty;
            raw_restock_qty = target_stock_qty -ℤ overseas_total;
            final_restock_qty = final_restock_qty;
            sale_days = get country sale_days_for_sku;
            restock_date = get_flat country restock_dates_for_sku;
          })
        ]

    unfoldable pub restock_inputs :
        Dict Text ℤ → Dict Text (CountryInputs fl) → Option (Dict Text (CountryInputs fl))
    restock_inputs [] restock_countries = some restock_countries
    restock_inputs ((country, final_qty) ∷ country_qty) restock_countries =
        elim (leb_ℤ final_qty (pos 0)) [
          | true ↦ restock_inputs country_qty restock_countries
          | false ↦ elim (country_inputs country final_qty) [
            | none ↦ none
            | some inputs ↦ restock_inputs country_qty (put country inputs restock_countries)
          ]
        ]

  unfoldable pub purchase_inputs :
      ℤ → Dict Text ℤ → Dict Text fl.Float → Option LocalStock → ℕ → Option (PurchaseInputs fl)
  purchase_inputs safety_stock_days country_qty_for_sku velocity_for_sku local_stock_for_sku
        purchase_qty =
      let country_restock_total = sum_ℤ (values country_qty_for_sku) in
      let velocity_total = sum_floats fl (fl.of_int (pos 0)) (values velocity_for_sku) in
      let stock = local_or_zero local_stock_for_sku in
      elim (fl.ceil (fl.mul velocity_total (fl.of_int safety_stock_days))) [
        | none ↦ none
        | some safety_stock_qty ↦ some (record {
          country_restock_qty_total = country_restock_total;
          country_restock_qty_by_country = sorted_items country_qty_for_sku;
          daily_velocity_total = velocity_total;
          daily_velocity_by_country = sorted_items velocity_for_sku;
          safety_stock_qty = safety_stock_qty;
          local_stock_available = stock.available;
          local_stock_reserved = stock.reserved;
          local_stock_total = local_total stock;
          raw_purchase_qty = country_restock_total -ℤ local_total stock +ℤ safety_stock_qty;
          final_purchase_qty = purchase_qty;
        })
      ]

  unfoldable pub build_calculation_inputs_snapshot :
      (generated_at demand_date : Text) (days : Days) (country_qty_for_sku : Dict Text ℤ)
      (velocity_for_sku : Dict Text fl.Float) (inventory_for_sku : Dict Text InventoryStock)
      (local_stock_for_sku : Option LocalStock) (sale_days_for_sku : Dict Text fl.Float)
      (restock_dates_for_sku : Dict Text (Option Text)) (purchase_qty : ℕ)
      → Option (CalculationInputs fl)
  build_calculation_inputs_snapshot generated_at demand_date days country_qty_for_sku
        velocity_for_sku inventory_for_sku local_stock_for_sku sale_days_for_sku
        restock_dates_for_sku purchase_qty =
      do
        purchase ←
            purchase_inputs days.safety_stock_days country_qty_for_sku velocity_for_sku
              local_stock_for_sku purchase_qty
        restock_countries ←
            restock_inputs days.effective_target_days velocity_for_sku inventory_for_sku
              sale_days_for_sku restock_dates_for_sku (sorted_items country_qty_for_sku) []
        some (record {
          version = 1;
          generated_at = generated_at;
          demand_date = demand_date;
          target_days = days.target_days;
          demand_days = days.demand_days;
          effective_target_days = days.effective_target_days;
          safety_stock_days = days.safety_stock_days;
          purchase = purchase;
          restock_countries = restock_countries;
        })
