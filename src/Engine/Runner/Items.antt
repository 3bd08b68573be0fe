-- ===== src/Engine/Runner/Items.antt =====
-- The items of a suggestion (the loop of `run_engine` over the skus). What the steps before it load
-- from the tables is given.
use restock_system.Common.Floats.{Floats}
use restock_system.Engine.Split.{AllocationMode, CountryAllocationResult, explain_country_qty_split}
use restock_system.Common.{
  Dict, Option, Text, List, ℕ, if◌then◌else◌, ◌∷◌, some, is_nil, get_or, Bool, put, [], leb, none,
  get, ◌&&◌, true, text_eq, false, pair_eq, ◌>>=◌, values,
}
use restock_system.Common.Strings.{Unicode}
use restock_system.Common.Int.{ℤ, leb_ℤ, pos}
use restock_system.Engine.Context.{BySku, InventoryStock, LocalStock}
use restock_system.Engine.Warnings.{
  CalculationWarning, demand_restock_dates, build_calculation_warnings,
}
use restock_system.Engine.Total.{compute_total, sum_ℤ}
use restock_system.Engine.Runner.Inputs.{
  CalculationInputs, Days, build_calculation_inputs_snapshot, get_flat,
}
use restock_system.Engine.Zipcode.{ZipcodeRule}
use restock_system.Engine.Urgency.{compute_urgency_for_sku}

-- What the tables give to a run: `run_step1`, `run_step2`, `load_local_inventory`,
-- `load_country_warehouses`, `load_zipcode_rules`, `load_all_sku_country_orders` and the enabled skus
-- with their own lead times.
pub record Loaded (fl : Floats) : Type 0 where
  pub enabled_skus : List (Text × Option ℤ)
  pub velocity : BySku fl.Float
  pub sale_days : BySku fl.Float
  pub inventory : BySku InventoryStock
  pub local_stock : Dict Text LocalStock
  pub country_warehouses : Dict Text (List Text)
  pub zipcode_rules : List ZipcodeRule
  pub all_orders : Dict (Text × Text) (List (Option Text × ℤ))

pub record AllocationSnapshot : Type 0 where
  pub allocation_mode : AllocationMode
  pub matched_order_qty : ℕ
  pub unknown_order_qty : ℕ
  pub eligible_warehouses : List Text

pub record SuggestionItem (fl : Floats) : Type 0 where
  pub commodity_sku : Text
  pub total_qty : ℤ
  pub country_breakdown : Dict Text ℤ
  pub warehouse_breakdown : Dict Text (Dict Text ℕ)
  pub allocation_snapshot : Dict Text AllocationSnapshot
  pub velocity_snapshot : Dict Text fl.Float
  pub sale_days_snapshot : Dict Text fl.Float
  pub calculation_warnings : List CalculationWarning
  pub calculation_inputs_snapshot : CalculationInputs fl
  pub urgent : Bool
  pub purchase_qty : ℕ
  pub restock_dates : Dict Text (Option Text)

-- The maps of a run, after the filters, with its days and dates
pub record Prepared (fl : Floats) : Type 0 where
  pub velocity : BySku fl.Float
  pub sale_days : BySku fl.Float
  pub inventory : BySku InventoryStock
  pub country_qty : BySku ℤ
  pub missing_inventory : Dict Text (List Text)
  pub sku_lead_time : Dict Text (Option ℤ)
  pub lead_time_days : ℤ
  pub days : Days
  pub generated_at : Text
  pub demand_date : Text

-- The values of a dictionary as values that may be None
abbrev pub map_some {ℓ} : {A : Type ℓ} → Dict Text A → Dict Text (Option A)
map_some [] = []
map_some ((k, v) ∷ d) = (k, some v) ∷ map_some d

-- `sku_specific_lead_time if sku_specific_lead_time is not None else global_lead_time_days`
abbrev pub lead_time_of : Option ℤ → ℤ → ℤ
lead_time_of none global_lead_time_days = global_lead_time_days
lead_time_of (some lead_time_days) global_lead_time_days = lead_time_days

abbrev pub Breakdown : Type 0
Breakdown = Dict Text (Dict Text ℕ) × Dict Text AllocationSnapshot

abbrev pub snapshot_of : CountryAllocationResult → AllocationSnapshot
snapshot_of allocation = record {
  allocation_mode = allocation.allocation_mode;
  matched_order_qty = allocation.matched_order_qty;
  unknown_order_qty = allocation.unknown_order_qty;
  eligible_warehouses = allocation.eligible_warehouses;
}

abbrev pub add_allocation : Text → CountryAllocationResult → Breakdown → Breakdown
add_allocation country allocation (warehouse_breakdown, allocation_snapshot) = (
  if is_nil allocation.warehouse_breakdown
      then warehouse_breakdown
      else put country allocation.warehouse_breakdown warehouse_breakdown,
  put country (snapshot_of allocation) allocation_snapshot,
)

module _ (u : Unicode) (fl : Floats) (loaded : Loaded fl) where
  -- The split of a country of a sku over its warehouses
  abbrev pub allocation_of : Text → Text → ℤ → Option CountryAllocationResult
  allocation_of sku country qty =
      explain_country_qty_split u fl country qty (get_or (sku, country) loaded.all_orders [])
        loaded.zipcode_rules (get_or country loaded.country_warehouses [])

  -- The loop over the countries of a sku
  unfoldable pub split_countries : Text → Dict Text ℤ → Breakdown → Option Breakdown
  split_countries sku [] breakdown = some breakdown
  split_countries sku ((country, qty) ∷ country_qty) breakdown = elim (leb_ℤ qty (pos 0)) [
    | true ↦ split_countries sku country_qty breakdown
    | false ↦ elim (allocation_of sku country qty) [
      | none ↦ none
      | some allocation ↦
          split_countries sku country_qty (add_allocation country allocation breakdown)
    ]
  ]

  module _ (p : Prepared fl) where
    abbrev pub purchase_qty_of : Text → Option ℕ
    purchase_qty_of sku =
        compute_total fl (get_or sku p.country_qty []) (get_or sku p.velocity [])
          (get sku loaded.local_stock) p.days.safety_stock_days

    -- The item of a sku that has something to purchase or to restock
    unfoldable pub item_of : Text → ℕ → Option (SuggestionItem fl)
    item_of sku purchase_qty =
        let sku_country_qty = get_or sku p.country_qty [] in
        let velocity = get_or sku p.velocity [] in
        let sale_days = get_or sku p.sale_days [] in
        let restock_dates = demand_restock_dates sku_country_qty (some p.demand_date) in
        do
          breakdown ← split_countries sku sku_country_qty ([], [])
          inputs ←
              build_calculation_inputs_snapshot fl p.generated_at p.demand_date p.days
                sku_country_qty velocity (get_or sku p.inventory []) (get sku loaded.local_stock)
                sale_days restock_dates purchase_qty
          some (record {
            commodity_sku = sku;
            total_qty = sum_ℤ (values sku_country_qty);
            country_breakdown = sku_country_qty;
            warehouse_breakdown = breakdown.0;
            allocation_snapshot = breakdown.1;
            velocity_snapshot = velocity;
            sale_days_snapshot = sale_days;
            calculation_warnings =
                build_calculation_warnings fl u (map_some sale_days) []
                  (get_or sku p.missing_inventory []) sku_country_qty;
            calculation_inputs_snapshot = inputs;
            urgent =
                compute_urgency_for_sku fl (map_some sale_days) sku_country_qty
                  (lead_time_of (get_flat sku p.sku_lead_time) p.lead_time_days);
            purchase_qty = purchase_qty;
            restock_dates = restock_dates;
          })

    -- `purchase_qty <= 0 and restock_total <= 0`, where the sku is passed over
    abbrev pub has_nothing : Text → ℕ → Bool
    has_nothing sku purchase_qty =
        leb purchase_qty 0 && leb_ℤ (sum_ℤ (values (get_or sku p.country_qty []))) (pos 0)

    -- The loop over the skus
    unfoldable pub items_to_insert : List Text → Option (List (SuggestionItem fl))
    items_to_insert [] = some []
    items_to_insert (sku ∷ sku_list) = elim (purchase_qty_of sku) [
      | none ↦ none
      | some purchase_qty ↦ elim (has_nothing sku purchase_qty) [
        | true ↦ items_to_insert sku_list
        | false ↦ elim (item_of sku purchase_qty) [
          | none ↦ none
          | some item ↦ elim (items_to_insert sku_list) [
            | none ↦ none
            | some items ↦ some (item ∷ items)
          ]
        ]
      ]
    ]
