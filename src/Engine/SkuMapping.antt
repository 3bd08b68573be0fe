-- ===== src/Engine/SkuMapping.antt =====
-- The stock of skus that are assembled from components (backend/app/engine/sku_mapping.py): the rules,
-- who consumes a component, and the merging of stock maps. Totals are integers; the table asks for
-- component quantities above zero.
mod Tests
pub mod Shares
pub mod Assembly
pub mod Rules
use restock_system.Common.Floats.{Floats}
use restock_system.Common.Strings.{Unicode, text_le}
use restock_system.Common.{
  Text, List, Dict, Option, ℕ, put, for_each, sorted, codes, ◌∷◌, none, some, add_member, [],
  if◌then◌else◌, get, ◌++◌, get_or, is_nil, not, pair_eq, text_eq, values, ◌||◌,
}
use restock_system.Engine.Context.{BySku, set_at}
use restock_system.Common.Int.{ℤ, ◌+ℤ◌, pos}
use restock_system.Engine.Total.{sum_floats}
use restock_system.Core.Countries.{is_reportable_country_code}

pub record MappingComponent : Type 0 where
  pub inventory_sku : Text
  pub quantity : ℕ

abbrev pub MappingGroup : Type 0
MappingGroup = List MappingComponent

abbrev pub MappingRules : Type 0
MappingRules = Dict Text (List MappingGroup)

pub record WarehouseStock : Type 0 where
  pub country : Option Text
  pub total : ℤ

-- `consumers[component.inventory_sku].add(commodity_sku)`
abbrev pub add_consumer : Text → MappingComponent → Dict Text (List Text) → Dict Text (List Text)
add_consumer commodity_sku c consumers =
    put c.inventory_sku (add_member commodity_sku (get_or c.inventory_sku consumers [])) consumers

-- `{k: sorted(v) for k, v in d.items()}`
abbrev pub sort_values : Dict Text (List Text) → Dict Text (List Text)
sort_values [] = []
sort_values ((k, v) ∷ d) = (k, sorted text_le v) ∷ sort_values d

unfoldable pub mapping_component_consumers : MappingRules → Dict Text (List Text)
mapping_component_consumers rules = sort_values (
    for_each (λ (rule : Text × List MappingGroup). for_each (for_each (add_consumer rule.0)) rule.1)
      rules [])

unfoldable pub component_skus_for_rules : MappingRules → List Text
component_skus_for_rules rules = sorted text_le (
    for_each
      (λ (rule : Text × List MappingGroup).
        for_each (for_each (λ (c : MappingComponent). add_member c.inventory_sku)) rule.1)
      rules [])

module _ (fl : Floats) where
  -- `_country_weights_by_sku`: country by country
  unfoldable pub country_weights_by_sku : BySku fl.Float → BySku fl.Float
  country_weights_by_sku velocity =
      for_each
        (λ (entry : Text × Dict Text fl.Float).
          for_each (λ (w : Text × fl.Float). set_at w.0 entry.0 w.1) entry.1)
        velocity []

  -- `_local_weights_by_sku`: one entry, under the empty text
  unfoldable pub local_weights_by_sku : BySku fl.Float → BySku fl.Float
  local_weights_by_sku velocity = ([], sums velocity) ∷ []
    where
      sums : BySku fl.Float → Dict Text fl.Float
      sums [] = []
      sums ((sku, country_map) ∷ rest) =
          (sku, sum_floats fl (fl.of_int (pos 0)) (values country_map)) ∷ sums rest

-- `current.country or country`
abbrev pub country_or : Option Text → Option Text → Option Text
country_or none other = other
country_or (some country) other = if is_nil country then other else some country

-- The stock under a key once more of it has come
abbrev pub add_stock : Option WarehouseStock → WarehouseStock → WarehouseStock
add_stock none stock = stock
add_stock (some current) stock = record {
  country = country_or current.country stock.country;
  total = current.total +ℤ stock.total;
}

abbrev pub merge_entry :
    (Text × Text) × WarehouseStock
    → Dict (Text × Text) WarehouseStock
    → Dict (Text × Text) WarehouseStock
merge_entry (key, stock) merged = put key (add_stock (get key merged) stock) merged

unfoldable pub merge_warehouse_stock :
    List (Dict (Text × Text) WarehouseStock) → Dict (Text × Text) WarehouseStock
merge_warehouse_stock stock_maps = for_each (for_each merge_entry) stock_maps []

-- `_country_level_warehouse_id`
abbrev pub country_level_warehouse_id : Text → Text
country_level_warehouse_id country = codes "__country_pool__:" ++ country

-- A write of `aggregate_component_stock_by_country`
abbrev pub add_country_stock :
    Text → Text → ℤ → Dict (Text × Text) WarehouseStock → Dict (Text × Text) WarehouseStock
add_country_stock sku country total result =
    let key : Text × Text = (sku, country_level_warehouse_id country) in
    let stock : WarehouseStock = record {
      country = some country;
      total = elim (get key result) [ none ↦ total | some current ↦ current.total +ℤ total ];
    } in
    put key stock result

-- The country of a stock, if it has one that is reportable
abbrev pub pooled_country : Unicode → Option Text → Option Text
pooled_country u none = none
pooled_country u (some country) =
    if is_nil country || not (is_reportable_country_code u (some country))
    then none
    else some country

module _ (u : Unicode) where
  abbrev pub pool_warehouse :
      (Text × Text) × WarehouseStock
      → Dict (Text × Text) WarehouseStock
      → Dict (Text × Text) WarehouseStock
  pool_warehouse ((sku, warehouse_id), stock) result = elim (pooled_country u stock.country) [
    | none ↦ result
    | some country ↦ add_country_stock sku country stock.total result
  ]

  abbrev pub pool_country :
      (Text × Text) × ℤ → Dict (Text × Text) WarehouseStock → Dict (Text × Text) WarehouseStock
  pool_country ((sku, country), total) result =
      if not (is_reportable_country_code u (some country))
      then result
      else add_country_stock sku country total result

  unfoldable pub aggregate_component_stock_by_country :
      Dict (Text × Text) WarehouseStock → Dict (Text × Text) ℤ → Dict (Text × Text) WarehouseStock
  aggregate_component_stock_by_country warehouse_stock country_stock =
      for_each pool_country country_stock (for_each pool_warehouse warehouse_stock [])
