-- ===== src/Engine/SkuMapping/Assembly.antt =====
-- The stock of assembled skus (`compute_mapped_stock_by_country`,
-- `compute_mapped_stock_total_by_sku`). The set of warehouses is run through in the order in which its
-- members came, which Python leaves open; only sums are built from it.
pub mod Sets
use restock_system.Engine.SkuMapping.{
  MappingComponent, MappingGroup, MappingRules, WarehouseStock, pooled_country,
  country_weights_by_sku, local_weights_by_sku,
}
use restock_system.Common.Int.{ℤ, ltb_ℤ, pos, ◌+ℤ◌, negsuc}
use Prim.Native.Nat.{◌/◌}
use restock_system.Common.{
  triple_eq, Option, Text, Eq, Dict, ℕ, if◌then◌else◌, some, none, put, List, Bool, get_or,
  from_keys, is_nil, get, any, ◌∷◌, map, ◌||◌, elem, [], false, text_eq, suc, keys, true, pair_eq,
  ◌>>=◌, zero, for_each,
}
use restock_system.Common.Floats.{Floats}
use restock_system.Engine.SkuMapping.Shares.{Allocations, build_component_allocation}
use restock_system.Common.Strings.{Unicode}
use restock_system.Engine.Context.{BySku}

-- The operator `//` on integers, which raises on a zero divisor
unfoldable pub floor_div : ℤ → ℕ → Option ℤ
floor_div n zero = none
floor_div (pos n) (suc q) = some (pos (n / suc q))
floor_div (negsuc n) (suc q) = some (negsuc (n / suc q))

abbrev pub min_ℤ : ℤ → ℤ → ℤ
min_ℤ a b = if ltb_ℤ b a then b else a

-- `buildable_for_component if buildable is None else min(buildable, buildable_for_component)`
abbrev pub least : Option ℤ → ℤ → ℤ
least none n = n
least (some m) n = min_ℤ m n

-- The loop over the components of a group, with what is allocated of each: how many sets can be put
-- together. A division by zero raises (`none`), and a group without components has no answer.
unfoldable pub buildable_from :
    (Text → Option WarehouseStock) → Option ℤ → MappingGroup → Option (Option ℤ)
buildable_from allocated buildable [] = some buildable
buildable_from allocated buildable (component ∷ components) =
    elim (allocated component.inventory_sku) [
      | none ↦ some (some (pos 0))
      | some stock ↦ elim (floor_div stock.total component.quantity) [
        | none ↦ none
        | some n ↦ buildable_from allocated (some (least buildable n)) components
      ]
    ]

abbrev pub buildable_of : (Text → Option WarehouseStock) → MappingGroup → Option (Option ℤ)
buildable_of allocated components = buildable_from allocated none components

-- `result[key] += n` on a defaultdict of integers
abbrev pub add_to {ℓ} : {K : Type ℓ} ⦃e : Eq K⦄ → K → ℤ → Dict K ℤ → Dict K ℤ
add_to key n result = put key (get_or key result (pos 0) +ℤ n) result

-- `{warehouse_id for _, warehouse_id in component_stock}`
abbrev pub warehouse_ids_of : Dict (Text × Text) WarehouseStock → List Text
warehouse_ids_of component_stock =
    from_keys (map (λ (key : Text × Text). key.1) (keys component_stock))

-- The first country that is known of each warehouse
abbrev pub note_country : (Text × Text) × WarehouseStock → Dict Text Text → Dict Text Text
note_country ((sku, warehouse_id), stock) country_by_warehouse = elim stock.country [
  | none ↦ country_by_warehouse
  | some country ↦
      if is_nil country || elem warehouse_id (keys country_by_warehouse)
      then country_by_warehouse
      else put warehouse_id country country_by_warehouse
]

module _ (fl : Floats) where
  -- What a sku is allocated of a component in a warehouse
  abbrev pub allocated_to : Allocations fl → Text → Text → Text → Option WarehouseStock
  allocated_to allocations commodity_sku warehouse_id component_sku =
      get (commodity_sku, (component_sku, warehouse_id)) allocations

  abbrev pub has_component_signal : Dict (Text × Text) WarehouseStock → Text → MappingGroup → Bool
  has_component_signal component_stock warehouse_id components =
      any (λ (c : MappingComponent). elem (c.inventory_sku, warehouse_id) (keys component_stock))
        components

  -- The groups of one sku in one warehouse of a country
  abbrev pub add_groups :
      Dict (Text × Text) WarehouseStock
      → Allocations fl
      → Text
      → Text
      → Text
      → List MappingGroup
      → Dict (Text × Text) ℤ
      → Option (Dict (Text × Text) ℤ)
  add_groups component_stock allocations commodity_sku warehouse_id country [] result = some result
  add_groups component_stock allocations commodity_sku warehouse_id country (components ∷ groups)
        result =
      elim (has_component_signal component_stock warehouse_id components) [
        | false ↦
            add_groups component_stock allocations commodity_sku warehouse_id country groups result
        | true ↦
            elim (buildable_of (allocated_to allocations commodity_sku warehouse_id) components) [
              | none ↦ none
              | some none ↦
                  add_groups component_stock allocations commodity_sku warehouse_id country groups
                    result
              | some (some buildable) ↦
                  add_groups component_stock allocations commodity_sku warehouse_id country groups
                    (add_to (commodity_sku, country) buildable result)
            ]
      ]

  -- The warehouses of one sku; one without a reportable country is passed over.
  abbrev pub add_warehouses :
      Unicode
      → Dict (Text × Text) WarehouseStock
      → Allocations fl
      → Dict Text Text
      → Text
      → List MappingGroup
      → List Text
      → Dict (Text × Text) ℤ
      → Option (Dict (Text × Text) ℤ)
  add_warehouses u component_stock allocations countries commodity_sku groups [] result =
      some result
  add_warehouses u component_stock allocations countries commodity_sku groups (warehouse_id ∷ ids)
        result =
      elim (pooled_country u (get warehouse_id countries)) [
        | none ↦
            add_warehouses u component_stock allocations countries commodity_sku groups ids result
        | some country ↦
            elim (add_groups component_stock allocations commodity_sku warehouse_id country groups
              result) [
                | none ↦ none
                | some added ↦
                    add_warehouses u component_stock allocations countries commodity_sku groups ids
                      added
              ]
      ]

  abbrev pub add_skus :
      Unicode
      → Dict (Text × Text) WarehouseStock
      → Allocations fl
      → Dict Text Text
      → MappingRules
      → Dict (Text × Text) ℤ
      → Option (Dict (Text × Text) ℤ)
  add_skus u component_stock allocations countries [] result = some result
  add_skus u component_stock allocations countries ((commodity_sku, groups) ∷ rules) result =
      elim (add_warehouses u component_stock allocations countries commodity_sku groups
        (warehouse_ids_of component_stock) result) [
          | none ↦ none
          | some added ↦ add_skus u component_stock allocations countries rules added
        ]

  unfoldable pub compute_mapped_stock_by_country :
      Unicode
      → MappingRules
      → Dict (Text × Text) WarehouseStock
      → Option (BySku fl.Float)
      → Option (Dict (Text × Text) ℤ)
  compute_mapped_stock_by_country u rules component_stock velocity =
      if is_nil rules || is_nil component_stock then some [] else do
        let weights : BySku fl.Float = elim velocity [
          | none ↦ []
          | some v ↦ country_weights_by_sku fl v
        ]
        allocations ← build_component_allocation fl rules component_stock weights none
        add_skus u component_stock allocations (for_each note_country component_stock []) rules []

  -- `if buildable and buildable > 0`
  abbrev pub add_sets : Text → Option ℤ → Dict Text ℤ → Dict Text ℤ
  add_sets commodity_sku none totals = totals
  add_sets commodity_sku (some buildable) totals =
      if ltb_ℤ (pos 0) buildable then add_to commodity_sku buildable totals else totals

  abbrev pub total_groups :
      Allocations fl → Text → Text → List MappingGroup → Dict Text ℤ → Option (Dict Text ℤ)
  total_groups allocations commodity_sku warehouse_id [] totals = some totals
  total_groups allocations commodity_sku warehouse_id (components ∷ groups) totals =
      elim (buildable_of (allocated_to allocations commodity_sku warehouse_id) components) [
        | none ↦ none
        | some buildable ↦
            total_groups allocations commodity_sku warehouse_id groups
              (add_sets commodity_sku buildable totals)
      ]

  abbrev pub total_warehouses :
      Allocations fl → Text → List MappingGroup → List Text → Dict Text ℤ → Option (Dict Text ℤ)
  total_warehouses allocations commodity_sku groups [] totals = some totals
  total_warehouses allocations commodity_sku groups (warehouse_id ∷ ids) totals =
      elim (total_groups allocations commodity_sku warehouse_id groups totals) [
        | none ↦ none
        | some added ↦ total_warehouses allocations commodity_sku groups ids added
      ]

  abbrev pub total_skus :
      Dict (Text × Text) WarehouseStock
      → Allocations fl
      → MappingRules
      → Dict Text ℤ
      → Option (Dict Text ℤ)
  total_skus component_stock allocations [] totals = some totals
  total_skus component_stock allocations ((commodity_sku, groups) ∷ rules) totals =
      elim (total_warehouses allocations commodity_sku groups (warehouse_ids_of component_stock)
        totals) [ none ↦ none | some added ↦ total_skus component_stock allocations rules added ]

  unfoldable pub compute_mapped_stock_total_by_sku :
      MappingRules
      → Dict (Text × Text) WarehouseStock
      → Option (BySku fl.Float)
      → Option (Dict Text ℤ)
  compute_mapped_stock_total_by_sku rules component_stock velocity =
      if is_nil rules || is_nil component_stock then some [] else do
        let weights : BySku fl.Float = elim velocity [
          | none ↦ []
          | some v ↦ local_weights_by_sku fl v
        ]
        allocations ← build_component_allocation fl rules component_stock weights (some [])
        total_skus component_stock allocations rules []
