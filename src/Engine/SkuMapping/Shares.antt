-- ===== src/Engine/SkuMapping/Shares.antt =====
-- The shares of skus in the stock of a component (`_allocate_integer_quantity`,
-- `_build_component_allocation`).
pub mod Pieces
pub mod Exact
use restock_system.Common.Floats.{Floats}
use restock_system.Common.Strings.{text_le}
use restock_system.Common.{
  triple_eq, ℕ, List, Bool, Dict, Text, ◌||◌, map, Option, ◌∷◌, [], not, get_or, some, for_each,
  ◌>>=◌, ◌&&◌, if◌then◌else◌, ◌+◌, take, put, none, text_eq, suc, any, length, zero, sorted,
}
use restock_system.Common.Int.{ℤ, ◌-ℤ◌, ◌+ℤ◌, pos, pos_part, leb_ℤ}
use restock_system.Engine.SkuMapping.{MappingRules, WarehouseStock, mapping_component_consumers}
use restock_system.Engine.Total.{sum_floats, sum_ℤ}
use restock_system.Engine.Context.{BySku}

-- The place of a consumer, with its raw share and what it is allocated of it.
pub record Share (fl : Floats) : Type 0 where
  pub idx : ℕ
  pub consumer : Text
  pub raw : fl.Float
  pub base : ℤ

-- `allocated[idx] += 1`
abbrev pub bump : ℕ → List ℤ → List ℤ
bump i [] = []
bump zero (x ∷ xs) = (x +ℤ pos 1) ∷ xs
bump (suc i) (x ∷ xs) = x ∷ bump i xs

-- `{consumer: allocated[idx] for idx, consumer in enumerate(consumers)}`
abbrev pub pair_up_from {ℓ} : {A : Type ℓ} → Dict Text A → List Text → List A → Dict Text A
pair_up_from d (consumer ∷ consumers) (n ∷ allocated) =
    pair_up_from (put consumer n d) consumers allocated
pair_up_from d _ _ = d

abbrev pub pair_up {ℓ} : {A : Type ℓ} → List Text → List A → Dict Text A
pair_up = pair_up_from []

-- `dict.fromkeys(consumers, 0)`
abbrev pub zeros_of : List Text → Dict Text ℤ
zeros_of consumers = pair_up consumers (map (λ c. pos 0) consumers)

module _ (fl : Floats) where
  -- The order of `fractional_order`: the largest fraction first, then the consumers' texts
  abbrev pub fraction_before : Share fl → Share fl → Bool
  fraction_before a b =
      let fraction_a = fl.sub a.raw (fl.of_int a.base) in
      let fraction_b = fl.sub b.raw (fl.of_int b.base) in
      fl.lt fraction_b fraction_a
      || (not (fl.lt fraction_a fraction_b) && text_le a.consumer b.consumer)

  -- The weights of the consumers, all 1.0 where one of them is not above zero
  abbrev pub weights_of : List Text → Dict Text fl.Float → List fl.Float
  weights_of consumers weights =
      let positive_weights = map (λ consumer. get_or consumer weights (fl.tenths 0)) consumers in
      if any (λ weight. fl.le weight (fl.of_int (pos 0))) positive_weights
      then map (λ consumer. fl.tenths 10) consumers
      else positive_weights

  -- The weights and their sum, with the second test of the code on the sum
  abbrev pub weights_and_sum : List Text → Dict Text fl.Float → List fl.Float × fl.Float
  weights_and_sum consumers weights =
      let positive_weights = weights_of consumers weights in
      let weight_sum = sum_floats fl (fl.of_int (pos 0)) positive_weights in
      if fl.le weight_sum (fl.of_int (pos 0))
      then (map (λ consumer. fl.tenths 10) consumers, fl.of_int (pos (length consumers)))
      else (positive_weights, weight_sum)

  -- `raw_shares` and `allocated`, from the place `idx` on; `floor` may raise.
  abbrev pub shares_from : ℤ → fl.Float → ℕ → List Text → List fl.Float → Option (List (Share fl))
  shares_from total weight_sum idx (consumer ∷ consumers) (weight ∷ weights) =
      let raw = fl.div (fl.mul (fl.of_int total) weight) weight_sum in
      do
        base ← fl.floor raw
        rest ← shares_from total weight_sum (idx + 1) consumers weights
        some (record { idx = idx; consumer = consumer; raw = raw; base = base } ∷ rest)
  shares_from total weight_sum idx _ _ = some []

  abbrev pub bases_of : List (Share fl) → List ℤ
  bases_of = map (λ s. s.base)

  -- What is left over goes to the largest fractions.
  unfoldable pub hand_out_rest : ℤ → List (Share fl) → List ℤ
  hand_out_rest total shares =
      let allocated = bases_of shares in
      let remainder = total -ℤ sum_ℤ allocated in
      for_each (λ (s : Share fl). bump s.idx)
        (take (pos_part remainder) (sorted fraction_before shares)) allocated

  abbrev pub weighted_shares : ℤ → List Text → Dict Text fl.Float → Option (List (Share fl))
  weighted_shares total consumers weights =
      let (positive_weights, weight_sum) = weights_and_sum consumers weights in
      shares_from total weight_sum 0 consumers positive_weights

  -- `_allocate_integer_quantity`
  unfoldable pub allocate_integer_quantity :
      ℤ → List Text → Dict Text fl.Float → Option (Dict Text ℤ)
  allocate_integer_quantity total [] weights = some []
  allocate_integer_quantity total (consumer ∷ []) weights =
      some ((consumer, if leb_ℤ total (pos 0) then pos 0 else total) ∷ [])
  allocate_integer_quantity total (consumer ∷ second ∷ consumers) weights =
      if leb_ℤ total (pos 0) then some (zeros_of (consumer ∷ second ∷ consumers)) else do
        shares ← weighted_shares total (consumer ∷ second ∷ consumers) weights
        some (pair_up (consumer ∷ second ∷ consumers) (hand_out_rest total shares))

  -- `{sku: country_weights.get(sku, 0.0) for sku in consumers}`
  abbrev pub consumer_weights : List Text → Dict Text fl.Float → Dict Text fl.Float
  consumer_weights consumers country_weights =
      map (λ sku. (sku, get_or sku country_weights (fl.tenths 0))) consumers

  -- `allocations[(commodity_sku, component_sku, warehouse_id)]`
  abbrev pub Allocations : Type 0
  Allocations = Dict (Text × (Text × Text)) WarehouseStock

  abbrev pub write_splits : Text × Text → Option Text → Dict Text ℤ → Allocations → Allocations
  write_splits key country splits =
      for_each
        (λ (s : Text × ℤ).
          let stock : WarehouseStock = record { country = country; total = s.1 } in
          put (s.0, key) stock)
        splits

  -- The loop of `_build_component_allocation` over the stock
  unfoldable pub component_allocation_from :
      Dict Text (List Text)
      → BySku fl.Float
      → Option Text
      → Dict (Text × Text) WarehouseStock
      → Allocations
      → Option Allocations
  component_allocation_from consumers_by weights_by_country fixed [] allocations = some allocations
  component_allocation_from consumers_by weights_by_country fixed
        (((component_sku, warehouse_id), stock) ∷ rest) allocations =
      let consumers = get_or component_sku consumers_by [] in
      let weight_country : Text = elim fixed [
        | some c ↦ c
        | none ↦ elim stock.country [ some c ↦ c | none ↦ [] ]
      ] in
      let weights = consumer_weights consumers (get_or weight_country weights_by_country []) in
      elim (allocate_integer_quantity stock.total consumers weights) [
        | none ↦ none
        | some splits ↦
            component_allocation_from consumers_by weights_by_country fixed rest
              (write_splits (component_sku, warehouse_id) stock.country splits allocations)
      ]

  unfoldable pub build_component_allocation :
      MappingRules
      → Dict (Text × Text) WarehouseStock
      → BySku fl.Float
      → Option Text
      → Option Allocations
  build_component_allocation rules component_stock weights_by_country fixed_weight_country =
      component_allocation_from (mapping_component_consumers rules) weights_by_country
        fixed_weight_country component_stock []
