-- ===== src/Engine/Runner/Breakdown.antt =====
-- The breakdown of an item over countries and warehouses, and the kept inputs of its purchase
-- (backend/app/engine/runner.py).
use mathlib.Core.Bool.{true≢false}
use restock_system.Common.{
  Dict, Text, ◌<◌, ℕ, ◌⊎◌, get, All, Option, ◌≡◌, some, false, total, values, ◌∷◌, is_nil, text_eq,
  [], List, subst, if◌then◌else◌, some_inj, Bool-cases, inl, inr, Option-cases, All-put, sym, none,
  refl, ap, AreFound, ◌∙◌, arith, IsDistinct, get_or, keys, >>=-eq-some, pair_eq, AreFound-self,
}
use restock_system.Common.Strings.{Unicode}
use restock_system.Common.Floats.{Floats}
use restock_system.Engine.Runner.Items.{
  Loaded, SuggestionItem, split_countries, Breakdown, allocation_of, add_allocation, Prepared,
  item_of, items_to_insert, has_nothing, purchase_qty_of,
}
use restock_system.Engine.Total.{compute_total, safety_qty_of, sum_ℤ, sum_floats, local_total_of}
use restock_system.Common.Int.{ℤ, leb_ℤ, pos, ◌≤ℤ◌, pos_part, ◌-ℤ◌, ◌+ℤ◌, +ℤ-zero_right}
use restock_system.Engine.Split.{CountryAllocationResult, explain_country_qty_split}
use restock_system.Engine.Runner.Inputs.{
  purchase_inputs, PurchaseInputs, local_or_zero, build_calculation_inputs_snapshot,
}
use restock_system.Engine.Context.{LocalStock, local_total}
use restock_system.Engine.Split.Exact.{
  total-explain_country_qty_split, breakdown-nil_of_no_warehouse,
}
use restock_system.Engine.Warnings.{demand_restock_dates}

-- purchase give the purchase quantity.

-- The quantities of the warehouses of a country add up to the quantity of the country.
abbrev pub Covers : Dict Text ℤ → Text × Dict Text ℕ → Type 0
Covers country_qty (country, warehouses) =
    (qty : ℤ) × (get country country_qty ≡ some qty) × (pos (total warehouses) ≡ qty)

module _ (u : Unicode) (fl : Floats) (loaded : Loaded fl) where
  allocation-total :
      (sku country : Text) (qty : ℤ) (allocation : CountryAllocationResult)
      → leb_ℤ qty (pos 0) ≡ false
      → allocation_of u fl loaded sku country qty ≡ some allocation
      → is_nil allocation.warehouse_breakdown ≡ false
      → pos (total allocation.warehouse_breakdown) ≡ qty
  allocation-total sku country qty allocation positive_qty run non_empty =
      let warehouses = get_or country loaded.country_warehouses [] in
      let orders = get_or (sku, country) loaded.all_orders [] in
      with_warehouses warehouses
        (total-explain_country_qty_split u fl country qty orders loaded.zipcode_rules warehouses
          run)
        (λ none. breakdown-nil_of_no_warehouse u fl country qty orders loaded.zipcode_rules (
          subst
            (λ ws.
              explain_country_qty_split u fl country qty orders loaded.zipcode_rules ws
              ≡ some allocation)
            none run))
    where
      with_warehouses :
          (warehouses : List Text)
          → total allocation.warehouse_breakdown ≡ (if is_nil warehouses then 0 else pos_part qty)
          → (warehouses ≡ [] → allocation.warehouse_breakdown ≡ [])
          → pos (total allocation.warehouse_breakdown) ≡ qty
      with_warehouses [] h empty = absurd (true≢false (ap is_nil (sym (empty refl)) ∙ non_empty))
      with_warehouses (w ∷ ws) h empty = ground arith

  add_allocation-Covers :
      (all : Dict Text ℤ) (sku country : Text) (qty : ℤ) (allocation : CountryAllocationResult)
      (b : Breakdown)
      → leb_ℤ qty (pos 0) ≡ false
      → allocation_of u fl loaded sku country qty ≡ some allocation
      → get country all ≡ some qty
      → All (Covers all) b.0
      → All (Covers all) (add_allocation country allocation b).0
  add_allocation-Covers all sku country qty allocation b q found here k =
      elim (Bool-cases (is_nil allocation.warehouse_breakdown)) [
        | inl empty ↦ rw empty k
        | inr full ↦ rw full (
            All-put (Covers all) country allocation.warehouse_breakdown b.0
              (qty, here, allocation-total sku country qty allocation q found full) k)
      ]

  split_countries-Covers :
      (all : Dict Text ℤ) (sku : Text) (country_qty : Dict Text ℤ) (b : Breakdown)
      {result : Breakdown}
      → AreFound all country_qty
      → All (Covers all) b.0
      → split_countries u fl loaded sku country_qty b ≡ some result
      → All (Covers all) result.0
  unfolding split_countries
  split_countries-Covers all sku [] b h k run =
      subst (λ (r : Breakdown). All (Covers all) r.0) (some_inj run) k
  split_countries-Covers all sku ((country, qty) ∷ country_qty) b {result} h k run =
      elim (Bool-cases (leb_ℤ qty (pos 0))) [
        | inl q ↦
            split_countries-Covers all sku country_qty b {result = result} h.1 k
              (rw (q, split_countries) at run)
        | inr q ↦ elim (Option-cases (allocation_of u fl loaded sku country qty)) [
          | inl failed ↦ let stop = rw (q, split_countries, failed) at run in cc
          | inr (allocation, found) ↦
              split_countries-Covers all sku country_qty (add_allocation country allocation b)
                {result = result} h.1
                (add_allocation-Covers all sku country qty allocation b q found h.0 k)
                (rw (q, split_countries, found) at run)
        ]
      ]

-- The item has something to purchase or to restock, its total is that of its countries, and the
-- warehouses of a country, where it has any, share the quantity of the country.
abbrev pub IsItem : (fl : Floats) → SuggestionItem fl → Type 0
IsItem fl item =
    ((0 < item.purchase_qty) ⊎ (pos 1 ≤ℤ item.total_qty))
    × (item.total_qty ≡ sum_ℤ (values item.country_breakdown))
    × All (Covers item.country_breakdown) item.warehouse_breakdown

module _ (u : Unicode) (fl : Floats) (loaded : Loaded fl) (p : Prepared fl) where
  pub item_of-IsItem :
      (sku : Text) (purchase_qty : ℕ) (item : SuggestionItem fl)
      → IsDistinct (keys (get_or sku p.country_qty []))
      → has_nothing u fl loaded p sku purchase_qty ≡ false
      → item_of u fl loaded p sku purchase_qty ≡ some item
      → IsItem fl item
  unfolding item_of
  item_of-IsItem sku purchase_qty item apart something run =
      let all = get_or sku p.country_qty [] in
      let (breakdown, split, tail) =
        >>=-eq-some (split_countries u fl loaded sku all ([], [])) _ run in
      let (inputs, _, last) =
        >>=-eq-some
          (build_calculation_inputs_snapshot fl p.generated_at p.demand_date p.days all
            (get_or sku p.velocity []) (get_or sku p.inventory []) (get sku loaded.local_stock)
            (get_or sku p.sale_days []) (demand_restock_dates all (some p.demand_date))
            purchase_qty)
          _ tail in
      subst (IsItem fl) (some_inj last) (
        ground arith,
        refl,
        split_countries-Covers u fl loaded all sku all ([], []) {result = breakdown}
            (AreFound-self all apart) tt split,
      )

  pub item_of-countries :
      (sku : Text) (n : ℕ) (item : SuggestionItem fl)
      → item_of u fl loaded p sku n ≡ some item
      → item.country_breakdown ≡ get_or sku p.country_qty []
  unfolding item_of
  item_of-countries sku n item run =
      let (breakdown, _, tail) =
        >>=-eq-some (split_countries u fl loaded sku (get_or sku p.country_qty []) ([], [])) _
          run in
      let (inputs, _, last) =
        >>=-eq-some
          (build_calculation_inputs_snapshot fl p.generated_at p.demand_date p.days
            (get_or sku p.country_qty []) (get_or sku p.velocity []) (get_or sku p.inventory [])
            (get sku loaded.local_stock) (get_or sku p.sale_days [])
            (demand_restock_dates (get_or sku p.country_qty []) (some p.demand_date)) n)
          _ tail in
      ap (λ (i : SuggestionItem fl). i.country_breakdown) (sym (some_inj last))

  -- What holds of every item that is made holds of all that a run inserts.
  pub items_to_insert-All {κ} :
      (P : SuggestionItem fl → Type κ)
      → ((sku : Text) (n : ℕ) (item : SuggestionItem fl)
          → has_nothing u fl loaded p sku n ≡ false
          → item_of u fl loaded p sku n ≡ some item
          → P item)
      → (skus : List Text) (items : List (SuggestionItem fl))
      → items_to_insert u fl loaded p skus ≡ some items
      → All P items
  unfolding items_to_insert
  items_to_insert-All P make [] items run = subst (All P) (some_inj run) tt
  items_to_insert-All P make (sku ∷ skus) items run =
      elim (Option-cases (purchase_qty_of u fl loaded p sku)) [
        | inl failed ↦ let stop = rw (failed, items_to_insert) at run in cc
        | inr (n, bought) ↦ elim (Bool-cases (has_nothing u fl loaded p sku n)) [
          | inl nothing ↦
              items_to_insert-All P make skus items (rw (bought, nothing, items_to_insert) at run)
          | inr something ↦ elim (Option-cases (item_of u fl loaded p sku n)) [
            | inl failed ↦ let stop = rw (bought, something, failed, items_to_insert) at run in cc
            | inr (item, made) ↦ elim (Option-cases (items_to_insert u fl loaded p skus)) [
              | inl failed ↦
                  let stop = rw (bought, something, made, failed, items_to_insert) at run in cc
              | inr (rest, later) ↦
                  subst (All P)
                    (some_inj (rw (bought, something, made, later, items_to_insert) at run))
                    (make sku n item something made, items_to_insert-All P make skus rest later)
            ]
          ]
        ]
      ]

local_same :
    (fl : Floats) (stock : Option LocalStock)
    → local_total_of fl stock ≡ local_total (local_or_zero stock)
unfolding local_total
local_same fl none = sym (+ℤ-zero_right (pos 0))
local_same fl (some stock) = refl

module _ (fl : Floats) where
  -- x
  pub purchase_inputs-compute_total :
      (safety_stock_days : ℤ) (country_qty : Dict Text ℤ) (velocity : Dict Text fl.Float)
      (local_stock : Option LocalStock) (purchase_qty : ℕ)
      → compute_total fl country_qty velocity local_stock safety_stock_days ≡ some purchase_qty
      → (inputs : PurchaseInputs fl) × (purchase_inputs fl safety_stock_days country_qty velocity
            local_stock purchase_qty
          ≡ some inputs)
        × (inputs.final_purchase_qty ≡ pos_part inputs.raw_purchase_qty)
  unfolding compute_total safety_qty_of purchase_inputs
  purchase_inputs-compute_total safety_stock_days country_qty velocity local_stock purchase_qty h =
      let velocity_total = sum_floats fl (fl.of_int (pos 0)) (values velocity) in
      elim (Option-cases (fl.ceil (fl.mul velocity_total (fl.of_int safety_stock_days)))) [
        | inl failed ↦ let stop = rw (failed, compute_total, safety_qty_of) at h in cc
        | inr (safety, e) ↦
            let same = some_inj (rw (e, compute_total, safety_qty_of) at h) in
            rw (e, purchase_inputs)
              (
                _,
                refl,
                subst (λ n. purchase_qty ≡ pos_part (sum_ℤ (values country_qty) -ℤ n +ℤ safety))
                    (local_same fl local_stock) (sym same),
              )
      ]
