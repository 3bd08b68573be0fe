-- ===== src/Engine/SaleDays/Lookup.antt =====
-- What `merge_inventory` and `compute_sale_days` leave for a sku and a country.
use restock_system.Engine.SaleDays.{
  merge_keys, merge_inventory, Oversea, sale_days_of, compute_sale_days, merged_stock,
}
use restock_system.Common.Floats.{Floats}
use restock_system.Common.{
  Dict, List, Text, Option, some, ◌≡◌, if◌then◌else◌, none, elem, arith, ◌&&◌, [], refl, not, ◌∙◌,
  ◌∷◌, Bool-cases, inl, pair_eq, inr, ◌≢◌, All-of,
}
use restock_system.Common.Strings.{Unicode}
use restock_system.Engine.Context.{BySku, InventoryStock, at, stock_total, set_at}
use restock_system.Common.Int.{ℤ, pos}
use restock_system.Engine.Context.Fill.{
  written, IsTable, fill_from-at, at-write_at, fill_from-total,
}
use restock_system.Core.Countries.{is_reportable_country_code}

merge_keys-at :
    (oversea : Dict (Text × Text) Oversea) (in_transit : Dict (Text × Text) ℤ) (s c : Text)
    (ks : List (Text × Text)) (merged : BySku InventoryStock)
    → at s c (merge_keys oversea in_transit ks merged)
      ≡ (if elem (s, c) ks then some (merged_stock oversea in_transit (s, c)) else at s c merged)
unfolding merge_keys
merge_keys-at oversea in_transit s c [] merged = refl
merge_keys-at oversea in_transit s c ((sku, country) ∷ ks) merged =
    let stock = merged_stock oversea in_transit (sku, country) in
    elim (Bool-cases (pair_eq.same (sku, country) (s, c))) [
      | inl e ↦
          let same : ((sku, country) ≡ (s, c)) = (pair_eq.same_iff (sku, country) (s, c)).0 e in
          ground (
            arith,
            merge_keys-at oversea in_transit s c ks (set_at sku country stock merged),
            at-write_at sku country s c (some stock) merged,
            e,
            same,
          )
      | inr e ↦ ground (
        arith,
        merge_keys-at oversea in_transit s c ks (set_at sku country stock merged),
        at-write_at sku country s c (some stock) merged,
        e,
      )
    ]

-- The merged inventory has a stock for exactly the keys that it runs through, whatever their order:
-- the overseas stock and the quantity in transit of that key, each 0 where it is missing.
pub merge_inventory-at :
    (ks : List (Text × Text)) (oversea : Dict (Text × Text) Oversea)
    (in_transit : Dict (Text × Text) ℤ) (s c : Text)
    → at s c (merge_inventory ks oversea in_transit)
      ≡ (if elem (s, c) ks then some (merged_stock oversea in_transit (s, c)) else none)
unfolding merge_inventory
merge_inventory-at ks oversea in_transit s c = merge_keys-at oversea in_transit s c ks []

module _ (fl : Floats) (u : Unicode) (inventory : BySku InventoryStock) where
  -- The days that the stock of a sku and country lasts, at its velocity, if it has one.
  abbrev pub days_left : Text → Text → Option fl.Float → Option fl.Float
  days_left s c none = none
  days_left s c (some v) =
      if is_reportable_country_code u (some c) && not (fl.le v (fl.of_int (pos 0)))
      then elim (at s c inventory) [
        | none ↦ none
        | some stock ↦ some (fl.div (fl.of_int (stock_total stock)) v)
      ]
      else none

  written-days_left :
      (s c : Text) (v : Option fl.Float)
      → written (sale_days_of fl u inventory) s c v none ≡ days_left s c v
  unfolding sale_days_of
  written-days_left s c none = refl
  written-days_left s c (some v) = ground arith

  -- Of velocities that have each sku and country once, the step gives a sku and country sale days
  -- exactly if the country is reportable, the velocity above zero and the stock known, and then they
  -- are the total stock by the velocity.
  pub compute_sale_days-at :
      (s c : Text) (velocity : BySku fl.Float) {sale_days : BySku fl.Float}
      → IsTable velocity
      → compute_sale_days fl u inventory velocity ≡ some sale_days
      → at s c sale_days ≡ days_left s c (at s c velocity)
  unfolding compute_sale_days
  compute_sale_days-at s c velocity d h =
      fill_from-at (sale_days_of fl u inventory) s c velocity [] d h
      ∙ written-days_left s c (at s c velocity)

  sale_days_of-total : (s c : Text) (v : fl.Float) → sale_days_of fl u inventory s c v ≢ none
  unfolding sale_days_of
  sale_days_of-total s c v = ground arith

  -- The step never fails: it divides by velocities above zero only.
  pub compute_sale_days-total :
      (velocity : BySku fl.Float) → compute_sale_days fl u inventory velocity ≢ none
  unfolding compute_sale_days
  compute_sale_days-total velocity = fill_from-total (sale_days_of fl u inventory) velocity [] (
      All-of _ velocity
        (λ (sku, cm). All-of _ cm (λ (country, v). sale_days_of-total sku country v)))
