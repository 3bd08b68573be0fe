-- ===== src/Engine/CountryQty/Lookup.antt =====
-- What the step leaves for a sku and a country, and that it does not fail.
use restock_system.Common.Floats.{Floats}
use restock_system.Common.Strings.{Unicode}
use restock_system.Engine.Context.{BySku, InventoryStock, at, stock_total}
use restock_system.Common.Int.{ℤ, pos}
use restock_system.Common.{
  Text, Option, ◌≢◌, ◌≡◌, none, some, if◌then◌else◌, arith, refl, ◌&&◌, [], not, ◌∙◌, Option-cases,
  All, All-map_to, inl, inr,
}
use restock_system.Engine.CountryQty.{country_qty_of, compute_country_qty}
use restock_system.Engine.Context.Fill.{IsTable, written, fill_from-at, fill_from-total}
use restock_system.Core.Countries.{is_reportable_country_code}

module _ (fl : Floats) (u : Unicode) (inventory : BySku InventoryStock) (target_days : ℤ) where
  -- The quantity of a sku and country: of its velocity, if it has one.
  abbrev pub restock_qty : Text → Text → Option fl.Float → Option ℤ
  restock_qty s c none = none
  restock_qty s c (some v) =
      if is_reportable_country_code u (some c) && not (fl.le v (fl.of_int (pos 0)))
      then elim (at s c inventory) [
        | none ↦ none
        | some stock ↦
            let raw = fl.sub (fl.mul (fl.of_int target_days) v) (fl.of_int (stock_total stock)) in
            if fl.le raw (fl.of_int (pos 0)) then none else fl.ceil raw
      ]
      else none

  written-restock_qty :
      (s c : Text) (v : Option fl.Float)
      → written (country_qty_of fl u inventory target_days) s c v none ≡ restock_qty s c v
  unfolding country_qty_of
  written-restock_qty s c none = refl
  written-restock_qty s c (some v) = ground arith

  -- Of velocities that have each sku and country once, the step gives a sku and country a quantity
  -- exactly if the country is reportable, the velocity above zero, the stock known and less than the
  -- target asks for, and then it is the missing amount, rounded up.
  pub compute_country_qty-at :
      (s c : Text) (velocity : BySku fl.Float) {country_qty : BySku ℤ}
      → IsTable velocity
      → compute_country_qty fl u inventory target_days velocity ≡ some country_qty
      → at s c country_qty ≡ restock_qty s c (at s c velocity)
  unfolding compute_country_qty
  compute_country_qty-at s c velocity d h =
      fill_from-at (country_qty_of fl u inventory target_days) s c velocity [] d h
      ∙ written-restock_qty s c (at s c velocity)

  -- What is missing at a velocity of any stock can be rounded up: the velocity is a finite number.
  abbrev pub IsFine : fl.Float → Type 0
  IsFine v = (n : ℤ) → fl.ceil (fl.sub (fl.mul (fl.of_int target_days) v) (fl.of_int n)) ≢ none

  country_qty_of-IsFine :
      (s c : Text) (v : fl.Float)
      → IsFine v
      → country_qty_of fl u inventory target_days s c v ≢ none
  country_qty_of-IsFine s c v ok = elim (Option-cases (at s c inventory)) [
    | inl absent ↦ unfold country_qty_of in ground (arith, absent)
    | inr (stock, e) ↦
        let n = stock_total stock in
        elim (Option-cases (fl.ceil (fl.sub (fl.mul (fl.of_int target_days) v) (fl.of_int n)))) [
          | inl none_left ↦ absurd (ok n none_left)
          | inr (qty, found) ↦ unfold country_qty_of in ground (arith, e, found)
        ]
  ]

  -- The step does not fail on a table of velocities that can be rounded up.
  pub compute_country_qty-total :
      (velocity : BySku fl.Float)
      → All (λ (sku, cm). All (λ (country, v). IsFine v) cm) velocity
      → compute_country_qty fl u inventory target_days velocity ≢ none
  unfolding compute_country_qty
  compute_country_qty-total velocity ok =
      fill_from-total (country_qty_of fl u inventory target_days) velocity [] (
        All-map_to _ _ velocity
          (λ (sku, cm) fine.
            All-map_to _ _ cm (λ (country, v). country_qty_of-IsFine sku country v) fine)
          ok)
