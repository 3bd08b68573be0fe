-- ===== src/Engine/Urgency/Order.antt =====
-- A sku is urgent if one of its countries is, in whatever order the countries come.
use restock_system.Common.Floats.{Floats}
use restock_system.Common.{
  Dict, Text, Option, Bool, List, ◌≡◌, get, ltb, any, ◌∷◌, none, false, ◌&&◌, arith, ◌∙◌, [], some,
  refl, text_eq,
}
use restock_system.Engine.Urgency.{
  has_urgent_sale_days, compute_urgency_for_sku, positive_qty_countries,
}
use restock_system.Common.Int.{ℤ, pos_part}

-- The sale days of the country are known, and not above the lead time.
abbrev pub runs_out : (fl : Floats) → Dict Text (Option fl.Float) → ℤ → Text → Bool
runs_out fl sale_days lead_time_days country = elim (get country sale_days) [
  | none ↦ false
  | some none ↦ false
  | some (some days) ↦ fl.le days (fl.of_int lead_time_days)
]

-- The country has a quantity above zero and runs out.
abbrev pub presses : (fl : Floats) → Dict Text (Option fl.Float) → ℤ → Text × ℤ → Bool
presses fl sale_days lead_time_days (country, qty) =
    ltb 0 (pos_part qty) && runs_out fl sale_days lead_time_days country

module _ (fl : Floats) where
  has_urgent_sale_days-any :
      (sale_days : Dict Text (Option fl.Float)) (lead_time_days : ℤ) (countries : List Text)
      → has_urgent_sale_days fl sale_days lead_time_days countries
        ≡ any (runs_out fl sale_days lead_time_days) countries
  unfolding has_urgent_sale_days
  has_urgent_sale_days-any sale_days lead_time_days [] = refl
  has_urgent_sale_days-any sale_days lead_time_days (country ∷ countries) =
      ground (arith, has_urgent_sale_days-any sale_days lead_time_days countries)

  -- A sku is urgent exactly if one of its countries with a quantity above zero has known sale days
  -- that do not exceed the lead time.
  pub compute_urgency_for_sku-any :
      (sale_days : Dict Text (Option fl.Float)) (country_qty : Dict Text ℤ) (lead_time_days : ℤ)
      → compute_urgency_for_sku fl sale_days country_qty lead_time_days
        ≡ any (presses fl sale_days lead_time_days) country_qty
  unfolding compute_urgency_for_sku positive_qty_countries
  compute_urgency_for_sku-any sale_days country_qty lead_time_days =
      has_urgent_sale_days-any sale_days lead_time_days (positive_qty_countries country_qty)
      ∙ go country_qty
    where
      go :
          (country_qty : Dict Text ℤ)
          → any (runs_out fl sale_days lead_time_days) (positive_qty_countries country_qty)
            ≡ any (presses fl sale_days lead_time_days) country_qty
      go [] = refl
      go ((country, qty) ∷ rest) = ground (arith, go rest)
