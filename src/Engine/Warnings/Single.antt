-- ===== src/Engine/Warnings/Single.antt =====
-- A suggestion item has one warning for each country with a diagnosis, in the order of the countries.
use restock_system.Common.{
  pair_eq, Text, List, elem, IsDistinct, AreApart, ◌∷◌, ◌≡◌, Dict, [], text_eq, false, Option,
  arith, Bool, map, refl, keep_if, none, Option-cases, some, true, from_keys-IsDistinct, inl, inr,
  ◌++◌, ap, AreApart-nil, sorted-IsDistinct,
}
use restock_system.Common.Floats.{Floats}
use restock_system.Common.Strings.{Unicode}
use restock_system.Engine.Warnings.{
  text_le, warnings_from, build_calculation_warnings, code_of, candidate_countries,
  positive_countries, code_text,
}
use restock_system.Common.Int.{ℤ}

-- The countries of what the loop has seen
abbrev seen_countries : List (Text × Text) → List Text
seen_countries [] = []
seen_countries ((code, country) ∷ seen) = country ∷ seen_countries seen

unseen :
    (code country : Text) (seen : List (Text × Text))
    → elem country (seen_countries seen) ≡ false
    → elem (code, country) seen ≡ false
unseen code country [] h = refl
unseen code country ((k, c) ∷ seen) h = ground (arith, h, unseen code country seen)

-- The lists have no country in common.
abbrev AreUnseen : List (Text × Text) → List Text → Type 0
AreUnseen seen countries = AreApart (seen_countries seen) countries

more-unseen :
    (k c : Text) (seen : List (Text × Text)) (countries : List Text)
    → elem c countries ≡ false
    → AreUnseen seen countries
    → AreUnseen ((k, c) ∷ seen) countries
more-unseen k c seen [] h a = tt
more-unseen k c seen (x ∷ countries) h a = (
  ground (arith, h, a.0, text_eq.same_iff x c, text_eq.same_iff c x),
  more-unseen k c seen countries (ground (arith, h)) a.1,
)

module _ (fl : Floats) (u : Unicode) (sale_days : Dict Text (Option fl.Float))
    (added missing_inventory : List Text) where
  abbrev pub is_diagnosed : Text → Bool
  is_diagnosed country = elim (code_of fl u sale_days added missing_inventory country) [
    | none ↦ false
    | some code ↦ true
  ]

  warnings_from-countries :
      (countries : List Text) (seen : List (Text × Text))
      → IsDistinct countries
      → AreUnseen seen countries
      → map (λ w. w.country) (warnings_from fl u sale_days added missing_inventory countries seen)
        ≡ keep_if is_diagnosed countries
  unfolding warnings_from
  warnings_from-countries [] seen d a = refl
  warnings_from-countries (c ∷ countries) seen d a =
      elim (Option-cases (code_of fl u sale_days added missing_inventory c)) [
        | inl e ↦
            let off : is_diagnosed c ≡ false = ground (arith, e) in
            rw (off, e, warnings_from) (warnings_from-countries countries seen d.1 a.1)
        | inr (code, e) ↦
            let new : elem (code_text code, c) seen ≡ false = unseen (code_text code) c seen a.0 in
            let on : is_diagnosed c ≡ true = ground (arith, e) in
            rw (on, e, new, warnings_from)
              (ap (◌∷◌ c) (
                warnings_from-countries countries ((code_text code, c) ∷ seen) d.1
                  (more-unseen (code_text code) c seen countries d.0 a.1)))
      ]

  -- The countries of the warnings are exactly the candidates that have a diagnosis, each once and in
  -- the order of the candidates.
  pub build_calculation_warnings-countries :
      (country_qty : Dict Text ℤ)
      → map
          (λ w. w.country)
          (build_calculation_warnings fl u sale_days added missing_inventory country_qty)
        ≡ keep_if is_diagnosed
            (candidate_countries fl u sale_days added missing_inventory country_qty)
  unfolding build_calculation_warnings
  build_calculation_warnings-countries country_qty =
      warnings_from-countries
        (candidate_countries fl u sale_days added missing_inventory country_qty) []
        (sorted-IsDistinct text_le _
          (from_keys-IsDistinct (positive_countries country_qty ++ missing_inventory)))
        (AreApart-nil (candidate_countries fl u sale_days added missing_inventory country_qty))
