-- ===== src/Engine/Runner/Filters.antt =====
-- The filters of backend/app/engine/runner.py, by lookup.
use restock_system.Engine.Runner.Config.{
  keep_keys, keep_countries, filter_allowed_country_map, filter_reportable_country_map, is_allowed,
}
use restock_system.Common.{
  Text, Bool, Dict, get, Option, ◌≡◌, List, if◌then◌else◌, none, arith, some, ◌&&◌, ◌∷◌, Bool-cases,
  ◌==◌, inl, get_or, inr, [], text_eq, elem,
}
use restock_system.Engine.Context.{BySku, at}
use restock_system.Common.Strings.{Unicode}
use restock_system.Core.Countries.{is_reportable_country_code}

get-keep_keys {ℓ} :
    {A : Type ℓ} (p : Text → Bool) (country : Text) (d : Dict Text A)
    → get country (keep_keys p d) ≡ (if p country then get country d else none)
get-keep_keys p country [] = ground arith
get-keep_keys p country ((k, v) ∷ d) =
    ground (arith, text_eq.same_iff k country, get-keep_keys p country d)

at-keep_countries {ℓ} :
    {A : Type ℓ} (p : Text → Bool) (sku country : Text) (m : BySku A)
    → at sku country (keep_countries p m) ≡ (if p country then at sku country m else none)
at-keep_countries p sku country [] = ground arith
at-keep_countries p sku country ((k, d) ∷ m) = elim (Bool-cases (k == sku)) [
  | inl q ↦ rw (q, get_or) (get-keep_keys p country d)
  | inr q ↦ rw (q, get_or) (at-keep_countries p sku country m)
]

-- A filtered map holds what the map holds of a country that is reportable and allowed, and nothing of
-- another country.
pub at-filter_allowed_country_map {ℓ} :
    {A : Type ℓ} (u : Unicode) (m : BySku A) (allowed : Option (List Text)) (sku country : Text)
    → at sku country (filter_allowed_country_map u m allowed) ≡ (
        if is_reportable_country_code u (some country) && is_allowed allowed country
        then at sku country m
        else none)
unfolding filter_allowed_country_map filter_reportable_country_map
at-filter_allowed_country_map u m none sku country =
    ground (arith, at-keep_countries (λ c. is_reportable_country_code u (some c)) sku country m)
at-filter_allowed_country_map u m (some allowed) sku country = ground (
  arith,
  at-keep_countries (λ c. elem c allowed) sku country (filter_reportable_country_map u m),
  at-keep_countries (λ c. is_reportable_country_code u (some c)) sku country m,
)
