-- ===== src/Core/Countries.antt =====
-- Country codes: backend/app/core/countries.py, backend/app/core/restock_regions.py, and
-- `apply_eu_mapping` of backend/app/core/country_mapping.py. A value is a text or None; `ValueError`
-- is `none`.
pub mod Members
pub mod Regions
pub mod Labels
use restock_system.Common.Strings.{Unicode, strip, upper}
use restock_system.Common.{
  ◌>>=◌, List, Dict, Text, Option, codes, get_or, [], Bool, if◌then◌else◌, some, ◌∷◌, length, not,
  true, elem, is_nil, ◌==◌, none, text_eq, ◌&&◌, false, ◌++◌, all, nat_eq, keep_if,
}

abbrev pub non_eu_member_codes : List Text
non_eu_member_codes = codes "EU" ∷ codes "ZZ" ∷ []

abbrev pub country_code_aliases : Dict Text Text
country_code_aliases = (codes "UK", codes "GB") ∷ []

-- `COUNTRY_CODE_ALIASES.get(code, code)`
unfoldable pub resolve_alias : Text → Text
resolve_alias code = get_or code country_code_aliases code

-- `str(value or "")`
abbrev pub text_of : Option Text → Text
text_of none = []
text_of (some t) = t

-- `len(code) == 2 and code.isalpha()`
unfoldable pub is_two_letters : Unicode → Text → Bool
is_two_letters u code = length code == 2 && all u.is_alpha code

-- `str(value or "").strip().upper()`
unfoldable pub trimmed_upper : Unicode → Option Text → Text
trimmed_upper u value = upper u (strip u (text_of value))

unfoldable pub is_valid_observed_country_code : Unicode → Option Text → Bool
is_valid_observed_country_code u value = is_two_letters u (trimmed_upper u value)

unfoldable pub normalize_observed_country_code : Unicode → Option Text → Option Text
normalize_observed_country_code u value =
    let code = trimmed_upper u value in
    if not (is_valid_observed_country_code u (some code)) then none else some (resolve_alias code)

unfoldable pub normalize_reportable_country_code : Unicode → Option Text → Option Text
normalize_reportable_country_code u value = elim (normalize_observed_country_code u value) [
  | none ↦ none
  | some code ↦ if code == codes "ZZ" then none else some code
]

unfoldable pub is_reportable_country_code : Unicode → Option Text → Bool
is_reportable_country_code u value = elim (normalize_reportable_country_code u value) [
  | some code ↦ true
  | none ↦ false
]

unfoldable pub normalize_source_country_or_unknown : Unicode → Option Text → Text
normalize_source_country_or_unknown u value = elim (normalize_observed_country_code u value) [
  | some code ↦ code
  | none ↦ codes "ZZ"
]

-- `if code in seen: continue`, and otherwise the append; `seen` holds what the list holds.
abbrev pub append_unseen : Text → List Text → List Text
append_unseen code normalized = if elem code normalized then normalized else normalized ++ code ∷ []

-- The loop of `normalize_country_list_for_eu_members`, from the list that it has so far.
unfoldable pub eu_members_from : Unicode → List (Option Text) → List Text → Option (List Text)
eu_members_from u [] normalized = some normalized
eu_members_from u (item ∷ items) normalized =
    let raw_code = trimmed_upper u item in
    let code = resolve_alias raw_code in
    let skipped = eu_members_from u items normalized in
    let taken = eu_members_from u items (append_unseen code normalized) in
    if is_nil raw_code
    then skipped
    else if not (is_two_letters u raw_code)
    then none
    else if elem code non_eu_member_codes
    then none
    else taken

unfoldable pub normalize_country_list_for_eu_members :
    Unicode → Option (List (Option Text)) → Option (List Text)
normalize_country_list_for_eu_members u none = some []
normalize_country_list_for_eu_members u (some items) = eu_members_from u items []

-- The loop of `normalize_restock_regions`
unfoldable pub restock_regions_from : Unicode → List (Option Text) → List Text → Option (List Text)
restock_regions_from u [] normalized = some normalized
restock_regions_from u (item ∷ items) normalized =
    let raw_code = trimmed_upper u item in
    let skipped = restock_regions_from u items normalized in
    if is_nil raw_code then skipped else elim (normalize_observed_country_code u (some raw_code)) [
      | none ↦ none
      | some code ↦ restock_regions_from u items (append_unseen code normalized)
    ]

unfoldable pub normalize_restock_regions :
    Unicode → Option (List (Option Text)) → Option (List Text)
normalize_restock_regions u none = some []
normalize_restock_regions u (some items) = restock_regions_from u items []

-- The inner `none` is Python's None: every region is allowed.
unfoldable pub resolve_allowed_restock_regions :
    Unicode → Option (List (Option Text)) → Option (Option (List Text))
resolve_allowed_restock_regions u value = do
  normalized ← normalize_restock_regions u value
  some (
      if is_nil normalized
      then none
      else some (keep_if (λ code. is_reportable_country_code u (some code)) normalized))

-- `normalize_observed_country_code(country) or country`
abbrev pub normalized_or : Option Text → Text → Text
normalized_or none country = country
normalized_or (some code) country = if is_nil code then country else code

unfoldable pub apply_eu_mapping : Unicode → Option Text → List Text → Option Text
apply_eu_mapping u none eu_countries = none
apply_eu_mapping u (some country) eu_countries =
    if country == codes "EU"
    then some (codes "EU")
    else let normalized_country =
        normalized_or (normalize_observed_country_code u (some country)) country in
      if elem normalized_country eu_countries then some (codes "EU") else some normalized_country
