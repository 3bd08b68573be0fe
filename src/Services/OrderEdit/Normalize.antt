-- ===== src/Services/OrderEdit/Normalize.antt =====
-- The new values of an order's fields (`_normalize_update_values` and its helpers, in
-- backend/app/services/order_edit.py). A `ValueError` with its message is the left of a sum.
use restock_system.Common.{
  Text, ℕ, Bool, Dict, true, leb, Option, [], ◌⊎◌, List, false, ◌&&◌, inl, none, ◌++◌, put,
  if◌then◌else◌, for_each, ◌||◌, codes, some, ◌∷◌, is_nil, get_or, text_eq, inr, ◌==◌, elem, not,
  keys, nat_eq,
}
use restock_system.Common.Strings.{Unicode, strip, lstrip}
use restock_system.Services.OrderEdit.{EditableField}
use restock_system.Core.Countries.{normalize_observed_country_code, normalized_or, apply_eu_mapping}
use restock_system.Core.Countries.Labels.{country_label}
use restock_system.Services.OrderEdit.{country_kind, text_kind}

-- A value of a cell or of a request: none, a date by its `strftime`, or another by its `str`
pub data RawValue : Type 0 where
  no_value : RawValue
  date_value : Text → RawValue
  other_value : Text → RawValue

pub record MatchError : Type 0 where
  pub row : ℕ
  pub field : Text
  pub message : Text

abbrev pub is_no_value : RawValue → Bool
is_no_value no_value = true
is_no_value (date_value t) = false
is_no_value (other_value t) = false

abbrev pub is_ascii_letter : ℕ → Bool
is_ascii_letter c = (leb b'A' c && leb c b'Z') || (leb b'a' c && leb c b'z')

-- What the loop over the fields builds
pub record Normalized : Type 0 where
  pub values : Dict Text (Option Text)
  pub country_overrides : Dict Text Text
  pub country_options : Dict Text Text
  pub errors : List MatchError

module _ (u : Unicode) where
  unfoldable pub string_cell : RawValue → Text
  string_cell no_value = []
  string_cell (date_value t) = t
  string_cell (other_value t) = strip u t

  abbrev pub code_or_error : Option Text → Text ⊎ Text
  code_or_error none = inl (codes "国家必须填写有效二字码")
  code_or_error (some code) = inr code

  unfoldable pub normalize_country_code_value : Text → Text ⊎ Text
  normalize_country_code_value value =
      code_or_error (normalize_observed_country_code u (some value))

  -- The mapped code, and the code before the mapping where that changed it
  unfoldable pub apply_import_country_mapping : Text → List Text → Text × Option Text
  apply_import_country_mapping code eu_countries =
      let mapped = normalized_or (apply_eu_mapping u (some code) eu_countries) code in
      (mapped, if mapped == codes "EU" && not (code == codes "EU") then some code else none)

  -- The two groups of `^([A-Za-z]{2})\s*-\s*(.+)$` on a stripped text
  abbrev pub after_dash : Text → Text → Option (Text × Text)
  after_dash code [] = none
  after_dash code (c ∷ cs) =
      let name = lstrip u cs in
      if c == b'-' && not (is_nil name) && not (elem 10 name) then some (code, name) else none

  unfoldable pub match_new_country : Text → Option (Text × Text)
  match_new_country [] = none
  match_new_country (a ∷ []) = none
  match_new_country (a ∷ b ∷ rest) =
      if is_ascii_letter a && is_ascii_letter b
      then after_dash (a ∷ b ∷ []) (lstrip u rest)
      else none

  -- The first option with a label
  abbrev pub option_labelled : Text → Dict Text Text → Option Text
  option_labelled text [] = none
  option_labelled text ((code, label) ∷ options) =
      if text == label then some code else option_labelled text options

  abbrev pub named_country : Dict Text Text → Option Text → Text → Text ⊎ (Text × Option Text)
  named_country options none name = inl (codes "新国家必须填写有效的 XX - 中文名")
  named_country options (some new_code) name =
      if is_nil name
      then inl (codes "新国家必须填写有效的 XX - 中文名")
      else if elem new_code (keys options)
      then inr (new_code, none)
      else inr (new_code, some name)

  abbrev pub new_country : Dict Text Text → Option (Text × Text) → Text ⊎ (Text × Option Text)
  new_country options none = inl (codes "国家必须使用已有代码/标签，或填写 XX - 中文名")
  new_country options (some (code, name)) =
      named_country options (normalize_observed_country_code u (some code)) (strip u name)

  -- The code of a country, and its name where it is a new one
  unfoldable pub normalize_country_value : Text → Dict Text Text → Text ⊎ (Text × Option Text)
  normalize_country_value value options =
      let text = strip u value in
      let labelled : Text ⊎ (Text × Option Text) = elim (option_labelled text options) [
        | some code ↦ inr (code, none)
        | none ↦ new_country options (match_new_country text)
      ] in
      elim (normalize_observed_country_code u (some text)) [
        | some code ↦ if elem code (keys options) then inr (code, none) else labelled
        | none ↦ labelled
      ]

  abbrev pub add_error : ℕ → EditableField → Text → Normalized → Normalized
  add_error row_number field message n =
      let error : MatchError = record {
        row = row_number;
        field = field.label;
        message = message;
      } in
      record n { errors = n.errors ++ error ∷ [] }

  abbrev pub set_value : Text → Option Text → Normalized → Normalized
  set_value name value n = record n { values = put name value n.values }

  -- A country in a workbook: its code, and the one before the mapping to EU
  abbrev pub set_imported : ℕ → List Text → EditableField → Text ⊎ Text → Normalized → Normalized
  set_imported row_number eu_countries field (inl message) n = add_error row_number field message n
  set_imported row_number eu_countries field (inr code) n =
      let (mapped, original_code) = apply_import_country_mapping code eu_countries in
      set_value (codes "original_country_code") original_code
        (set_value field.model_field (some mapped) n)

  -- A country in a request: a new name is kept, and is an option from then on.
  abbrev pub set_country : ℕ → EditableField → Text ⊎ (Text × Option Text) → Normalized → Normalized
  set_country row_number field (inl message) n = add_error row_number field message n
  set_country row_number field (inr (code, none)) n = set_value field.model_field (some code) n
  set_country row_number field (inr (code, some name)) n =
      let added : Normalized = set_value field.model_field (some code) n in
      record added {
        country_overrides = put code name n.country_overrides;
        country_options = put code (country_label u code ((code, name) ∷ [])) n.country_options;
      }

  abbrev pub set_given : ℕ → Bool → List Text → EditableField → Text → Normalized → Normalized
  set_given row_number country_code_only eu_countries field text_value n = elim field.kind [
    | country_kind ↦
        if country_code_only
        then set_imported row_number eu_countries field (normalize_country_code_value text_value) n
        else set_country row_number field (normalize_country_value text_value n.country_options) n
    | text_kind ↦
        set_value field.model_field (if is_nil text_value then none else some text_value) n
  ]

  -- One field: an empty cell is an error but for the postal code, and None in a request clears.
  unfoldable pub normalize_field :
      ℕ → Bool → Bool → List Text → EditableField → RawValue → Normalized → Normalized
  normalize_field row_number require_non_empty country_code_only eu_countries field raw_value n =
      let text_value = string_cell raw_value in
      if require_non_empty && is_nil text_value
      then (if field.model_field == codes "postal_code"
          then set_value field.model_field none n
          else add_error row_number field (codes "该字段不能为空") n)
      else if not require_non_empty && is_no_value raw_value
      then set_value field.model_field none n
      else set_given row_number country_code_only eu_countries field text_value n

  abbrev pub nothing_normalized : Dict Text Text → Normalized
  nothing_normalized country_options = record {
    values = [];
    country_overrides = [];
    country_options = country_options;
    errors = [];
  }

  unfoldable pub normalize_update_values :
      Dict Text RawValue
      → List EditableField
      → ℕ
      → Dict Text Text
      → Bool
      → Bool
      → List Text
      → Normalized
  normalize_update_values raw_updates fields row_number country_options require_non_empty
        country_code_only eu_countries =
      for_each
        (λ (field : EditableField).
          normalize_field row_number require_non_empty country_code_only eu_countries field
            (get_or field.model_field raw_updates no_value))
        fields (nothing_normalized country_options)
