-- ===== src/Engine/Warnings.antt =====
-- The diagnostics of a suggestion item (backend/app/engine/warnings.py) and its restock dates
-- (backend/app/engine/restock_dates.py). A quantity is an integer; sale days are a float, or None,
-- which `float` refuses.
pub mod Single
use restock_system.Common.Floats.{Floats}
use restock_system.Common.Strings.{Unicode, text_le}
use restock_system.Common.{
  pair_eq, Text, Dict, codes, Bool, Option, true, List, ◌∷◌, false, if◌then◌else◌, sorted, [], none,
  ltb, not, from_keys, some, ◌||◌, elem, ◌++◌, ◌==◌, get, text_eq, ◌&&◌, nat_eq,
}
use restock_system.Common.Int.{ℤ, pos_part}
use restock_system.Core.Countries.{is_reportable_country_code}

pub data Code : Type 0 where
  missing_inventory_record country_added_after_generation missing_velocity invalid_sale_days
        non_reportable_country :
      Code

-- The text of a code
abbrev pub code_text : Code → Text
code_text missing_inventory_record = codes "missing_inventory_record"
code_text country_added_after_generation = codes "country_added_after_generation"
code_text missing_velocity = codes "missing_velocity"
code_text invalid_sale_days = codes "invalid_sale_days"
code_text non_reportable_country = codes "non_reportable_country"

abbrev pub warning_message : Code → Text
warning_message missing_inventory_record = codes "有销量但缺少库存或在途记录，未把未知库存按 0 参与补货计算"
warning_message country_added_after_generation = codes "该国家是在建议单生成后手工新增，缺少原始可售天数"
warning_message missing_velocity = codes "缺少该国家的销量速度，无法计算可售天数"
warning_message invalid_sale_days = codes "可售天数不是有效数值，无法计算紧急状态和补货日期"
warning_message non_reportable_country = codes "该国家不可用于报表或补货计算"

pub record CalculationWarning : Type 0 where
  pub code : Text
  pub country : Text
  pub reason : Text
  pub message : Text

-- `make_warning` without a reason of its own
abbrev pub make_warning : Code → Text → CalculationWarning
make_warning code country = record {
  code = code_text code;
  country = country;
  reason = code_text code;
  message = warning_message code;
}

-- The countries with a quantity above zero
abbrev pub positive_countries : Dict Text ℤ → List Text
positive_countries [] = []
positive_countries ((country, qty) ∷ country_qty) =
    let rest = positive_countries country_qty in
    if ltb 0 (pos_part qty) then country ∷ rest else rest

module _ (fl : Floats) (u : Unicode) (sale_days : Dict Text (Option fl.Float))
    (added missing_inventory : List Text) where
  -- The diagnosis of a country, if it has one; a country without velocity gets the same code in both
  -- branches of the source.
  unfoldable pub code_of : Text → Option Code
  code_of country =
      if not (is_reportable_country_code u (some country))
      then some non_reportable_country
      else if elem country missing_inventory
      then some missing_inventory_record
      else elim (get country sale_days) [
        | none ↦
            if elem country added
            then some country_added_after_generation
            else some missing_velocity
        | some none ↦ some invalid_sale_days
        | some (some days) ↦ none
      ]

  -- The loop over the sorted candidates; `seen` holds the codes and countries so far.
  unfoldable pub warnings_from : List Text → List (Text × Text) → List CalculationWarning
  warnings_from [] seen = []
  warnings_from (country ∷ countries) seen = elim (code_of country) [
    | none ↦ warnings_from countries seen
    | some code ↦ elim (elem (code_text code, country) seen) [
      | true ↦ warnings_from countries seen
      | false ↦
          make_warning code country ∷ warnings_from countries ((code_text code, country) ∷ seen)
    ]
  ]

  -- The set of candidates, sorted
  abbrev pub candidate_countries : Dict Text ℤ → List Text
  candidate_countries country_qty =
      sorted text_le (from_keys (positive_countries country_qty ++ missing_inventory))

  unfoldable pub build_calculation_warnings : Dict Text ℤ → List CalculationWarning
  build_calculation_warnings country_qty = warnings_from (candidate_countries country_qty) []

-- `demand_restock_dates`; the date is given as its text, or None.
unfoldable pub demand_restock_dates : Dict Text ℤ → Option Text → Dict Text (Option Text)
demand_restock_dates [] restock_date = []
demand_restock_dates ((country, qty) ∷ country_qty) restock_date =
    let rest = demand_restock_dates country_qty restock_date in
    if ltb 0 (pos_part qty) then (country, restock_date) ∷ rest else rest
