-- ===== src/Services/OrderEdit/Tests.antt =====
-- The choice of fields, and a workbook of new values, at concrete inputs.
use Prim.Native.String.{String}
use restock_system.Common.Strings.{Unicode, join, strip}
use restock_system.Services.OrderEdit.Normalize.{
  RawValue, other_value, string_cell, normalize_update_values, normalize_field,
  normalize_country_code_value, apply_import_country_mapping,
}
use restock_system.Common.{
  List, ℕ, is_nil, get, ◌==◌, ◌∷◌, Option, ◌≡◌, codes, leb, [], some, true, ◌&&◌, none, refl,
  if◌then◌else◌, false, All, ◌-◌, Text, any, nat_eq, text_eq, inl, inr, keys, Dict,
}
use restock_system.Services.Errors.{Reply, refused, answered}
use restock_system.Services.OrderEdit.Workbook.{
  ParsedWorkbook, parse_match_workbook, workbook_of, no_rows, match_rows, match_row,
}
use restock_system.Services.OrderEdit.Workbook.Safe.{IsSafe, parse_match_workbook-IsSafe}
use restock_system.Services.OrderEdit.{
  parse_requested_fields, editable_fields, one_text, country_field, postal_field,
}
use restock_system.Services.OrderEdit.Apply.{
  OrderHeader, order_source_package, apply_parsed_order_info_match,
}
use restock_system.Services.OrderEdit.Apply.Locked.{
  package_order_ids, is_locked, apply_parsed_order_info_match-locked, IsShort,
}
use restock_system.Services.OrderEdit.RoundTrip.{parse_requested_fields-join}
use restock_system.Core.Countries.{
  normalize_observed_country_code, is_valid_observed_country_code, is_two_letters, trimmed_upper,
  apply_eu_mapping, resolve_alias,
}

abbrev spaces_only : Unicode
spaces_only = record {
  is_space = λ c. c == b' ';
  is_alpha = λ c. leb b'A' c && leb c b'z';
  upper = λ c. (if leb b'a' c && leb c b'z' then c - 32 else c) ∷ [];
  digit_value = λ c. none;
}

parse_requested_fields-join_example :
    parse_requested_fields spaces_only (λ t. t) (one_text (codes "国家,邮编"))
    ≡ answered (country_field ∷ postal_field ∷ [])
unfolding join
parse_requested_fields-join_example =
    parse_requested_fields-join spaces_only (λ t. t) true country_field (postal_field ∷ [])
      (inl refl, (inr refl, tt)) ((refl, (refl, tt)), ((refl, (refl, tt)), tt)) (refl, (refl, tt))

abbrev value : String → RawValue
value t = other_value (codes t)

-- A header and two orders, of which one has no postal code
abbrev sheet : List (List RawValue)
sheet =
    (value "订单号" ∷ value "国家" ∷ value "邮编" ∷ [])
    ∷ (value "o-1" ∷ value "de" ∷ value " 10115" ∷ [])
    ∷ []
    ∷ (value "o-2" ∷ value "us" ∷ [])
    ∷ []

abbrev load_sheet : List ℕ → Option (List (List RawValue))
load_sheet content = some sheet

abbrev order_of : ℕ → String → OrderHeader
order_of id name = record {
  id = id;
  amazon_order_id = codes name;
  source = order_source_package;
  country_code = some (codes "FR");
  original_country_code = none;
  postal_code = none;
  manual_edit_locked = false;
  manual_edited_at = none;
  manual_edited_by = none;
  manual_edit_fields = [];
}

abbrev orders : List OrderHeader
orders = order_of 1 "o-1" ∷ order_of 2 "o-2" ∷ order_of 3 "o-3" ∷ []

abbrev parsed_of : Reply ParsedWorkbook → ParsedWorkbook
parsed_of (refused e) = workbook_of spaces_only [] [] [] (no_rows spaces_only [] [] [] [])
parsed_of (answered parsed) = parsed

abbrev parsed_sheet : ParsedWorkbook
parsed_sheet = parsed_of (
    parse_match_workbook spaces_only editable_fields (codes "DE" ∷ []) (package_order_ids orders)
      load_sheet [] (1 ∷ []))

sheet_run :
    parse_match_workbook spaces_only editable_fields
      (codes "DE" ∷ [])
      (package_order_ids orders)
      load_sheet
      []
      (1 ∷ [])
    ≡ answered parsed_sheet
unfolding parse_match_workbook workbook_of match_rows match_row string_cell normalize_update_values
    normalize_field normalize_country_code_value apply_import_country_mapping strip
    normalize_observed_country_code is_valid_observed_country_code is_two_letters trimmed_upper
    resolve_alias apply_eu_mapping
sheet_run = refl

clean_run : is_nil parsed_sheet.errors ≡ true
unfolding parse_match_workbook workbook_of match_rows match_row string_cell normalize_update_values
    normalize_field normalize_country_code_value apply_import_country_mapping strip
    normalize_observed_country_code is_valid_observed_country_code is_two_letters trimmed_upper
    resolve_alias apply_eu_mapping
clean_run = refl

-- A German order is one of the EU.
country_run :
    get (codes "o-1") parsed_sheet.updates_by_order
    ≡ some (
        (codes "country_code", some (codes "EU"))
        ∷ (codes "original_country_code", some (codes "DE"))
        ∷ (codes "postal_code", some (codes "10115"))
        ∷ [])
unfolding parse_match_workbook workbook_of match_rows match_row string_cell normalize_update_values
    normalize_field normalize_country_code_value apply_import_country_mapping strip
    normalize_observed_country_code is_valid_observed_country_code is_two_letters trimmed_upper
    resolve_alias apply_eu_mapping
country_run = refl

parse_match_workbook-IsSafe_example :
    IsSafe spaces_only editable_fields (codes "DE" ∷ []) (package_order_ids orders) parsed_sheet
parse_match_workbook-IsSafe_example =
    parse_match_workbook-IsSafe spaces_only editable_fields (codes "DE" ∷ [])
      (package_order_ids orders) load_sheet [] (1 ∷ []) sheet_run

codes-IsShort :
    All (λ (x : Text × Dict Text (Option Text)). IsShort x.1) parsed_sheet.updates_by_order
unfolding parse_match_workbook workbook_of match_rows match_row string_cell normalize_update_values
    normalize_field normalize_country_code_value apply_import_country_mapping strip
    normalize_observed_country_code is_valid_observed_country_code is_two_letters trimmed_upper
    resolve_alias apply_eu_mapping
codes-IsShort = ((refl, (refl, (refl, tt))), ((refl, (refl, (refl, tt))), tt))

apply_parsed_order_info_match-locked_example :
    (after : List OrderHeader) × (updated : ℕ) × (apply_parsed_order_info_match
        (codes "now")
        7
        parsed_sheet
        false
        orders
      ≡ answered (after, updated))
    × All (λ (id : Text). any (is_locked id) after ≡ true) (keys parsed_sheet.updates_by_order)
apply_parsed_order_info_match-locked_example =
    apply_parsed_order_info_match-locked spaces_only editable_fields (codes "DE" ∷ []) load_sheet []
      (1 ∷ []) (codes "now") 7 orders sheet_run clean_run refl codes-IsShort
