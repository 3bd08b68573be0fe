-- ===== src/Services/OrderEdit/Apply.antt =====
-- The update of orders (`_apply_manual_updates`, `apply_parsed_order_info_match`,
-- `_format_match_errors`, `_group_error_reasons_by_row` in backend/app/services/order_edit.py). The table
-- of country names and the columns that no update touches are left out.
use restock_system.Common.{
  ℕ, Text, Dict, List, Option, codes, Bool, ◌++◌, for_each, ◌∷◌, if◌then◌else◌, any, add_member,
  true, elem, ◌+◌, put, [], some, ◌==◌, keep_if, sorted, ◌&&◌, keys, not, is_nil, get_or, none, get,
  text_eq, nat_eq, from_keys, suc, length, leb, ◌||◌,
}
use restock_system.Services.OrderEdit.Normalize.{MatchError}
use restock_system.Services.OrderEdit.Workbook.{ParsedWorkbook}
use restock_system.Services.Errors.{Reply, refused, validation_failed, answered, unhandled}
use restock_system.Common.Strings.{join, text_le}
use restock_system.Services.OrderEdit.{EditableField, editable_fields}
use restock_system.Tasks.Queue.{decimal}
pub mod Locked

pub record OrderHeader : Type 0 where
  pub id : ℕ
  pub amazon_order_id : Text
  pub source : Text
  pub country_code : Option Text
  pub original_country_code : Option Text
  pub postal_code : Option Text
  pub manual_edit_locked : Bool
  pub manual_edited_at : Option Text
  pub manual_edited_by : Option ℕ
  pub manual_edit_fields : List Text

abbrev pub order_source_package : Text
order_source_package = codes "订单处理"

-- `setattr` on one of the columns that are updated
abbrev pub set_attr : Text × Option Text → OrderHeader → OrderHeader
set_attr (field, value) header =
    if field == codes "country_code"
    then record header { country_code = value }
    else if field == codes "original_country_code"
    then record header { original_country_code = value }
    else if field == codes "postal_code"
    then record header { postal_code = value }
    else header

abbrev pub is_model_field : Text → Bool
is_model_field field = any (λ (f : EditableField). f.model_field == field) editable_fields

-- `existing_fields.update(...)`
abbrev pub add_edited : Dict Text (Option Text) → List Text → List Text
add_edited updates existing_fields =
    for_each add_member (keep_if is_model_field (keys updates)) existing_fields

unfoldable pub apply_manual_updates : Text → ℕ → Dict Text (Option Text) → OrderHeader → OrderHeader
apply_manual_updates now user_id updates header =
    let written = for_each set_attr updates header in
    record written {
      manual_edit_locked = true;
      manual_edited_at = some now;
      manual_edited_by = some user_id;
      manual_edit_fields =
          sorted text_le (add_edited updates (from_keys header.manual_edit_fields));
    }

-- The rows of the query
abbrev pub is_selected : List Text → OrderHeader → Bool
is_selected order_ids row = elem row.amazon_order_id order_ids && row.source == order_source_package

-- One row of the table, and whether it counts as updated
abbrev pub update_found :
    Text → ℕ → Option (Dict Text (Option Text)) → OrderHeader → OrderHeader × ℕ
update_found now user_id none row = (row, 0)
update_found now user_id (some updates) row = (apply_manual_updates now user_id updates row, 1)

abbrev pub update_row :
    Text → ℕ → Dict Text (Dict Text (Option Text)) → OrderHeader → OrderHeader × ℕ
update_row now user_id updates_by_order row =
    if is_selected (keys updates_by_order) row
    then update_found now user_id (get row.amazon_order_id updates_by_order) row
    else (row, 0)

-- The table after the loop, with the number of rows that it updated
unfoldable pub update_orders :
    Text → ℕ → Dict Text (Dict Text (Option Text)) → List OrderHeader → List OrderHeader × ℕ
update_orders now user_id updates_by_order [] = ([], 0)
update_orders now user_id updates_by_order (row ∷ rows) =
    let rest = update_orders now user_id updates_by_order rows in
    let one = update_row now user_id updates_by_order row in (one.0 ∷ rest.0, one.1 + rest.1)

-- `String(50)`: the database refuses a longer postal code. The other columns that an update writes hold
-- country codes of two letters.
abbrev pub fits_postal_code : OrderHeader → Bool
fits_postal_code row = elim row.postal_code [ none ↦ true | some code ↦ leb (length code) 50 ]

-- Whether every row can be written; the rows of the table before the update are, so that only those that it
-- changes count.
abbrev pub fits_columns : List OrderHeader → Bool
fits_columns [] = true
fits_columns (row ∷ rows) = fits_postal_code row && fits_columns rows

-- `interrupted` says that the report of progress raises; what has been written is rolled back then, as it is
-- where a column does not hold its value.
unfoldable pub apply_parsed_order_info_match :
    Text → ℕ → ParsedWorkbook → Bool → List OrderHeader → Reply (List OrderHeader × ℕ)
apply_parsed_order_info_match now user_id parsed interrupted orders =
    let done = update_orders now user_id parsed.updates_by_order orders in
    if not (is_nil parsed.errors)
    then refused validation_failed
    else if interrupted || not (fits_columns done.0)
    then refused unhandled
    else answered done

unfoldable pub format_match_errors : List MatchError → Text
format_match_errors [] = codes "订单信息匹配校验失败"
format_match_errors (first ∷ rest) =
    let suffix =
      if is_nil rest then [] else codes "等 " ++ decimal (suc (length rest)) ++ codes " 个错误" in
    codes "订单信息匹配校验失败：第 "
    ++ decimal first.row
    ++ codes " 行 "
    ++ first.field
    ++ codes "："
    ++ first.message
    ++ suffix

-- `grouped.setdefault(error.row, []).append(...)`
abbrev pub group_error : MatchError → Dict ℕ (List Text) → Dict ℕ (List Text)
group_error error grouped =
    let message = error.field ++ codes "：" ++ error.message in
    put error.row (get_or error.row grouped [] ++ message ∷ []) grouped

abbrev pub join_values : Dict ℕ (List Text) → Dict ℕ Text
join_values [] = []
join_values ((row, messages) ∷ grouped) = (row, join (codes "；") messages) ∷ join_values grouped

unfoldable pub group_error_reasons_by_row : List MatchError → Dict ℕ Text
group_error_reasons_by_row errors = join_values (for_each group_error errors [])
