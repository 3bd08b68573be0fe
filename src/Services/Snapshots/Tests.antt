-- ===== src/Services/Snapshots/Tests.antt =====
-- An export of one suggestion.
use restock_system.Common.Strings.{Unicode, strip}
use restock_system.Services.Snapshots.{
  ExportItem, Exports, draft_status, save_snapshot, restock, chosen_items, next_version,
}
use restock_system.Services.Snapshots.Validate.{
  create_snapshot, validate_restock_snapshot_items, item_errors, check_countries, check_splits,
  check_warehouses,
}
use restock_system.Common.{All, ◌==◌, codes, ◌∷◌, leb, [], ◌&&◌, none, ◌≡◌, nat_eq, refl}
use restock_system.Services.Snapshots.Versions.{IsNumbered}
use restock_system.Services.Snapshots.Exact.{IsExact, create_snapshot-IsExact}
use restock_system.Services.Snapshots.Steps.{ExportStep-IsNumbered, created}
use restock_system.Common.Int.{pos, ◌+ℤ◌}
use restock_system.Services.Errors.{answered}
use restock_system.Core.Countries.{
  is_reportable_country_code, normalize_reportable_country_code, normalize_observed_country_code,
  is_valid_observed_country_code, is_two_letters, trimmed_upper, resolve_alias,
}

abbrev letters : Unicode
letters = record {
  is_space = λ c. c == b' ';
  is_alpha = λ c. leb b'A' c && leb c b'z';
  upper = λ c. c ∷ [];
  digit_value = λ c. none;
}

abbrev item_one : ExportItem
item_one = record {
  id = 1;
  suggestion_id = 1;
  commodity_sku = codes "S";
  total_qty = pos 5;
  purchase_qty = pos 0;
  country_breakdown = (codes "US", pos 5) ∷ [];
  warehouse_breakdown = (codes "US", (codes "w1", pos 2) ∷ (codes "w2", pos 3) ∷ []) ∷ [];
  procurement_exported_snapshot_id = none;
  restock_exported_snapshot_id = none;
}

abbrev drafts : Exports
drafts = record {
  suggestions = record { id = 1; status = draft_status } ∷ [];
  items = item_one ∷ [];
  snapshots = [];
  next_snapshot_id = 1;
  lines = [];
}

abbrev exported : Exports
exported = save_snapshot 1 restock (item_one ∷ []) drafts

export_run : create_snapshot letters 1 (1 ∷ []) restock drafts ≡ answered exported
unfolding create_snapshot validate_restock_snapshot_items item_errors check_splits check_countries
    check_warehouses save_snapshot chosen_items next_version strip ◌+ℤ◌ is_reportable_country_code
    normalize_reportable_country_code normalize_observed_country_code is_valid_observed_country_code
    is_two_letters trimmed_upper resolve_alias
export_run = refl

create_snapshot-IsExact_example : All (IsExact letters) (chosen_items 1 (1 ∷ []) drafts.items)
create_snapshot-IsExact_example = create_snapshot-IsExact letters 1 (1 ∷ []) drafts export_run

ExportStep-IsNumbered_example : IsNumbered exported
ExportStep-IsNumbered_example =
    ExportStep-IsNumbered letters drafts exported
      (created 1 (1 ∷ []) restock drafts exported export_run) (record { rising = tt; owned = tt })
