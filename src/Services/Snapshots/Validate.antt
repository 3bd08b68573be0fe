-- ===== src/Services/Snapshots/Validate.antt =====
-- The checks of the items of an export (`_create_snapshot`, `_validate_restock_snapshot_items` in
-- backend/app/api/snapshot.py).
use restock_system.Common.Int.{int_eq}
use restock_system.Common.{
  ℕ, Text, Bool, Dict, List, Option, if◌then◌else◌, ◌++◌, all, ◌∷◌, not, is_nil, [], elem, some,
  keys, ◌==◌, get_or, text_eq, length, none, nat_eq,
}
use restock_system.Common.Int.{ℤ, ltb_ℤ, pos, ◌+ℤ◌}
use restock_system.Common.Strings.{Unicode}
use restock_system.Services.Snapshots.{
  ExportItem, SnapshotType, SuggestionRow, Exports, find_suggestion, procurement, restock,
  chosen_items, is_draft_status, save_snapshot,
}
use restock_system.Services.Errors.{
  Reply, refused, not_found, conflict, validation_failed, answered,
}
use restock_system.Core.Countries.{is_reportable_country_code}

pub data SnapshotError : Type 0 where
  country_not_reportable quantity_not_positive split_without_country split_total_differs :
      ℕ → Text → SnapshotError
  nothing_to_restock : ℕ → SnapshotError
  split_not_positive : ℕ → Text → Text → SnapshotError

abbrev pub is_positive_int : ℤ → Bool
is_positive_int value = ltb_ℤ (pos 0) value

module _ (u : Unicode) where
  -- The loop over the countries of an item: the errors, and the positive total
  unfoldable pub check_countries : ℕ → Dict Text ℤ → List SnapshotError × ℤ
  check_countries id [] = ([], pos 0)
  check_countries id ((country, qty) ∷ breakdown) =
      let rest = check_countries id breakdown in
      if not (is_reportable_country_code u (some country))
      then (country_not_reportable id country ∷ rest.0, rest.1)
      else if not (is_positive_int qty)
      then (quantity_not_positive id country ∷ rest.0, rest.1)
      else (rest.0, qty +ℤ rest.1)

  -- The loop over the warehouses of a country
  unfoldable pub check_warehouses : ℕ → Text → Dict Text ℤ → List SnapshotError × ℤ
  check_warehouses id country [] = ([], pos 0)
  check_warehouses id country ((warehouse_id, qty) ∷ warehouse_map) =
      let rest = check_warehouses id country warehouse_map in
      if not (is_positive_int qty)
      then (split_not_positive id country warehouse_id ∷ rest.0, rest.1)
      else (rest.0, qty +ℤ rest.1)

  abbrev pub check_split : ℕ → Dict Text ℤ → Text → Dict Text ℤ → List SnapshotError
  check_split id country_breakdown country warehouse_map =
      if not (elem country (keys country_breakdown))
      then split_without_country id country ∷ []
      else if is_nil warehouse_map
      then []
      else let checked = check_warehouses id country warehouse_map in
        checked.0
        ++ (if not (checked.1 == get_or country country_breakdown (pos 0))
            then split_total_differs id country ∷ []
            else [])

  unfoldable pub check_splits : ℕ → Dict Text ℤ → Dict Text (Dict Text ℤ) → List SnapshotError
  check_splits id country_breakdown [] = []
  check_splits id country_breakdown ((country, warehouse_map) ∷ splits) =
      check_split id country_breakdown country warehouse_map
      ++ check_splits id country_breakdown splits

  unfoldable pub item_errors : ExportItem → List SnapshotError
  item_errors item =
      let checked = check_countries item.id item.country_breakdown in
      checked.0
      ++ ((if not (is_positive_int checked.1) then nothing_to_restock item.id ∷ [] else [])
          ++ check_splits item.id item.country_breakdown item.warehouse_breakdown)

  unfoldable pub validate_restock_snapshot_items : List ExportItem → List SnapshotError
  validate_restock_snapshot_items [] = []
  validate_restock_snapshot_items (item ∷ items) =
      item_errors item ++ validate_restock_snapshot_items items

  -- The items can be exported.
  abbrev pub is_exportable : SnapshotType → List ExportItem → Bool
  is_exportable procurement items =
      all (λ (item : ExportItem). is_positive_int item.purchase_qty) items
  is_exportable restock items = is_nil (validate_restock_snapshot_items items)

  abbrev pub create_found :
      Option SuggestionRow → ℕ → List ℕ → SnapshotType → Exports → Reply Exports
  create_found none suggestion_id item_ids snapshot_type t = refused not_found
  create_found (some suggestion) suggestion_id item_ids snapshot_type t =
      let items = chosen_items suggestion_id item_ids t.items in
      if not (is_draft_status suggestion.status)
      then refused conflict
      else if not (length items == length item_ids)
      then refused validation_failed
      else if not (is_exportable snapshot_type items)
      then refused validation_failed
      else answered (save_snapshot suggestion_id snapshot_type items t)

  -- Up to the first commit
  unfoldable pub create_snapshot : ℕ → List ℕ → SnapshotType → Exports → Reply Exports
  create_snapshot suggestion_id item_ids snapshot_type t =
      create_found (find_suggestion suggestion_id t.suggestions) suggestion_id item_ids
        snapshot_type t
