-- ===== src/Services/Snapshots.antt =====
-- The exports of a suggestion (`_create_snapshot` in backend/app/api/snapshot.py), and its archiving and
-- deletion (backend/app/api/suggestion.py). A quantity is an integer, a breakdown
-- that is null is empty. Who exported and when, the notes, the files, and what a line copies beside its
-- quantities (velocities, sale days, warnings, dates, names) are left out.
mod Tests
pub mod Validate
pub mod Exact
pub mod Versions
pub mod Steps
use restock_system.Common.{
  ℕ, List, Bool, Option, Text, true, none, ◌==◌, keep_if, sorted, some, ◌++◌, map, ◌∷◌, false,
  if◌then◌else◌, ◌&&◌, ◌+◌, leb, length, Dict, ltb, elem, [], nat_eq, suc, any, not,
}
use restock_system.Services.Errors.{Reply, refused, not_found, conflict, answered}
use restock_system.Common.Int.{ℤ}

pub data SnapshotType : Type 0 where
  procurement restock : SnapshotType

pub data GenerationStatus : Type 0 where
  generating ready failed : GenerationStatus

pub data DraftStatus : Type 0 where
  draft_status archived_status error_status : DraftStatus

pub record SuggestionRow : Type 0 where
  pub id : ℕ
  pub status : DraftStatus

pub record ExportItem : Type 0 where
  pub id : ℕ
  pub suggestion_id : ℕ
  pub commodity_sku : Text
  pub total_qty : ℤ
  pub purchase_qty : ℤ
  pub country_breakdown : Dict Text ℤ
  pub warehouse_breakdown : Dict Text (Dict Text ℤ)
  pub procurement_exported_snapshot_id : Option ℕ
  pub restock_exported_snapshot_id : Option ℕ

pub record Snapshot : Type 0 where
  pub id : ℕ
  pub suggestion_id : ℕ
  pub snapshot_type : SnapshotType
  pub version : ℕ
  pub item_count : ℕ
  pub generation_status : GenerationStatus
  pub generation_error : Option Text

-- A line of a snapshot, copied from an item
pub record SnapshotLine : Type 0 where
  pub snapshot_id : ℕ
  pub commodity_sku : Text
  pub total_qty : ℤ
  pub country_breakdown : Dict Text ℤ
  pub warehouse_breakdown : Dict Text (Dict Text ℤ)
  pub purchase_qty : Option ℤ

pub record Exports : Type 0 where
  pub suggestions : List SuggestionRow
  pub items : List ExportItem
  pub snapshots : List Snapshot
  pub next_snapshot_id : ℕ
  pub lines : List SnapshotLine

abbrev pub is_same_type : SnapshotType → SnapshotType → Bool
is_same_type procurement procurement = true
is_same_type restock restock = true
is_same_type _ _ = false

abbrev pub is_draft_status : DraftStatus → Bool
is_draft_status draft_status = true
is_draft_status _ = false

abbrev pub is_archived_status : DraftStatus → Bool
is_archived_status archived_status = true
is_archived_status _ = false

abbrev pub find_suggestion : ℕ → List SuggestionRow → Option SuggestionRow
find_suggestion i [] = none
find_suggestion i (row ∷ rows) = if row.id == i then some row else find_suggestion i rows

-- `coalesce(max(version), 0)` of the snapshots of a suggestion and a type
abbrev pub is_of : ℕ → SnapshotType → Snapshot → Bool
is_of suggestion_id snapshot_type s =
    s.suggestion_id == suggestion_id && is_same_type s.snapshot_type snapshot_type

abbrev pub max_version : List Snapshot → ℕ
max_version [] = 0
max_version (s ∷ snapshots) =
    let rest = max_version snapshots in if ltb rest s.version then s.version else rest

unfoldable pub next_version : ℕ → SnapshotType → List Snapshot → ℕ
next_version suggestion_id snapshot_type snapshots =
    max_version (keep_if (is_of suggestion_id snapshot_type) snapshots) + 1

-- The items that a request names, in the order of their ids
unfoldable pub chosen_items : ℕ → List ℕ → List ExportItem → List ExportItem
chosen_items suggestion_id item_ids items =
    sorted (λ a b. leb a.id b.id)
      (keep_if (λ (item : ExportItem). elem item.id item_ids && item.suggestion_id == suggestion_id)
        items)

abbrev pub line_of : ℕ → SnapshotType → ExportItem → SnapshotLine
line_of snapshot_id snapshot_type item = record {
  snapshot_id = snapshot_id;
  commodity_sku = item.commodity_sku;
  total_qty = item.total_qty;
  country_breakdown = item.country_breakdown;
  warehouse_breakdown = item.warehouse_breakdown;
  purchase_qty = elim snapshot_type [ procurement ↦ some item.purchase_qty | restock ↦ none ];
}

abbrev pub new_snapshot : ℕ → SnapshotType → ℕ → Exports → Snapshot
new_snapshot suggestion_id snapshot_type item_count t = record {
  id = t.next_snapshot_id;
  suggestion_id = suggestion_id;
  snapshot_type = snapshot_type;
  version = next_version suggestion_id snapshot_type t.snapshots;
  item_count = item_count;
  generation_status = generating;
  generation_error = none;
}

-- The first commit: the snapshot and its lines
unfoldable pub save_snapshot : ℕ → SnapshotType → List ExportItem → Exports → Exports
save_snapshot suggestion_id snapshot_type items t = record t {
  snapshots = t.snapshots ++ new_snapshot suggestion_id snapshot_type (length items) t ∷ [];
  next_snapshot_id = suc t.next_snapshot_id;
  lines = t.lines ++ map (line_of t.next_snapshot_id snapshot_type) items;
}

abbrev pub set_snapshot : ℕ → (Snapshot → Snapshot) → List Snapshot → List Snapshot
set_snapshot i change = map (λ (s : Snapshot). if s.id == i then change s else s)

-- The second commit: a workbook that cannot be saved
unfoldable pub fail_snapshot : ℕ → Text → Exports → Exports
fail_snapshot snapshot_id message t = record t {
  snapshots =
      set_snapshot snapshot_id
        (λ s. record s { generation_status = failed; generation_error = some message }) t.snapshots;
}

abbrev pub mark_exported : SnapshotType → ℕ → ExportItem → ExportItem
mark_exported procurement snapshot_id item = record item {
  procurement_exported_snapshot_id = some snapshot_id;
}
mark_exported restock snapshot_id item = record item {
  restock_exported_snapshot_id = some snapshot_id;
}

-- The second commit: a workbook that is saved
unfoldable pub finish_snapshot : ℕ → SnapshotType → List ℕ → Exports → Exports
finish_snapshot snapshot_id snapshot_type item_ids t = record t {
  snapshots =
      set_snapshot snapshot_id
        (λ s. record s { generation_status = ready; generation_error = none }) t.snapshots;
  items =
      map
        (λ (item : ExportItem).
          if elem item.id item_ids then mark_exported snapshot_type snapshot_id item else item)
        t.items;
}

abbrev pub archive_found : Option SuggestionRow → ℕ → Exports → Reply Exports
archive_found none suggestion_id t = refused not_found
archive_found (some suggestion) suggestion_id t =
    if is_archived_status suggestion.status
    then refused conflict
    else answered (record t {
      suggestions =
          map
            (λ (row : SuggestionRow).
              if row.id == suggestion_id then record row { status = archived_status } else row)
            t.suggestions;
    })

unfoldable pub archive_suggestion : ℕ → Exports → Reply Exports
archive_suggestion suggestion_id t =
    archive_found (find_suggestion suggestion_id t.suggestions) suggestion_id t

-- The items go with their suggestion, by the foreign key.
abbrev pub delete_found : Option SuggestionRow → ℕ → Exports → Reply Exports
delete_found none suggestion_id t = refused not_found
delete_found (some suggestion) suggestion_id t =
    if any (λ (s : Snapshot). s.suggestion_id == suggestion_id) t.snapshots
    then refused conflict
    else answered (record t {
      suggestions = keep_if (λ (row : SuggestionRow). not (row.id == suggestion_id)) t.suggestions;
      items = keep_if (λ (item : ExportItem). not (item.suggestion_id == suggestion_id)) t.items;
    })

unfoldable pub delete_suggestion : ℕ → Exports → Reply Exports
delete_suggestion suggestion_id t =
    delete_found (find_suggestion suggestion_id t.suggestions) suggestion_id t
