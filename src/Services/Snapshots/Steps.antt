-- ===== src/Services/Snapshots/Steps.antt =====
-- The commits of exports, and the archiving and deletion of suggestions, as steps
-- (backend/app/api/snapshot.py, backend/app/api/suggestion.py).
-- A commit of an export, an archiving or a deletion. The two commits of an export are steps of their own,
-- with others between them.
use restock_system.Common.Strings.{Unicode}
use restock_system.Common.{
  Option, ℕ, List, ◌≡◌, Text, some, if-cases, any, subst, inl, ◌==◌, inr, none, nat_eq, refl,
}
use restock_system.Services.Snapshots.{
  Exports, SuggestionRow, finish_snapshot, archive_found, delete_found, fail_snapshot, SnapshotType,
  archive_suggestion, delete_suggestion, find_suggestion, is_archived_status, Snapshot, ready,
  failed,
}
use restock_system.Services.Snapshots.Validate.{create_snapshot}
use restock_system.Services.Errors.{answered, answered_inj}
use restock_system.Services.Snapshots.Versions.{
  IsNumbered, save_snapshot-IsNumbered, find_suggestion-elem, keys-set_snapshot, ids-archived,
  owned-deleted,
}
use restock_system.Services.Snapshots.Exact.{create_found-answered}

module _ (u : Unicode) where
  pub data ExportStep : Exports → Exports → Type 0 where
    created :
        (suggestion_id : ℕ) (item_ids : List ℕ) (snapshot_type : SnapshotType)
        (before after : Exports)
        → create_snapshot u suggestion_id item_ids snapshot_type before ≡ answered after
        → ExportStep before after
    saved_workbook :
        (snapshot_id : ℕ) (snapshot_type : SnapshotType) (item_ids : List ℕ) (before : Exports)
        → ExportStep before (finish_snapshot snapshot_id snapshot_type item_ids before)
    failed_workbook :
        (snapshot_id : ℕ) (message : Text) (before : Exports)
        → ExportStep before (fail_snapshot snapshot_id message before)
    archived_one :
        (suggestion_id : ℕ) (before after : Exports)
        → archive_suggestion suggestion_id before ≡ answered after
        → ExportStep before after
    deleted_one :
        (suggestion_id : ℕ) (before after : Exports)
        → delete_suggestion suggestion_id before ≡ answered after
        → ExportStep before after

archive_found-IsNumbered :
    (found : Option SuggestionRow) (i : ℕ) (t : Exports) {after : Exports}
    → archive_found found i t ≡ answered after
    → IsNumbered t
    → IsNumbered after
archive_found-IsNumbered none i t h n = cc
archive_found-IsNumbered (some suggestion) i t h n =
    elim (if-cases (is_archived_status suggestion.status) _ _ h) [
      | inl (q, refusal) ↦ cc
      | inr (q, done) ↦
          subst IsNumbered (answered_inj done)
            (record { rising = n.rising; owned = rw (ids-archived i t.suggestions) n.owned })
    ]

delete_found-IsNumbered :
    (found : Option SuggestionRow) (i : ℕ) (t : Exports) {after : Exports}
    → delete_found found i t ≡ answered after
    → IsNumbered t
    → IsNumbered after
delete_found-IsNumbered none i t h n = cc
delete_found-IsNumbered (some suggestion) i t h n =
    elim (if-cases (any (λ (s : Snapshot). s.suggestion_id == i) t.snapshots) _ _ h) [
      | inl (q, refusal) ↦ cc
      | inr (q, done) ↦ subst IsNumbered (answered_inj done) (record {
        rising = n.rising;
        owned = owned-deleted i t.suggestions t.snapshots q n.owned;
      })
    ]

module _ (u : Unicode) where
  -- Every commit of an export, archiving and deletion keeps the snapshots numbered: of two snapshots of one
  -- suggestion and type the later has the greater version, and each has a suggestion that exists.
  pub ExportStep-IsNumbered :
      (before after : Exports) → ExportStep u before after → IsNumbered before → IsNumbered after
  unfolding create_snapshot finish_snapshot fail_snapshot archive_suggestion delete_suggestion
  ExportStep-IsNumbered before after (created suggestion_id item_ids snapshot_type _ _ h) n =
      let (suggestion, found, draft, sound, done) =
        create_found-answered u (find_suggestion suggestion_id before.suggestions) suggestion_id
          item_ids snapshot_type before h in
      subst IsNumbered done (
        save_snapshot-IsNumbered suggestion_id snapshot_type _ before
          (find_suggestion-elem suggestion_id before.suggestions found) n)
  ExportStep-IsNumbered before _ (saved_workbook snapshot_id snapshot_type item_ids _) n =
      let same =
        keys-set_snapshot snapshot_id
          (λ s. record s { generation_status = ready; generation_error = none }) before.snapshots
          (λ s. refl) in
      record { rising = rw same n.rising; owned = rw same n.owned }
  ExportStep-IsNumbered before _ (failed_workbook snapshot_id message _) n =
      let same =
        keys-set_snapshot snapshot_id
          (λ s. record s { generation_status = failed; generation_error = some message })
          before.snapshots (λ s. refl) in
      record { rising = rw same n.rising; owned = rw same n.owned }
  ExportStep-IsNumbered before after (archived_one suggestion_id _ _ h) n =
      archive_found-IsNumbered (find_suggestion suggestion_id before.suggestions) suggestion_id
        before h n
  ExportStep-IsNumbered before after (deleted_one suggestion_id _ _ h) n =
      delete_found-IsNumbered (find_suggestion suggestion_id before.suggestions) suggestion_id
        before h n
