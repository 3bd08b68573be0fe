-- ===== src/Services/Snapshots/Versions.antt =====
-- The snapshots of a suggestion are numbered upwards, and none is without its suggestion
-- (backend/app/api/snapshot.py, backend/app/api/suggestion.py).
use mathlib.Core.List.{map-append}
use restock_system.Common.{
  ℕ, List, map, Bool, All, ◌≡◌, ◌∷◌, ◌==◌, true, elem, if◌then◌else◌, any, ◌&&◌, ◌<◌, Bool-cases,
  some, false, nat_eq, arith, ◌++◌, length, keep_if, [], inl, All-map_to, All-snoc, ap, not, inr,
  nat_beq_iff, ◌∙◌, refl,
}
use restock_system.Services.Snapshots.{
  procurement, restock, Snapshot, Exports, SnapshotType, next_version, save_snapshot, SuggestionRow,
  is_same_type, ExportItem, set_snapshot, find_suggestion, new_snapshot, archived_status,
}

-- What numbers a snapshot: its suggestion, its type and its version
abbrev VersionKey : Type 0
VersionKey = ℕ × SnapshotType × ℕ

abbrev pub version_key : Snapshot → VersionKey
version_key s = (s.suggestion_id, s.snapshot_type, s.version)

abbrev pub version_keys : List Snapshot → List VersionKey
version_keys = map version_key

abbrev is_key_of : ℕ → SnapshotType → VersionKey → Bool
is_key_of suggestion_id snapshot_type key =
    key.0 == suggestion_id && is_same_type key.1 snapshot_type

-- A later snapshot of the same suggestion and type has a greater version.
abbrev pub AreRising : List VersionKey → Type 0
AreRising [] = Unit
AreRising (key ∷ ks) =
    All (λ (later : VersionKey). is_key_of key.0 key.1 later ≡ true → key.2 < later.2) ks
    × AreRising ks

abbrev pub suggestion_ids : List SuggestionRow → List ℕ
suggestion_ids = map (λ (row : SuggestionRow). row.id)

pub record IsNumbered (t : Exports) : Type 0 where
  pub rising : AreRising (version_keys t.snapshots)
  pub owned :
      All
        (λ (key : VersionKey). elem key.0 (suggestion_ids t.suggestions) ≡ true)
        (version_keys t.snapshots)

same_type_sym : (a b : SnapshotType) → is_same_type a b ≡ is_same_type b a
same_type_sym procurement procurement = refl
same_type_sym procurement restock = refl
same_type_sym restock procurement = refl
same_type_sym restock restock = refl

max_version-bound :
    (suggestion_id : ℕ) (snapshot_type : SnapshotType) (snapshots : List Snapshot)
    → All
        (λ (key : VersionKey).
          is_key_of suggestion_id snapshot_type key ≡ true
          → key.2 < next_version suggestion_id snapshot_type snapshots)
        (version_keys snapshots)
unfolding next_version
max_version-bound suggestion_id snapshot_type [] = tt
max_version-bound suggestion_id snapshot_type (s ∷ snapshots) = (
  λ q. ground (arith, q),
  All-map_to
      (λ (key : VersionKey).
        is_key_of suggestion_id snapshot_type key ≡ true
        → key.2 < next_version suggestion_id snapshot_type snapshots)
      (λ (key : VersionKey).
        is_key_of suggestion_id snapshot_type key ≡ true
        → key.2 < next_version suggestion_id snapshot_type (s ∷ snapshots))
      (version_keys snapshots) (λ key below q. ground (arith, below q))
      (max_version-bound suggestion_id snapshot_type snapshots),
)

AreRising-snoc :
    (ks : List VersionKey) (new : VersionKey)
    → All (λ (key : VersionKey). is_key_of new.0 new.1 key ≡ true → key.2 < new.2) ks
    → AreRising ks
    → AreRising (ks ++ new ∷ [])
AreRising-snoc [] new above h = (tt, tt)
AreRising-snoc (key ∷ ks) new above h = (
  All-snoc (λ (later : VersionKey). is_key_of key.0 key.1 later ≡ true → key.2 < later.2) ks new h.0
      (λ q. above.0 (
        ground
          (arith, q, nat_beq_iff key.0 new.0, nat_beq_iff new.0 key.0, same_type_sym key.1 new.1))),
  AreRising-snoc ks new above.1 h.1,
)

pub keys-set_snapshot :
    (i : ℕ) (change : Snapshot → Snapshot) (snapshots : List Snapshot)
    → ((s : Snapshot) → version_key (change s) ≡ version_key s)
    → version_keys (set_snapshot i change snapshots) ≡ version_keys snapshots
keys-set_snapshot i change [] same = refl
keys-set_snapshot i change (s ∷ snapshots) same = elim (Bool-cases (s.id == i)) [
  | inl q ↦ rw q (
      ap (λ key. key ∷ version_keys (set_snapshot i change snapshots)) (same s)
      ∙ ap (λ ks. version_key s ∷ ks) (keys-set_snapshot i change snapshots same))
  | inr q ↦ rw q (ap (λ ks. version_key s ∷ ks) (keys-set_snapshot i change snapshots same))
]

pub find_suggestion-elem :
    (i : ℕ) (rows : List SuggestionRow) {row : SuggestionRow}
    → find_suggestion i rows ≡ some row
    → elem i (suggestion_ids rows) ≡ true
find_suggestion-elem i [] h = cc
find_suggestion-elem i (x ∷ rows) {row} h =
    ground (arith, find_suggestion-elem i rows {row = row}, h)

pub save_snapshot-IsNumbered :
    (suggestion_id : ℕ) (snapshot_type : SnapshotType) (items : List ExportItem) (t : Exports)
    → elem suggestion_id (suggestion_ids t.suggestions) ≡ true
    → IsNumbered t
    → IsNumbered (save_snapshot suggestion_id snapshot_type items t)
unfolding save_snapshot
save_snapshot-IsNumbered suggestion_id snapshot_type items t there n =
    let new = new_snapshot suggestion_id snapshot_type (length items) t in
    record {
      rising = rw (map-append version_key t.snapshots (new ∷ [])) (
          AreRising-snoc (version_keys t.snapshots) (version_key new)
            (max_version-bound suggestion_id snapshot_type t.snapshots) n.rising);
      owned = rw (map-append version_key t.snapshots (new ∷ [])) (
          All-snoc (λ (key : VersionKey). elem key.0 (suggestion_ids t.suggestions) ≡ true)
            (version_keys t.snapshots) (version_key new) n.owned there);
    }

-- The ids of the suggestions behind an archiving
pub ids-archived :
    (i : ℕ) (rows : List SuggestionRow)
    → suggestion_ids (
        map
          (λ (row : SuggestionRow).
            if row.id == i then record row { status = archived_status } else row)
          rows)
      ≡ suggestion_ids rows
ids-archived i [] = refl
ids-archived i (row ∷ rows) = elim (Bool-cases (row.id == i)) [
  | inl q ↦ rw q (ap (λ is. row.id ∷ is) (ids-archived i rows))
  | inr q ↦ rw q (ap (λ is. row.id ∷ is) (ids-archived i rows))
]

-- Another suggestion stays behind a deletion.
elem-deleted :
    (i k : ℕ) (rows : List SuggestionRow)
    → (k == i) ≡ false
    → elem k (suggestion_ids rows) ≡ true
    → elem k (suggestion_ids (keep_if (λ (row : SuggestionRow). not (row.id == i)) rows)) ≡ true
elem-deleted i k [] ne h = h
elem-deleted i k (row ∷ rows) ne h = elim (Bool-cases (row.id == i)) [
  | inl q ↦ rw q (
      elem-deleted i k rows ne
        (ground (arith, h, ne, q, nat_beq_iff row.id i, nat_beq_iff row.id k, nat_beq_iff k i)))
  | inr q ↦ rw q (ground (arith, h, elem-deleted i k rows ne))
]

pub owned-deleted :
    (i : ℕ) (rows : List SuggestionRow) (snapshots : List Snapshot)
    → any (λ (s : Snapshot). s.suggestion_id == i) snapshots ≡ false
    → All (λ (key : VersionKey). elem key.0 (suggestion_ids rows) ≡ true) (version_keys snapshots)
    → All
        (λ (key : VersionKey).
          elem key.0 (suggestion_ids (keep_if (λ (row : SuggestionRow). not (row.id == i)) rows))
          ≡ true)
        (version_keys snapshots)
owned-deleted i rows [] none_ h = tt
owned-deleted i rows (s ∷ snapshots) none_ h = (
  elem-deleted i s.suggestion_id rows (ground (arith, none_)) h.0,
  owned-deleted i rows snapshots (ground (arith, none_)) h.1,
)
