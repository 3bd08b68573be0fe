-- ===== src/Services/Snapshots/Exact.antt =====
-- What an export of restock quantities has checked (`_validate_restock_snapshot_items` in
-- backend/app/api/snapshot.py).
use restock_system.Common.Int.{int_eq, ℤ, int_beq_iff, pos, ◌+ℤ◌}
use restock_system.Common.{
  List, Bool, is_nil, not, Text, Dict, ℕ, Option, ◌++◌, ◌≡◌, if◌then◌else◌, elem, All, true, false,
  ◌∷◌, ◌==◌, some, keys, [], Bool-cases, ap, refl, values, sym, inr, get_or, ◌∙◌, inl, if-cases,
  text_eq, length, none, nat_eq,
}
use restock_system.Common.Strings.{Unicode}
use restock_system.Services.Snapshots.{
  ExportItem, SuggestionRow, Exports, SnapshotType, restock, is_draft_status, chosen_items,
  find_suggestion, save_snapshot,
}
use restock_system.Services.Snapshots.Validate.{
  check_countries, check_warehouses, check_splits, item_errors, validate_restock_snapshot_items,
  create_snapshot, check_split, is_positive_int, create_found, is_exportable,
}
use restock_system.Core.Countries.{is_reportable_country_code}
use restock_system.Engine.Total.{sum_ℤ}
use restock_system.Services.Errors.{answered, answered_inj}

is_nil-append {ℓ} :
    {A : Type ℓ} (xs ys : List A)
    → is_nil (xs ++ ys) ≡ true
    → (is_nil xs ≡ true) × (is_nil ys ≡ true)
is_nil-append [] ys h = (refl, h)
is_nil-append (x ∷ xs) ys h = cc

unnot : (b : Bool) → not b ≡ false → b ≡ true
unnot true h = refl
unnot false h = cc

positive_of :
    {A : Type 0} (b : Bool) (e : A) → is_nil (if not b then e ∷ [] else []) ≡ true → b ≡ true
positive_of true e h = refl
positive_of false e h = cc

agrees :
    {A : Type 0} (a b : ℤ) (e : A) → is_nil (if not (a == b) then e ∷ [] else []) ≡ true → a ≡ b
agrees a b e h = (int_beq_iff a b).0 (positive_of (a == b) e h)

module _ (u : Unicode) where
  -- The country can be reported, and its quantity is positive.
  abbrev IsGood : Text × ℤ → Type 0
  IsGood entry =
      (is_reportable_country_code u (some entry.0) ≡ true) × (is_positive_int entry.1 ≡ true)

  -- The country has a quantity; where it is split, the parts are positive and add up to it.
  abbrev IsSplit : Dict Text ℤ → Text × Dict Text ℤ → Type 0
  IsSplit country_breakdown split =
      (elem split.0 (keys country_breakdown) ≡ true)
      × (is_nil split.1 ≡ false
          → All (λ (entry : Text × ℤ). is_positive_int entry.1 ≡ true) split.1
            × (sum_ℤ (values split.1) ≡ get_or split.0 country_breakdown (pos 0)))

  abbrev pub IsExact : ExportItem → Type 0
  IsExact item =
      All IsGood item.country_breakdown
      × (is_positive_int (sum_ℤ (values item.country_breakdown)) ≡ true)
      × All (IsSplit item.country_breakdown) item.warehouse_breakdown

  check_countries-IsGood :
      (id : ℕ) (breakdown : Dict Text ℤ)
      → is_nil (check_countries u id breakdown).0 ≡ true
      → All IsGood breakdown × ((check_countries u id breakdown).1 ≡ sum_ℤ (values breakdown))
  unfolding check_countries
  check_countries-IsGood id [] h = (tt, refl)
  check_countries-IsGood id ((country, qty) ∷ breakdown) h =
      elim (Bool-cases (is_reportable_country_code u (some country))) [
        | inr q ↦ let stop = rw q at h in cc
        | inl q ↦ elim (Bool-cases (is_positive_int qty)) [
          | inr r ↦ let stop = rw (q, r) at h in cc
          | inl r ↦
              let rest = check_countries-IsGood id breakdown (rw (q, r) at h) in
              (((q, r), rest.0), rw (q, r) (ap (λ n. qty +ℤ n) rest.1))
        ]
      ]

  check_warehouses_good :
      (id : ℕ) (country : Text) (warehouse_map : Dict Text ℤ)
      → is_nil (check_warehouses u id country warehouse_map).0 ≡ true
      → All (λ (entry : Text × ℤ). is_positive_int entry.1 ≡ true) warehouse_map
        × ((check_warehouses u id country warehouse_map).1 ≡ sum_ℤ (values warehouse_map))
  unfolding check_warehouses
  check_warehouses_good id country [] h = (tt, refl)
  check_warehouses_good id country ((warehouse_id, qty) ∷ warehouse_map) h =
      elim (Bool-cases (is_positive_int qty)) [
        | inr r ↦ let stop = rw r at h in cc
        | inl r ↦
            let rest = check_warehouses_good id country warehouse_map (rw r at h) in
            ((r, rest.0), rw r (ap (λ n. qty +ℤ n) rest.1))
      ]

  check_split-IsSplit :
      (id : ℕ) (country_breakdown : Dict Text ℤ) (country : Text) (warehouse_map : Dict Text ℤ)
      → is_nil (check_split u id country_breakdown country warehouse_map) ≡ true
      → IsSplit country_breakdown (country, warehouse_map)
  check_split-IsSplit id country_breakdown country warehouse_map h =
      elim (Bool-cases (elem country (keys country_breakdown))) [
        | inr q ↦ let stop = rw q at h in cc
        | inl q ↦ (
          q,
          λ given.
              let both =
                is_nil-append (check_warehouses u id country warehouse_map).0 _
                  (rw (q, given) at h) in
              let good = check_warehouses_good id country warehouse_map both.0 in
              (
                good.0,
                sym good.1
                    ∙ agrees (check_warehouses u id country warehouse_map).1
                        (get_or country country_breakdown (pos 0)) _ both.1,
              ),
        )
      ]

  check_splits-IsSplit :
      (id : ℕ) (country_breakdown : Dict Text ℤ) (splits : Dict Text (Dict Text ℤ))
      → is_nil (check_splits u id country_breakdown splits) ≡ true
      → All (IsSplit country_breakdown) splits
  unfolding check_splits
  check_splits-IsSplit id country_breakdown [] h = tt
  check_splits-IsSplit id country_breakdown ((country, warehouse_map) ∷ splits) h =
      let both =
        is_nil-append (check_split u id country_breakdown country warehouse_map)
          (check_splits u id country_breakdown splits) h in
      (
        check_split-IsSplit id country_breakdown country warehouse_map both.0,
        check_splits-IsSplit id country_breakdown splits both.1,
      )

  item_errors-IsExact : (item : ExportItem) → is_nil (item_errors u item) ≡ true → IsExact item
  unfolding item_errors
  item_errors-IsExact item h =
      let checked = check_countries u item.id item.country_breakdown in
      let outer = is_nil-append checked.0 _ h in
      let inner = is_nil-append _ _ outer.1 in
      let good = check_countries-IsGood item.id item.country_breakdown outer.0 in
      (
        good.0,
        ap is_positive_int (sym good.1) ∙ positive_of (is_positive_int checked.1) _ inner.0,
        check_splits-IsSplit item.id item.country_breakdown item.warehouse_breakdown inner.1,
      )

  validate-IsExact :
      (items : List ExportItem)
      → is_nil (validate_restock_snapshot_items u items) ≡ true
      → All IsExact items
  unfolding validate_restock_snapshot_items
  validate-IsExact [] h = tt
  validate-IsExact (item ∷ items) h =
      let both = is_nil-append (item_errors u item) (validate_restock_snapshot_items u items) h in
      (item_errors-IsExact item both.0, validate-IsExact items both.1)

  -- An answered export found a draft suggestion and items that pass the checks, and saved them.
  pub create_found-answered :
      (found : Option SuggestionRow) (suggestion_id : ℕ) (item_ids : List ℕ)
      (snapshot_type : SnapshotType) (t : Exports) {after : Exports}
      → create_found u found suggestion_id item_ids snapshot_type t ≡ answered after
      → (suggestion : SuggestionRow) × (found ≡ some suggestion)
        × (is_draft_status suggestion.status ≡ true)
        × (is_exportable u snapshot_type (chosen_items suggestion_id item_ids t.items) ≡ true)
        × (save_snapshot suggestion_id snapshot_type (chosen_items suggestion_id item_ids t.items) t
            ≡ after)
  create_found-answered none suggestion_id item_ids snapshot_type t h = cc
  create_found-answered (some suggestion) suggestion_id item_ids snapshot_type t h =
      let items = chosen_items suggestion_id item_ids t.items in
      elim (if-cases (not (is_draft_status suggestion.status)) _ _ h) [
        | inl (p, refusal) ↦ cc
        | inr (p, h1) ↦ elim (if-cases (not (length items == length item_ids)) _ _ h1) [
          | inl (q, refusal) ↦ cc
          | inr (q, h2) ↦ elim (if-cases (not (is_exportable u snapshot_type items)) _ _ h2) [
            | inl (r, refusal) ↦ cc
            | inr (r, done) ↦ (suggestion, refl, unnot _ p, unnot _ r, answered_inj done)
          ]
        ]
      ]

  -- An export of restock quantities that is answered took items of which each has only countries that can
  -- be reported, with positive quantities, at least one of them; each split is of such a country, and
  -- where it has parts these are positive and add up to the quantity of the country.
  pub create_snapshot-IsExact :
      (suggestion_id : ℕ) (item_ids : List ℕ) (t : Exports) {after : Exports}
      → create_snapshot u suggestion_id item_ids restock t ≡ answered after
      → All IsExact (chosen_items suggestion_id item_ids t.items)
  unfolding create_snapshot
  create_snapshot-IsExact suggestion_id item_ids t h =
      let (suggestion, found, draft, sound, done) =
        create_found-answered (find_suggestion suggestion_id t.suggestions) suggestion_id item_ids
          restock t h in
      validate-IsExact (chosen_items suggestion_id item_ids t.items) sound
