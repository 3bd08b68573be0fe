-- ===== src/Services/OrderEdit/Apply/Locked.antt =====
-- A workbook, parsed and applied (`parse_order_info_match_workbook`, `apply_parsed_order_info_match`).
use restock_system.Services.OrderEdit.Apply.{
  OrderHeader, apply_manual_updates, apply_parsed_order_info_match, set_attr, order_source_package,
  update_orders, update_row, is_selected, fits_postal_code, fits_columns, update_found,
}
use restock_system.Common.{
  List, Text, Bool, map, Option, ℕ, elem, All, ◌==◌, keep_if, Dict, ◌≡◌, ◌&&◌, Bool-cases,
  for_each-keeps, true, keys, codes, ◌∙◌, arith, any, refl, text_eq, ◌∷◌, ap, sym, ==_refl, [], inl,
  get-some_of_elem, All-map_to, inr, any-keep_if, is_nil, some, not, for_each, get, false, none,
  ◌||◌, leb, length, if-cases, subst, some_inj,
}
use restock_system.Common.Strings.{Unicode}
use restock_system.Services.OrderEdit.{EditableField}
use restock_system.Services.OrderEdit.Normalize.{RawValue}
use restock_system.Services.OrderEdit.Workbook.{ParsedWorkbook, parse_match_workbook}
use restock_system.Services.Entries.{elem-map}
use restock_system.Services.Errors.{answered}
use restock_system.Services.OrderEdit.Workbook.Safe.{parse_match_workbook-IsSafe}

abbrev pub is_package : OrderHeader → Bool
is_package row = row.source == order_source_package

-- The orders that the parser asks for: `select(amazon_order_id).where(source == package)`
abbrev pub package_order_ids : List OrderHeader → List Text
package_order_ids orders =
    map (λ (row : OrderHeader). row.amazon_order_id) (keep_if is_package orders)

abbrev pub is_locked : Text → OrderHeader → Bool
is_locked id row = row.amazon_order_id == id && row.manual_edit_locked

set_attr-id :
    (entry : Text × Option Text) (row : OrderHeader)
    → (set_attr entry row).amazon_order_id ≡ row.amazon_order_id
set_attr-id (field, value) row = elim (Bool-cases (field == codes "country_code")) [
  | inl p ↦ rw p refl
  | inr p ↦ rw p (elim (Bool-cases (field == codes "original_country_code")) [
    | inl q ↦ rw q refl
    | inr q ↦
        rw q (elim (Bool-cases (field == codes "postal_code")) [
          | inl r ↦ rw r refl
          | inr r ↦ rw r refl
        ])
  ])
]

apply_manual_updates-id :
    (now : Text) (user_id : ℕ) (updates : Dict Text (Option Text)) (row : OrderHeader)
    → (apply_manual_updates now user_id updates row).amazon_order_id ≡ row.amazon_order_id
unfolding apply_manual_updates
apply_manual_updates-id now user_id updates row =
    for_each-keeps (λ (h : OrderHeader). h.amazon_order_id ≡ row.amazon_order_id) set_attr updates
      row (λ entry h same. set_attr-id entry h ∙ same) refl

locked :
    (now : Text) (user_id : ℕ) (updates : Dict Text (Option Text)) (row : OrderHeader)
    → (apply_manual_updates now user_id updates row).manual_edit_locked ≡ true
unfolding apply_manual_updates
locked now user_id updates row = refl

apply_manual_updates-locked :
    (now : Text) (user_id : ℕ) (updates : Dict Text (Option Text)) (row : OrderHeader) (id : Text)
    → (row.amazon_order_id == id) ≡ true
    → is_locked id (apply_manual_updates now user_id updates row) ≡ true
apply_manual_updates-locked now user_id updates row id h = ground (
  arith,
  ap (λ t. t == id) (apply_manual_updates-id now user_id updates row),
  locked now user_id updates row,
  h,
)

module _ (now : Text) (user_id : ℕ) (updates_by_order : Dict Text (Dict Text (Option Text))) where
  update_row-locked :
      (id : Text) (row : OrderHeader)
      → elem id (keys updates_by_order) ≡ true
      → (is_package row && row.amazon_order_id == id) ≡ true
      → is_locked id (update_row now user_id updates_by_order row).0 ≡ true
  update_row-locked id row listed chosen =
      let same : row.amazon_order_id ≡ id =
        (text_eq.same_iff row.amazon_order_id id).0 (ground (arith, chosen)) in
      let selected : is_selected (keys updates_by_order) row ≡ true =
        ground (arith, chosen, listed, ap (λ t. elem t (keys updates_by_order)) same) in
      let (updates, found) =
        get-some_of_elem row.amazon_order_id updates_by_order
          (ap (λ t. elem t (keys updates_by_order)) same ∙ listed) in
      rw (selected, found)
        (apply_manual_updates-locked now user_id updates row id (ground (arith, chosen)))

  update_orders-locked :
      (id : Text) (orders : List OrderHeader)
      → elem id (keys updates_by_order) ≡ true
      → any (λ (row : OrderHeader). is_package row && row.amazon_order_id == id) orders ≡ true
      → any (is_locked id) (update_orders now user_id updates_by_order orders).0 ≡ true
  unfolding update_orders
  update_orders-locked id [] listed h = cc
  update_orders-locked id (row ∷ orders) listed h =
      elim (Bool-cases (is_package row && row.amazon_order_id == id)) [
        | inl q ↦ ground (arith, update_row-locked id row listed q)
        | inr q ↦ ground (arith, update_orders-locked id orders listed (rw q at h))
      ]

package_order :
    (id : Text) (orders : List OrderHeader)
    → elem id (package_order_ids orders) ≡ true
    → any (λ (row : OrderHeader). is_package row && row.amazon_order_id == id) orders ≡ true
package_order id orders h =
    sym (
      elem-map (λ (row : OrderHeader). row.amazon_order_id) id (keep_if is_package orders)
      ∙ any-keep_if (λ (row : OrderHeader). row.amazon_order_id == id) is_package orders)
    ∙ h

all_members : (ids : List Text) → All (λ (id : Text). elem id ids ≡ true) ids
all_members [] = tt
all_members (i ∷ ids) = (
  ground (arith, ==_refl i),
  All-map_to (λ (id : Text). elem id ids ≡ true) (λ (id : Text). elem id (i ∷ ids) ≡ true) ids
      (λ id h. ground (arith, h)) (all_members ids),
)

all_locked :
    (now : Text) (user_id : ℕ) (updates_by_order : Dict Text (Dict Text (Option Text)))
    (orders : List OrderHeader) (ids : List Text)
    → All (λ (id : Text). elem id (keys updates_by_order) ≡ true) ids
    → All (λ (id : Text). elem id (package_order_ids orders) ≡ true) ids
    → All
        (λ (id : Text).
          any (is_locked id) (update_orders now user_id updates_by_order orders).0 ≡ true)
        ids
all_locked now user_id updates_by_order orders [] listed there = tt
all_locked now user_id updates_by_order orders (id ∷ ids) listed there = (
  update_orders-locked now user_id updates_by_order id orders listed.0
      (package_order id orders there.0),
  all_locked now user_id updates_by_order orders ids listed.1 there.1,
)

-- A postal code that is written fits its column.
abbrev fits_entry : Text × Option Text → Bool
fits_entry (field, none) = true
fits_entry (field, some value) = not (field == codes "postal_code") || leb (length value) 50

abbrev pub IsShort : Dict Text (Option Text) → Type 0
IsShort updates = All (λ entry. fits_entry entry ≡ true) updates

set_attr-fits :
    (entry : Text × Option Text) (row : OrderHeader)
    → fits_entry entry ≡ true
    → fits_postal_code row ≡ true
    → fits_postal_code (set_attr entry row) ≡ true
set_attr-fits (field, value) row fits h = elim (Bool-cases (field == codes "country_code")) [
  | inl p ↦ rw p h
  | inr p ↦ rw p (elim (Bool-cases (field == codes "original_country_code")) [
    | inl q ↦ rw q h
    | inr q ↦ rw q (elim (Bool-cases (field == codes "postal_code")) [
      | inl r ↦ rw r (written value r fits)
      | inr r ↦ rw r h
    ])
  ])
]
  where
    written :
        (value : Option Text)
        → (field == codes "postal_code") ≡ true
        → fits_entry (field, value) ≡ true
        → fits_postal_code (record row { postal_code = value }) ≡ true
    written none r f = refl
    written (some code) r f = ground (arith, f, r)

set_attrs-fits :
    (updates : Dict Text (Option Text)) (row : OrderHeader)
    → IsShort updates
    → fits_postal_code row ≡ true
    → fits_postal_code (for_each set_attr updates row) ≡ true
set_attrs-fits [] row f h = h
set_attrs-fits (entry ∷ updates) row f h =
    set_attrs-fits updates (set_attr entry row) f.1 (set_attr-fits entry row f.0 h)

get-All {κ μ} :
    {V : Type κ} (P : V → Type μ) (k : Text) (d : Dict Text V) {v : V}
    → All (λ (x : Text × V). P x.1) d
    → get k d ≡ some v
    → P v
get-All P k [] a h = cc
get-All P k ((j, w) ∷ d) a h = elim (if-cases (j == k) (some w) (get k d) h) [
  | inl (q, found) ↦ subst P (some_inj found) a.0
  | inr (q, found) ↦ get-All P k d a.1 found
]

module _ (now : Text) (user_id : ℕ) where
  apply_manual_updates-fits :
      (updates : Dict Text (Option Text)) (row : OrderHeader)
      → IsShort updates
      → fits_postal_code row ≡ true
      → fits_postal_code (apply_manual_updates now user_id updates row) ≡ true
  unfolding apply_manual_updates
  apply_manual_updates-fits updates row f h = set_attrs-fits updates row f h

  update_found-fits :
      (found : Option (Dict Text (Option Text))) (row : OrderHeader)
      → ((updates : Dict Text (Option Text)) → found ≡ some updates → IsShort updates)
      → fits_postal_code row ≡ true
      → fits_postal_code (update_found now user_id found row).0 ≡ true
  update_found-fits none row f h = h
  update_found-fits (some updates) row f h =
      apply_manual_updates-fits updates row (f updates refl) h

  module _ (updates_by_order : Dict Text (Dict Text (Option Text)))
      (short : All (λ (x : Text × Dict Text (Option Text)). IsShort x.1) updates_by_order) where
    update_row-fits :
        (row : OrderHeader)
        → fits_postal_code row ≡ true
        → fits_postal_code (update_row now user_id updates_by_order row).0 ≡ true
    update_row-fits row h = elim (Bool-cases (is_selected (keys updates_by_order) row)) [
      | inl q ↦ rw q (
          update_found-fits (get row.amazon_order_id updates_by_order) row
            (λ updates found. get-All IsShort row.amazon_order_id updates_by_order short found) h)
      | inr q ↦ rw q h
    ]

    update_orders-fits :
        (orders : List OrderHeader)
        → fits_columns orders ≡ true
        → fits_columns (update_orders now user_id updates_by_order orders).0 ≡ true
    unfolding update_orders
    update_orders-fits [] h = refl
    update_orders-fits (row ∷ orders) h =
        let one = update_row-fits row (ground (arith, h)) in
        let rest = update_orders-fits orders (ground (arith, h)) in ground (arith, one, rest)

-- A parsed workbook that has no error, and whose postal codes have at most 50 characters, applied to the
-- orders that it was checked against while no report of progress raises, is answered, and every order
-- that it names is then there with the lock against synchronisation set.
pub apply_parsed_order_info_match-locked :
    (u : Unicode) (fields : List EditableField) (eu_countries : List Text)
    (load_workbook : List ℕ → Option (List (List RawValue))) (country_options : Dict Text Text)
    (content : List ℕ) (now : Text) (user_id : ℕ) (orders : List OrderHeader)
    {parsed : ParsedWorkbook}
    → parse_match_workbook u fields eu_countries
        (package_order_ids orders)
        load_workbook
        country_options
        content
      ≡ answered parsed
    → is_nil parsed.errors ≡ true
    → fits_columns orders ≡ true
    → All (λ (x : Text × Dict Text (Option Text)). IsShort x.1) parsed.updates_by_order
    → (after : List OrderHeader) × (updated : ℕ) × (apply_parsed_order_info_match now user_id parsed
          false orders
        ≡ answered (after, updated))
      × All (λ (id : Text). any (is_locked id) after ≡ true) (keys parsed.updates_by_order)
unfolding apply_parsed_order_info_match
apply_parsed_order_info_match-locked u fields eu_countries load_workbook country_options content now
      user_id orders {parsed} h clean fit short =
    let safe =
      parse_match_workbook-IsSafe u fields eu_countries (package_order_ids orders) load_workbook
        country_options content h in
    let done = update_orders now user_id parsed.updates_by_order orders in
    let written = update_orders-fits now user_id parsed.updates_by_order short orders fit in
    (
      done.0,
      done.1,
      rw (clean, written) refl,
      all_locked now user_id parsed.updates_by_order orders (keys parsed.updates_by_order)
          (all_members (keys parsed.updates_by_order)) safe.2,
    )
