-- ===== src/Engine/Split/Exact.antt =====
-- The split loses no piece and invents none.
use restock_system.Common.{
  List, Text, ℕ, [], IsDistinct, is_nil, total, from_keys, ◌≡◌, Option, values, if◌then◌else◌, ◌∷◌,
  false, Bool-cases, text_eq, some, refl, inl, inr, total-positive, ◌∙◌, if-cases, arith, some_inj,
  >>=-eq-some, subst, from_keys-IsDistinct, ap, sym,
}
use restock_system.Engine.Split.{
  Tally, explain_tally, no_orders, explain_country_qty_split, CountryAllocationResult, tally_orders,
}
use restock_system.Common.Strings.{Unicode}
use restock_system.Engine.Split.Orders.{IsTally, tally_orders-IsTally}
use restock_system.Common.Floats.{Floats}
use restock_system.Engine.Fraction.{is_positive, sum_fractions}
use restock_system.Common.Int.{ℤ, pos_part, leb_ℤ, pos}
use restock_system.Engine.Zipcode.{ZipcodeRule}
use restock_system.Engine.Split.Known.{first_known, total-split_known}
use restock_system.Engine.Allocate.{allocate_even}
use restock_system.Engine.Allocate.Even.{total-allocate_even}

first_round : (eligible : List Text) → IsTally eligible no_orders
first_round eligible = record {
  known_eligible = tt;
  weights = tt;
  some_matched = λ h. absurd (h refl);
}

no_known-of_nil :
    (t : Tally) → IsTally [] t → is_positive (sum_fractions (values t.known_counts)) ≡ false
no_known-of_nil t h = elim (Bool-cases (is_positive (sum_fractions (values t.known_counts)))) [
  | inl p ↦ let (wid, _, _, can, _) = first_known [] t h p in cc
  | inr p ↦ p
]

total-explain_tally :
    (n : ℕ) (t : Tally) (eligible : List Text)
    → IsDistinct eligible
    → IsTally eligible t
    → total (explain_tally n t eligible).warehouse_breakdown ≡ (if is_nil eligible then 0 else n)
unfolding explain_tally
total-explain_tally n t [] d h = rw (no_known-of_nil t h)
total-explain_tally n t (w ∷ ws) d h =
    elim (Bool-cases (is_positive (sum_fractions (values t.known_counts)))) [
      | inl p ↦ rw p (total-split_known n t (w ∷ ws) d h p)
      | inr p ↦
          rw p
            (total-positive (allocate_even n (w ∷ ws)) ∙ total-allocate_even n (w ∷ ws) d (λ q. cc))
    ]

is_nil-from_keys : (xs : List Text) → is_nil (from_keys xs) ≡ is_nil xs
is_nil-from_keys [] = refl
is_nil-from_keys (x ∷ xs) = refl

module _ (u : Unicode) (f : Floats) where
  -- Whatever orders and rules there are: if the split returns, then the warehouses' shares add up to
  -- exactly the country's quantity (to nothing for a quantity of zero or less), unless the country
  -- has no warehouse; then nothing is given out.
  pub total-explain_country_qty_split :
      (country : Text) (country_qty : ℤ) (orders : List (Option Text × ℤ))
      (rules : List ZipcodeRule) (country_warehouses : List Text) {result : CountryAllocationResult}
      → explain_country_qty_split u f country country_qty orders rules country_warehouses
        ≡ some result
      → total result.warehouse_breakdown
        ≡ (if is_nil country_warehouses then 0 else pos_part country_qty)
  unfolding explain_country_qty_split
  total-explain_country_qty_split country country_qty orders rules country_warehouses {result} h =
      let eligible = from_keys country_warehouses in
      let tallied = tally_orders u f country rules eligible orders no_orders in
      elim (if-cases (leb_ℤ country_qty (pos 0)) _ _ h) [
        | inl (nothing, same) ↦ ground (arith, some_inj same)
        | inr (_, split) ↦
            let (t, e, done) =
              >>=-eq-some tallied (λ t. some (explain_tally (pos_part country_qty) t eligible))
                split in
            let kept =
              tally_orders-IsTally eligible u f country rules orders no_orders
                (first_round eligible) e in
            rw (← is_nil-from_keys country_warehouses) (
              subst
                (λ r.
                  total r.warehouse_breakdown
                  ≡ (if is_nil eligible then 0 else pos_part country_qty))
                (some_inj done)
                (total-explain_tally (pos_part country_qty) t eligible
                  (from_keys-IsDistinct country_warehouses) kept))
      ]

  -- A country without a warehouse gets no breakdown.
  pub breakdown-nil_of_no_warehouse :
      (country : Text) (country_qty : ℤ) (orders : List (Option Text × ℤ))
      (rules : List ZipcodeRule) {result : CountryAllocationResult}
      → explain_country_qty_split u f country country_qty orders rules [] ≡ some result
      → result.warehouse_breakdown ≡ []
  unfolding explain_country_qty_split explain_tally
  breakdown-nil_of_no_warehouse country country_qty orders rules {result} h =
      let tallied = tally_orders u f country rules [] orders no_orders in
      elim (if-cases (leb_ℤ country_qty (pos 0)) _ _ h) [
        | inl (_, same) ↦ ap (λ r. r.warehouse_breakdown) (sym (some_inj same))
        | inr (_, split) ↦
            let (t, e, done) =
              >>=-eq-some tallied (λ t. some (explain_tally (pos_part country_qty) t [])) split in
            let kept =
              tally_orders-IsTally [] u f country rules orders no_orders (first_round []) e in
            ap (λ r. r.warehouse_breakdown) (sym (some_inj done)) ∙ rw (no_known-of_nil t kept) refl
      ]
