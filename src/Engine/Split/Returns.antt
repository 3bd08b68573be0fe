-- ===== src/Engine/Split/Returns.antt =====
-- When the split of a country's quantity returns.
use restock_system.Common.Strings.{Unicode}
use restock_system.Common.Floats.{Floats}
use restock_system.Engine.Split.{
  tally_orders, explain_country_qty_split, visit_order, Tally, no_orders, count_order,
}
use restock_system.Common.{
  Text, List, Option, All, ◌≡◌, false, ◌≢◌, none, Bool-cases, ◌∷◌, inl, inr, Option-cases,
  from_keys, text_eq, keep_if, elem, [],
}
use restock_system.Common.Int.{ℤ, leb_ℤ, pos, pos_part}
use restock_system.Engine.Zipcode.{ZipcodeRule, match_warehouses}
use restock_system.Engine.Zipcode.Failure.{compares_integers, match_warehouses-total}

module _ (u : Unicode) (f : Floats) where
  tally_orders-total :
      (country : Text) (rules : List ZipcodeRule) (eligible : List Text)
      (orders : List (Option Text × ℤ)) (t : Tally)
      → All (λ r. compares_integers r ≡ false) rules
      → tally_orders u f country rules eligible orders t ≢ none
  unfolding tally_orders visit_order
  tally_orders-total country rules eligible [] t a = λ q. cc
  tally_orders-total country rules eligible ((postal_code, qty) ∷ orders) t a =
      elim (Bool-cases (leb_ℤ qty (pos 0))) [
        | inl e ↦ rw (e, tally_orders) (tally_orders-total country rules eligible orders t a)
        | inr e ↦ elim (Option-cases (match_warehouses u f postal_code country rules)) [
          | inl bad ↦ absurd (match_warehouses-total u f postal_code country rules a bad)
          | inr (winners, found) ↦
              rw (e, found, tally_orders)
                (tally_orders-total country rules eligible orders
                  (count_order (pos_part qty) (keep_if (λ w. elem w eligible) winners) t) a)
        ]
      ]

  -- Without a rule on numbers that asks for `=` or `!=`, the split returns for every country,
  -- quantity, list of orders and list of warehouses.
  pub explain_country_qty_split-total :
      (country : Text) (country_qty : ℤ) (orders : List (Option Text × ℤ))
      (rules : List ZipcodeRule) (country_warehouses : List Text)
      → All (λ r. compares_integers r ≡ false) rules
      → explain_country_qty_split u f country country_qty orders rules country_warehouses ≢ none
  unfolding explain_country_qty_split
  explain_country_qty_split-total country country_qty orders rules country_warehouses a =
      elim (Bool-cases (leb_ℤ country_qty (pos 0))) [
        | inl e ↦ rw (e, explain_country_qty_split) (λ q. cc)
        | inr e ↦
            elim (Option-cases
              (tally_orders u f country rules (from_keys country_warehouses) orders no_orders)) [
                | inl bad ↦ absurd (
                    tally_orders-total country rules (from_keys country_warehouses) orders no_orders
                      a bad)
                | inr (t, found) ↦ rw (e, found, explain_country_qty_split) (λ q. cc)
              ]
      ]
