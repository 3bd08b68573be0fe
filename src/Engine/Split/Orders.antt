-- ===== src/Engine/Split/Orders.antt =====
-- What the loop over the orders keeps.
use native.Mathlib.Nat.{one-le-mul}
use restock_system.Engine.Fraction.{Fraction, ◌+F◌, ratio, whole, IsFraction}
use restock_system.Common.{
  subst, List, ◌<◌, Text, All, elem, Dict, arith, ℕ, ◌≡◌, values, true, ◌∷◌, keys, get_or, keep_if,
  Option, ◌≢◌, Bool-cases, length, [], put, some, text_eq, inl, All-keys-put, All-values-put, inr,
  >>=-eq-some, All-values-get_or, All-map_to, some_inj, ◌>>=◌, if-cases,
}
use restock_system.Engine.Split.{
  bucket_eq, Tally, add_shares, count_order, tally_orders, visit_order,
}
use restock_system.Common.Strings.{Unicode}
use restock_system.Common.Floats.{Floats}
use restock_system.Engine.Zipcode.{ZipcodeRule, match_warehouses}
use restock_system.Common.Int.{ℤ, pos, pos_part, leb_ℤ}

-- A share that counts for something.
abbrev pub IsWeight : Fraction → Type 0
IsWeight w = (0 < w.numerator) × (0 < w.denominator)

module _ (eligible : List Text) where
  -- What holds of the loop's variables: known warehouses are eligible and have a weight, and some
  -- known warehouse means that some piece was matched.
  pub record IsTally (t : Tally) : Type 0 where
    pub known_eligible : All (λ wid. elem wid eligible ≡ true) (keys t.known_counts)
    pub weights : All IsWeight (values t.known_counts)
    pub some_matched : t.known_counts ≢ [] → 0 < t.matched

  add_shares-eligible :
      (share : Fraction) (winners : List Text) (counts : Dict Text Fraction)
      → All (λ wid. elem wid eligible ≡ true) winners
      → All (λ wid. elem wid eligible ≡ true) (keys counts)
      → All (λ wid. elem wid eligible ≡ true) (keys (add_shares share winners counts))
  unfolding add_shares
  add_shares-eligible share [] counts e h = h
  add_shares-eligible share (wid ∷ winners) counts e h =
      let sum = get_or wid counts (whole 0) +F share in
      add_shares-eligible share winners (put wid sum counts) e.1
        (All-keys-put (λ w. elem w eligible ≡ true) wid sum counts e.0 h)

  IsWeight-add : (a b : Fraction) → 0 < a.denominator → IsWeight b → IsWeight (a +F b)
  IsWeight-add a b p h = (omega (arith, one-le-mul h.0 p), one-le-mul p h.1)

  add_shares-IsWeight :
      (share : Fraction) (winners : List Text) (counts : Dict Text Fraction)
      → IsWeight share
      → All IsWeight (values counts)
      → All IsWeight (values (add_shares share winners counts))
  unfolding add_shares
  add_shares-IsWeight share [] counts s h = h
  add_shares-IsWeight share (wid ∷ winners) counts s h =
      let old = get_or wid counts (whole 0) in
      let proper : IsFraction old =
        All-values-get_or IsFraction wid (whole 0) counts (omega arith)
          (All-map_to IsWeight IsFraction (values counts) (λ w p. p.1) h) in
      add_shares-IsWeight share winners (put wid (old +F share) counts) s
        (All-values-put IsWeight wid (old +F share) counts (IsWeight-add old share proper s) h)

  keep_if-eligible :
      (ws : List Text) → All (λ wid. elem wid eligible ≡ true) (keep_if (λ w. elem w eligible) ws)
  keep_if-eligible [] = tt
  keep_if-eligible (w ∷ ws) = elim (Bool-cases (elem w eligible)) [
    | inl yes_eligible ↦ rw yes_eligible (yes_eligible, keep_if-eligible ws)
    | inr not_eligible ↦ rw not_eligible (keep_if-eligible ws)
  ]

  count_order-IsTally :
      (qty : ℕ) (winners : List Text) (t : Tally)
      → 0 < qty
      → All (λ wid. elem wid eligible ≡ true) winners
      → IsTally t
      → IsTally (count_order qty winners t)
  unfolding count_order
  count_order-IsTally qty [] t p e h = record {
    known_eligible = h.known_eligible;
    weights = h.weights;
    some_matched = h.some_matched;
  }
  count_order-IsTally qty (w ∷ ws) t p e h = record {
    known_eligible =
        add_shares-eligible (ratio qty (length (w ∷ ws))) (w ∷ ws) t.known_counts e
          h.known_eligible;
    weights =
        add_shares-IsWeight (ratio qty (length (w ∷ ws))) (w ∷ ws) t.known_counts (p, omega arith)
          h.weights;
    some_matched = λ _. omega arith;
  }

  visit_order-IsTally :
      (u : Unicode) (f : Floats) (country : Text) (rules : List ZipcodeRule)
      (postal_code : Option Text) (qty : ℤ) (t : Tally) {t' : Tally}
      → IsTally t
      → visit_order u f country rules eligible postal_code qty t ≡ some t'
      → IsTally t'
  unfolding visit_order
  visit_order-IsTally u f country rules postal_code qty t h q =
      let rest = match_warehouses u f postal_code country rules >>= λ winners.
      some (count_order (pos_part qty) (keep_if (λ w. elem w eligible) winners) t) in
      elim (if-cases (leb_ℤ qty (pos 0)) (some t) rest q) [
        | inl (_, same) ↦ subst IsTally (some_inj same) h
        | inr (above, done) ↦
            let (winners, _, e) =
              >>=-eq-some (match_warehouses u f postal_code country rules)
                (λ winners.
                  some (count_order (pos_part qty) (keep_if (λ w. elem w eligible) winners) t))
                done in
            subst IsTally (some_inj e) (
              count_order-IsTally (pos_part qty) (keep_if (λ w. elem w eligible) winners) t
                (ground arith) (keep_if-eligible winners) h)
      ]

  pub tally_orders-IsTally :
      (u : Unicode) (f : Floats) (country : Text) (rules : List ZipcodeRule)
      (orders : List (Option Text × ℤ)) (t : Tally) {t' : Tally}
      → IsTally t
      → tally_orders u f country rules eligible orders t ≡ some t'
      → IsTally t'
  unfolding tally_orders
  tally_orders-IsTally u f country rules [] t h q = subst IsTally (some_inj q) h
  tally_orders-IsTally u f country rules ((postal_code, qty) ∷ orders) t h q =
      let (next, e, rest) =
        >>=-eq-some (visit_order u f country rules eligible postal_code qty t)
          (λ t'. tally_orders u f country rules eligible orders t') q in
      tally_orders-IsTally u f country rules orders next
        (visit_order-IsTally u f country rules postal_code qty t h e) rest
