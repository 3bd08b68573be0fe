-- ===== src/Engine/Allocate.antt =====
-- The allocation of whole pieces by weights and in even shares (`_allocate_by_weights` and
-- `_allocate_even` of backend/app/engine/step5_warehouse_split.py). The quantities are those that
-- pass the code's test `total_qty <= 0`, or zero.
pub mod ByWeights
pub mod Even
use restock_system.Common.{
  ℕ, zero, suc, ◌+◌, ◌-◌, ◌*◌, ◌/◌, ◌&&◌, ◌||◌, List, [], ◌∷◌, ◌++◌, map, ltb, leb, if◌then◌else◌,
  ◌==◌, Eq, nat_eq, length, is_nil, take, Dict, get_or, put, positive, values, sorted, Bool, not,
}
use restock_system.Engine.Fraction.{
  Fraction, whole, ◌*F◌, ◌/F◌, sum_fractions, is_positive, floor, fractional, ltb_F,
}

-- An entry of `remainders`; the code negates the fraction to sort the largest first.
pub record Remainder {ℓ} (K : Type ℓ) : Type ℓ where
  pub fraction : Fraction
  pub order_index : ℕ
  pub key : K

abbrev pub remainder_le {ℓ} : {K : Type ℓ} → Remainder K → Remainder K → Bool
remainder_le a b =
    ltb_F b.fraction a.fraction
    || (not (ltb_F a.fraction b.fraction) && leb a.order_index b.order_index)

-- The variables of the first loop.
pub record Bases {ℓ} (K : Type ℓ) : Type ℓ where
  pub result : Dict K ℕ
  pub remainders : List (Remainder K)
  pub allocated : ℕ

-- `Fraction(total_qty) * weight / total_weight`
abbrev pub exact_share : ℕ → Fraction → Fraction → Fraction
exact_share total_qty total_weight weight = whole total_qty *F weight /F total_weight

module _ {ℓ} {K : Type ℓ} ⦃e : Eq K⦄ where
  -- One round of the first loop.
  assign_base : ℕ → Fraction → ℕ → K → Fraction → Bases K → Bases K
  assign_base total_qty total_weight order_index key weight s =
      let exact = exact_share total_qty total_weight weight in
      let base = floor exact in
      record {
        result = put key base s.result;
        remainders =
            s.remainders
            ++ record { fraction = fractional exact; order_index = order_index; key = key } ∷ [];
        allocated = s.allocated + base;
      }

  assign_bases : ℕ → Fraction → ℕ → List (K × Fraction) → Bases K → Bases K
  unfolding assign_base
  assign_bases total_qty total_weight order_index [] s = s
  assign_bases total_qty total_weight order_index ((key, weight) ∷ ordered_weights) s =
      assign_bases total_qty total_weight (order_index + 1) ordered_weights
        (assign_base total_qty total_weight order_index key weight s)

  -- `result[key] += 1`; the key is one that the first loop wrote.
  add_one : List (Remainder K) → Dict K ℕ → Dict K ℕ
  add_one [] result = result
  add_one (r ∷ rest) result = add_one rest (put r.key (get_or r.key result 0 + 1) result)

  -- The bases, and one more for the keys with the largest remainders.
  hand_out : ℕ → Fraction → List (K × Fraction) → Dict K ℕ
  unfolding assign_bases add_one
  hand_out total_qty total_weight ordered_weights =
      let s =
        assign_bases total_qty total_weight 0 ordered_weights
          (record { result = []; remainders = []; allocated = 0 }) in
      add_one (take (total_qty - s.allocated) (sorted remainder_le s.remainders)) s.result

  unfoldable pub allocate_by_weights : ℕ → List (K × Fraction) → Dict K ℕ
  unfolding hand_out
  allocate_by_weights total_qty ordered_weights =
      let total_weight = sum_fractions (values ordered_weights) in
      if total_qty == 0 || is_nil ordered_weights
      then []
      else if not (is_positive total_weight)
      then []
      else positive (hand_out total_qty total_weight ordered_weights)

  even_shares : ℕ → ℕ → ℕ → List K → Dict K ℕ → Dict K ℕ
  even_shares base remainder i [] result = result
  even_shares base remainder i (wid ∷ warehouses) result =
      let qty = base + (if ltb i remainder then 1 else 0) in
      even_shares base remainder (i + 1) warehouses
        (if ltb 0 qty then put wid qty result else result)

  unfoldable pub allocate_even : ℕ → List K → Dict K ℕ
  unfolding even_shares
  allocate_even total_qty warehouses =
      let base = total_qty / length warehouses in
      let remainder = total_qty - base * length warehouses in
      if total_qty == 0 || is_nil warehouses then [] else even_shares base remainder 0 warehouses []
