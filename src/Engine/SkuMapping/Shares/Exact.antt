-- ===== src/Engine/SkuMapping/Shares/Exact.antt =====
-- The sum of the shares of a component's stock (`_allocate_integer_quantity`).
use restock_system.Engine.SkuMapping.Shares.{
  Share, bump, hand_out_rest, shares_from, pair_up, bases_of, fraction_before,
  allocate_integer_quantity, weights_of, zeros_of,
}
use native.Mathlib.Nat.{le_of_mul-le-mul_right}
use restock_system.Common.{
  ℕ, List, Text, All, length, ◌<◌, ◌≡◌, for_each, values, some, ◌∷◌, arith, ◌∙◌, ◌+◌, suc, ap,
  subst, [], sym, refl, zero, some_inj, sorted, >>=-eq-some, length-map, All-take, sorted-All, take,
  length-take, length-sorted, map, Dict, ◌≢◌, Bool-cases, any, inl, get_or, inr, text_eq,
  IsDistinct, ◌≤◌, ◌*◌, false,
}
use restock_system.Common.Floats.{Floats}
use restock_system.Common.Int.{ℤ, pos, ◌+ℤ◌, ◌≤ℤ◌, int_laws, ◌-ℤ◌, pos_part}
use restock_system.Engine.Total.{sum_ℤ, sum_floats}
use restock_system.Engine.SkuMapping.Shares.Pieces.{
  length-bump, fill_up, pos-add, only_share, sum_ℤ-bump, values-pair_up, sum_ℤ-zeros, few_left,
  above_zero,
}

module _ (fl : Floats) where
  length-bumps :
      (ss : List (Share fl)) (xs : List ℤ)
      → length (for_each (λ (s : Share fl). bump s.idx) ss xs) ≡ length xs
  length-bumps [] xs = refl
  length-bumps (s ∷ ss) xs = length-bumps ss (bump s.idx xs) ∙ length-bump s.idx xs

  sum_ℤ-bumps :
      (ss : List (Share fl)) (xs : List ℤ)
      → All (λ (s : Share fl). s.idx < length xs) ss
      → sum_ℤ (for_each (λ (s : Share fl). bump s.idx) ss xs) ≡ sum_ℤ xs +ℤ pos (length ss)
  sum_ℤ-bumps [] xs h = grind int_laws
  sum_ℤ-bumps (s ∷ ss) xs h =
      let later =
        subst (λ n. All (λ (s : Share fl). s.idx < n) ss) (sym (length-bump s.idx xs)) h.1 in
      let one = sum_ℤ-bump s.idx xs h.0 in
      let rest = sum_ℤ-bumps ss (bump s.idx xs) later in grind (int_laws, one, rest)

  -- The places of the shares are places of the consumers.
  abbrev PlacesBelow : ℕ → List (Share fl) → Type 0
  PlacesBelow n shares = All (λ (s : Share fl). s.idx < n) shares

  length-shares_from :
      (total : ℤ) (weight_sum : fl.Float) (idx : ℕ) (cs : List Text) (ws : List fl.Float)
      {shares : List (Share fl)}
      → shares_from fl total weight_sum idx cs ws ≡ some shares
      → length ws ≡ length cs
      → (length shares ≡ length cs) × PlacesBelow (idx + length cs) shares
  length-shares_from total weight_sum idx [] ws h q =
      subst (λ ss. (length ss ≡ 0) × PlacesBelow (idx + 0) ss) (some_inj h) (refl, tt)
  length-shares_from total weight_sum idx (c ∷ cs) [] h q = ground arith
  length-shares_from total weight_sum idx (c ∷ cs) (w ∷ ws) {shares} h q =
      let raw = fl.div (fl.mul (fl.of_int total) w) weight_sum in
      let (base, _, tail) = >>=-eq-some (fl.floor raw) _ h in
      let (rest, found, last) =
        >>=-eq-some (shares_from fl total weight_sum (idx + 1) cs ws) _ tail in
      let (count, places) =
        length-shares_from total weight_sum (idx + 1) cs ws found (omega (arith, q)) in
      subst (λ ss. (length ss ≡ suc (length cs)) × PlacesBelow (idx + suc (length cs)) ss)
        (some_inj last)
        (ap suc count, (omega arith, subst (λ n. PlacesBelow n rest) (omega arith) places))

  -- What the rounded shares leave of the total is handed out, one by one.
  pub sum_ℤ-hand_out_rest :
      (total : ℤ) (shares : List (Share fl))
      → PlacesBelow (length shares) shares
      → pos 0 ≤ℤ total -ℤ sum_ℤ (bases_of fl shares)
      → total -ℤ sum_ℤ (bases_of fl shares) ≤ℤ pos (length shares)
      → sum_ℤ (hand_out_rest fl total shares) ≡ total
  unfolding hand_out_rest
  sum_ℤ-hand_out_rest total shares places low high =
      let allocated = bases_of fl shares in
      let remainder = total -ℤ sum_ℤ allocated in
      let order = sorted (fraction_before fl) shares in
      let same_length : length allocated ≡ length shares =
        length-map (λ (s : Share fl). s.base) shares in
      let inside = All-take _ (pos_part remainder) order (
        sorted-All (fraction_before fl) _ shares
          (subst (λ n. PlacesBelow n shares) (sym same_length) places)) in
      let gained = sum_ℤ-bumps (take (pos_part remainder) order) allocated inside in
      let count = length-take (pos_part remainder) order in
      let all_there = length-sorted (fraction_before fl) shares in
      gained ∙ fill_up _ total _ _ _ count all_there low high

  length-hand_out_rest :
      (total : ℤ) (shares : List (Share fl))
      → length (hand_out_rest fl total shares) ≡ length shares
  unfolding hand_out_rest
  length-hand_out_rest total shares =
      length-bumps
        (take (pos_part (total -ℤ sum_ℤ (bases_of fl shares))) (sorted (fraction_before fl) shares))
        (bases_of fl shares)
      ∙ length-map (λ (s : Share fl). s.base) shares

  length-weights_of :
      (cs : List Text) (weights : Dict Text fl.Float)
      → length (weights_of fl cs weights) ≡ length cs
  length-weights_of cs weights =
      elim (Bool-cases (
        any (λ weight. fl.le weight (fl.of_int (pos 0)))
          (map (λ consumer. get_or consumer weights (fl.tenths 0)) cs))) [
            | inl q ↦ rw (q, weights_of) (length-map (λ consumer. fl.tenths 10) cs)
            | inr q ↦
                rw (q, weights_of)
                  (length-map (λ consumer. get_or consumer weights (fl.tenths 0)) cs)
          ]

  -- What the code relies on of the floats at its inputs, `size` being the number that a float stands for
  module _ (size : fl.Float → ℕ) where
    abbrev sizes : List fl.Float → ℕ
    sizes [] = 0
    sizes (w ∷ ws) = size w + sizes ws

    -- `floor(n * w / s)` of exact numbers
    abbrev IsFloored : ℕ → fl.Float → fl.Float → Type 0
    IsFloored n s w =
        (k : ℕ) × (fl.floor (fl.div (fl.mul (fl.of_int (pos n)) w) s) ≡ some (pos k))
        × (k * size s ≤ n * size w)
        × (n * size w ≤ (k + 1) * size s)

    -- The sum of the weights is a positive float that stands for their sum, and the shares of the weights
    -- in `n` are rounded down.
    pub record AreExact (n : ℕ) (ws : List fl.Float) : Type 0 where
      pub not_zero : fl.le (sum_floats fl (fl.of_int (pos 0)) ws) (fl.of_int (pos 0)) ≡ false
      pub positive : 0 < size (sum_floats fl (fl.of_int (pos 0)) ws)
      pub added : size (sum_floats fl (fl.of_int (pos 0)) ws) ≡ sizes ws
      pub floored : All (IsFloored n (sum_floats fl (fl.of_int (pos 0)) ws)) ws

    shares_from-floored :
        (n : ℕ) (s : fl.Float) (idx : ℕ) (cs : List Text) (ws : List fl.Float)
        → length ws ≡ length cs
        → All (IsFloored n s) ws
        → (shares : List (Share fl)) × (shares_from fl (pos n) s idx cs ws ≡ some shares)
          × ((k : ℕ) × (sum_ℤ (bases_of fl shares) ≡ pos k)
              × (k * size s ≤ n * sizes ws)
              × (n * sizes ws ≤ (k + length ws) * size s))
    shares_from-floored n s idx [] [] h a = ([], refl, (0, refl, omega arith, omega arith))
    shares_from-floored n s idx [] (w ∷ ws) h a = ground arith
    shares_from-floored n s idx (c ∷ cs) [] h a = ground arith
    shares_from-floored n s idx (c ∷ cs) (w ∷ ws) h a =
        let (k, found, low, high) = a.0 in
        let (rest, there, (m, total, low_, high_)) =
          shares_from-floored n s (idx + 1) cs ws (omega (arith, h)) a.1 in
        let raw = fl.div (fl.mul (fl.of_int (pos n)) w) s in
        let share : Share fl = record { idx = idx; consumer = c; raw = raw; base = pos k } in
        (
          share ∷ rest,
          rw (found, there) refl,
          (
            k + m,
            ap (λ t. pos k +ℤ t) total ∙ pos-add k m,
            omega (arith, low, low_),
            omega (arith, high, high_),
          ),
        )

    -- The shares of the consumers of a component are there, and they add up to the stock of the component,
    -- where there is a consumer, no consumer stands twice, the stock is not negative, and the floats
    -- are exact at the weights of the consumers: their sum is that of the numbers, and a share is the
    -- floor of the quotient.
    pub sum_ℤ-allocate_integer_quantity :
        (n : ℕ) (consumers : List Text) (weights : Dict Text fl.Float)
        → consumers ≢ []
        → IsDistinct consumers
        → AreExact n (weights_of fl consumers weights)
        → (splits : Dict Text ℤ) × (allocate_integer_quantity fl (pos n) consumers weights
            ≡ some splits)
          × (sum_ℤ (values splits) ≡ pos n)
    unfolding allocate_integer_quantity
    sum_ℤ-allocate_integer_quantity n [] weights ne u exact = absurd (ne refl)
    sum_ℤ-allocate_integer_quantity n (c ∷ []) weights ne u exact = (_, refl, only_share n)
    sum_ℤ-allocate_integer_quantity zero (c ∷ c2 ∷ cs) weights ne u exact =
        let consumers : List Text = c ∷ c2 ∷ cs in
        (
          zeros_of consumers,
          refl,
          ap sum_ℤ (
                values-pair_up consumers (map (λ c. pos 0) consumers)
                  (length-map (λ c. pos 0) consumers) u)
              ∙ sum_ℤ-zeros consumers,
        )
    sum_ℤ-allocate_integer_quantity (suc n) (c ∷ c2 ∷ cs) weights ne u exact =
        let consumers : List Text = c ∷ c2 ∷ cs in
        let ws = weights_of fl consumers weights in
        let same = length-weights_of consumers weights in
        let (shares, found, (k, based, low, high)) =
          shares_from-floored (suc n) (sum_floats fl (fl.of_int (pos 0)) ws) 0 consumers ws same
            exact.floored in
        let (count, places) = length-shares_from (pos (suc n)) _ 0 consumers ws found same in
        let scaled = ap (λ m. suc n * m) exact.added in
        let below : k ≤ suc n =
          le_of_mul-le-mul_right (omega (arith, low, scaled)) exact.positive in
        let above : suc n ≤ k + length ws =
          le_of_mul-le-mul_right (omega (arith, high, scaled)) exact.positive in
        let (least, most) =
          few_left (suc n) k (length shares) below (omega (arith, above, same, count)) in
        let inside = subst (λ m. PlacesBelow m shares) (omega (arith, count)) places in
        let total =
          sum_ℤ-hand_out_rest (pos (suc n)) shares inside (rw based least) (rw based most) in
        let kept = length-hand_out_rest (pos (suc n)) shares ∙ count in
        (
          pair_up consumers (hand_out_rest fl (pos (suc n)) shares),
          rw (above_zero n, exact.not_zero, found) refl,
          ap sum_ℤ (values-pair_up consumers (hand_out_rest fl (pos (suc n)) shares) kept u)
              ∙ total,
        )
