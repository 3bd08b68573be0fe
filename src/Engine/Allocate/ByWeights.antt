-- ===== src/Engine/Allocate/ByWeights.antt =====
-- `allocate_by_weights` gives out the whole quantity.
use native.Mathlib.Nat.{one-le-mul, eq_of_mul-eq-mul_left, le_of_mul-le-mul_right}
use restock_system.Common.{
  AreApart, AreApart-put, AreApart-nil, total-put_new, ℕ, zero, suc, ◌+◌, ◌-◌, ◌*◌, ◌≤◌, ◌<◌, ◌≡◌,
  refl, ap, List, [], ◌∷◌, map, arith, Eq, length, take, All, sum, Dict, keys, values, get_or, put,
  total, total-put, total-positive, IsDistinct, sorted, length-sorted, length-append, length-take,
  length-map, put-IsDistinct, positive-IsDistinct,
}
use restock_system.Engine.Fraction.{
  Fraction, IsFraction, sum_fractions, floor, floors-le-sum, sum-le-floors,
  sum_fractions-IsFraction,
}
use restock_system.Engine.Allocate.{
  Remainder, Bases, assign_base, exact_share, assign_bases, add_one, allocate_by_weights,
  remainder_le, hand_out,
}

-- The exact shares of a quantity add up to it.
sum-exact_share :
    (n : ℕ) (w : Fraction) (fs : List Fraction)
    → (sum_fractions (map (exact_share n w) fs)).numerator
        * (w.numerator * (sum_fractions fs).denominator)
      ≡ n
        * w.denominator
        * (sum_fractions fs).numerator
        * (sum_fractions (map (exact_share n w) fs)).denominator
sum-exact_share n w [] = omega arith
sum-exact_share n w (a ∷ fs) = omega (
  arith,
  ap (λ (t : ℕ). t * (a.denominator * a.denominator * w.numerator)) (sum-exact_share n w fs),
)

module _ {ℓ} {K : Type ℓ} ⦃e : Eq K⦄ where
  total-add_one :
      (rs : List (Remainder K)) (d : Dict K ℕ) → total (add_one rs d) ≡ total d + length rs
  unfolding add_one
  total-add_one [] d = omega arith
  total-add_one (r ∷ rs) d = omega (
    arith,
    total-add_one rs (put r.key (get_or r.key d 0 + 1) d),
    total-put r.key (get_or r.key d 0 + 1) d,
  )

module _ {ℓ} {K : Type ℓ} ⦃e : Eq K⦄ (n : ℕ) (w : Fraction) where
  abbrev shares : List (K × Fraction) → List Fraction
  shares ws = map (exact_share n w) (values ws)

  abbrev bases : List (K × Fraction) → ℕ
  bases ws = sum (map floor (shares ws))

  allocated-assign_bases :
      (i : ℕ) (ws : List (K × Fraction)) (s : Bases K)
      → (assign_bases n w i ws s).allocated ≡ s.allocated + bases ws
  unfolding assign_bases
  allocated-assign_bases i [] s = omega arith
  allocated-assign_bases i ((key, weight) ∷ ws) s =
      omega (arith, allocated-assign_bases (i + 1) ws (assign_base n w i key weight s))

  length-remainders :
      (i : ℕ) (ws : List (K × Fraction)) (s : Bases K)
      → length (assign_bases n w i ws s).remainders ≡ length s.remainders + length ws
  unfolding assign_bases
  length-remainders i [] s = omega arith
  length-remainders i ((key, weight) ∷ ws) s = omega (
    arith,
    length-remainders (i + 1) ws (assign_base n w i key weight s),
    length-append {ℓ} s.remainders,
  )

  total-assign_bases :
      (i : ℕ) (ws : List (K × Fraction)) (s : Bases K)
      → IsDistinct (keys ws)
      → AreApart (keys s.result) (keys ws)
      → total (assign_bases n w i ws s).result ≡ total s.result + bases ws
  unfolding assign_bases
  total-assign_bases i [] s d a = omega arith
  total-assign_bases i ((key, weight) ∷ ws) s d a =
      let base : ℕ = floor (exact_share n w weight) in
      omega (
        arith,
        total-assign_bases (i + 1) ws (assign_base n w i key weight s) d.1
            (AreApart-put key base s.result (keys ws) d.0 a.1),
        total-put_new key base s.result a.0,
      )

shares-IsFraction :
    (n : ℕ) (w : Fraction) (fs : List Fraction)
    → 0 < w.numerator
    → All IsFraction fs
    → All IsFraction (map (exact_share n w) fs)
shares-IsFraction n w [] p h = tt
shares-IsFraction n w (a ∷ fs) p h =
    (one-le-mul {a = 1 * a.denominator} (omega (arith, h.0)) p, shares-IsFraction n w fs p h.1)

-- Without its leftover the quantity is covered, and the leftover is at most one for each entry.
bases_bounds :
    (n : ℕ) (fs : List Fraction)
    → All IsFraction fs
    → 0 < (sum_fractions fs).numerator
    → (sum (map floor (map (exact_share n (sum_fractions fs)) fs)) ≤ n)
      × (n ≤ sum (map floor (map (exact_share n (sum_fractions fs)) fs)) + length fs)
bases_bounds n fs h p =
    let w : Fraction = sum_fractions fs in
    let es : List Fraction = map (exact_share n w) fs in
    let proper : All IsFraction es = shares-IsFraction n w fs p h in
    let d_pos : IsFraction (sum_fractions es) = sum_fractions-IsFraction es proper in
    let exact : (sum_fractions es).numerator ≡ n * (sum_fractions es).denominator =
      eq_of_mul-eq-mul_left (w.numerator * w.denominator)
        (one-le-mul p (sum_fractions-IsFraction fs h)) _ _
        (omega (arith, sum-exact_share n w fs)) in
    let short : n ≤ sum (map floor es) + length es =
      le_of_mul-le-mul_right (omega (arith, sum-le-floors es proper, exact)) d_pos in
    (
      le_of_mul-le-mul_right (omega (arith, floors-le-sum es proper, exact)) d_pos,
      omega (arith, short, length-map (exact_share n w) fs),
    )

module _ {ℓ} {K : Type ℓ} ⦃e : Eq K⦄ where
  length-values : {V : Type 0} (d : Dict K V) → length (values d) ≡ length d
  length-values [] = refl
  length-values ((k, v) ∷ d) = ap suc (length-values d)

  total-hand_out :
      (n : ℕ) (ws : Dict K Fraction)
      → IsDistinct (keys ws)
      → All IsFraction (values ws)
      → 0 < (sum_fractions (values ws)).numerator
      → total (hand_out n (sum_fractions (values ws)) ws) ≡ n
  total-hand_out n ws d h p =
      let w : Fraction = sum_fractions (values ws) in
      let start : Bases K = record { result = []; remainders = []; allocated = 0 } in
      let s : Bases K = assign_bases n w 0 ws start in
      let rs : List (Remainder K) = sorted remainder_le s.remainders in
      let bounds = bases_bounds n (values ws) h p in
      unfold hand_out in
      omega (
        arith,
        bounds.0,
        bounds.1,
        length-values ws,
        total-add_one (take (n - s.allocated) rs) s.result,
        total-assign_bases n w 0 ws start d (AreApart-nil (keys ws)),
        allocated-assign_bases n w 0 ws start,
        length-remainders n w 0 ws start,
        length-sorted (remainder_le {K = K}) s.remainders,
        length-take (n - s.allocated) rs,
      )

  -- With distinct keys and a positive total weight the allocation gives out exactly the quantity.
  pub total-allocate_by_weights :
      (n : ℕ) (ws : Dict K Fraction)
      → IsDistinct (keys ws)
      → All IsFraction (values ws)
      → 0 < (sum_fractions (values ws)).numerator
      → total (allocate_by_weights n ws) ≡ n
  unfolding allocate_by_weights
  total-allocate_by_weights n [] d h p = absurd (omega arith)
  total-allocate_by_weights zero (x ∷ ws) d h p = refl
  total-allocate_by_weights (suc n) (x ∷ ws) d h p = ground (
    arith,
    total-hand_out (suc n) (x ∷ ws) d h p,
    total-positive (hand_out (suc n) (sum_fractions (values (x ∷ ws))) (x ∷ ws)),
  )

  assign_bases-IsDistinct :
      (n : ℕ) (w : Fraction) (i : ℕ) (ws : Dict K Fraction) (s : Bases K)
      → IsDistinct (keys s.result)
      → IsDistinct (keys (assign_bases n w i ws s).result)
  unfolding assign_bases
  assign_bases-IsDistinct n w i [] s h = h
  assign_bases-IsDistinct n w i ((key, weight) ∷ ws) s h =
      assign_bases-IsDistinct n w (i + 1) ws (assign_base n w i key weight s)
        (put-IsDistinct key (floor (exact_share n w weight)) s.result h)

  add_one-IsDistinct :
      (rs : List (Remainder K)) (d : Dict K ℕ)
      → IsDistinct (keys d)
      → IsDistinct (keys (add_one rs d))
  unfolding add_one
  add_one-IsDistinct [] d h = h
  add_one-IsDistinct (r ∷ rs) d h =
      add_one-IsDistinct rs (put r.key (get_or r.key d 0 + 1) d) (put-IsDistinct r.key _ d h)

  hand_out-IsDistinct :
      (n : ℕ) (w : Fraction) (ws : Dict K Fraction) → IsDistinct (keys (hand_out n w ws))
  unfolding hand_out
  hand_out-IsDistinct n w ws =
      let start : Bases K = record { result = []; remainders = []; allocated = 0 } in
      let s : Bases K = assign_bases n w 0 ws start in
      add_one-IsDistinct (take (n - s.allocated) (sorted remainder_le s.remainders)) s.result
        (assign_bases-IsDistinct n w 0 ws start tt)

  -- The result is a dictionary: no key stands twice.
  pub allocate_by_weights-IsDistinct :
      (n : ℕ) (ws : Dict K Fraction) → IsDistinct (keys (allocate_by_weights n ws))
  unfolding allocate_by_weights
  allocate_by_weights-IsDistinct n ws =
      let w : Fraction = sum_fractions (values ws) in
      ground (arith, positive-IsDistinct (hand_out n w ws) (hand_out-IsDistinct n w ws))
