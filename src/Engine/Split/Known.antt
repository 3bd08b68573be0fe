-- ===== src/Engine/Split/Known.antt =====
-- The split where some order is known, between the known orders' warehouses and all of them.
use native.Mathlib.Nat.{one-le-mul}
use restock_system.Engine.Fraction.{
  Fraction, IsFraction, sum_fractions, sum_fractions-IsFraction, is_positive,
}
use restock_system.Common.{
  List, ◌<◌, Text, All, elem, Dict, arith, ℕ, ◌≡◌, values, true, ◌∷◌, keys, get_or, ◌≢◌, [], put,
  some, text_eq, inl, inr, All-map_to, false, IsDistinct, Option-cases, get, total, All-values-get,
  ◌+◌, refl, total-put, ==_refl, total-positive, ne-nil_of_elem,
}
use restock_system.Engine.Split.{
  bucket_eq, Tally, ordered_counts, merge_shares, Bucket, known, unknown, split_known, buckets,
}
use restock_system.Engine.Allocate.{allocate_by_weights, allocate_even}
use restock_system.Engine.Allocate.ByWeights.{
  total-allocate_by_weights, allocate_by_weights-IsDistinct,
}
use restock_system.Engine.Allocate.Even.{total-allocate_even}
use restock_system.Engine.Split.Orders.{IsWeight, IsTally}

ordered_counts-mem :
    (wid : Text) (counts : Dict Text Fraction) (eligible : List Text)
    → elem wid eligible ≡ false
    → elem wid (keys (ordered_counts counts eligible)) ≡ false
unfolding ordered_counts
ordered_counts-mem wid counts [] h = refl
ordered_counts-mem wid counts (w ∷ ws) h = ground (arith, ordered_counts-mem wid counts ws)

ordered_counts-IsDistinct :
    (counts : Dict Text Fraction) (eligible : List Text)
    → IsDistinct eligible
    → IsDistinct (keys (ordered_counts counts eligible))
unfolding ordered_counts
ordered_counts-IsDistinct counts [] h = tt
ordered_counts-IsDistinct counts (w ∷ ws) h = elim (Option-cases (get w counts)) [
  | inl absent ↦ rw (absent, ordered_counts) (ordered_counts-IsDistinct counts ws h.1)
  | inr (weight, there) ↦
      rw (there, ordered_counts)
        (ordered_counts-mem w counts ws h.0, ordered_counts-IsDistinct counts ws h.1)
]

ordered_counts-IsWeight :
    (counts : Dict Text Fraction) (eligible : List Text)
    → All IsWeight (values counts)
    → All IsWeight (values (ordered_counts counts eligible))
unfolding ordered_counts
ordered_counts-IsWeight counts [] h = tt
ordered_counts-IsWeight counts (w ∷ ws) h = elim (Option-cases (get w counts)) [
  | inl absent ↦ rw (absent, ordered_counts) (ordered_counts-IsWeight counts ws h)
  | inr (weight, there) ↦
      rw (there, ordered_counts)
        (All-values-get IsWeight w weight counts there h, ordered_counts-IsWeight counts ws h)
]

ordered_counts-ne-nil :
    (wid : Text) (weight : Fraction) (counts : Dict Text Fraction) (eligible : List Text)
    → get wid counts ≡ some weight
    → elem wid eligible ≡ true
    → ordered_counts counts eligible ≢ []
unfolding ordered_counts
ordered_counts-ne-nil wid weight counts [] q h = λ e. cc
ordered_counts-ne-nil wid weight counts (w ∷ ws) q h =
    λ e. ground (arith, text_eq.same_iff w wid, ordered_counts-ne-nil wid weight counts ws q)

sum-weights_pos :
    (d : Dict Text Fraction)
    → d ≢ []
    → All IsWeight (values d)
    → 0 < (sum_fractions (values d)).numerator
sum-weights_pos [] n h = absurd (n refl)
sum-weights_pos ((wid, a) ∷ d) n h =
    let proper : IsFraction (sum_fractions (values d)) =
      sum_fractions-IsFraction (values d)
        (All-map_to IsWeight IsFraction (values d) (λ w p. p.1) h.1) in
    omega (arith, one-le-mul h.0.0 proper)

total-merge_shares :
    (result shares : Dict Text ℕ) → total (merge_shares result shares) ≡ total result + total shares
unfolding merge_shares
total-merge_shares result [] = omega arith
total-merge_shares result ((wid, qty) ∷ shares) = omega (
  arith,
  total-merge_shares (put wid (get_or wid result 0 + qty) result) shares,
  total-put wid (get_or wid result 0 + qty) result,
)

total-buckets :
    (d : Dict Bucket ℕ) → IsDistinct (keys d) → total d ≡ get_or known d 0 + get_or unknown d 0
total-buckets [] h = omega arith
total-buckets ((a, x) ∷ []) h = ground arith
total-buckets ((a, x) ∷ (b, y) ∷ []) h = ground arith
total-buckets ((a, x) ∷ (b, y) ∷ (c, z) ∷ d) h = ground arith

-- A warehouse that some order is counted for.
pub first_known :
    (eligible : List Text) (t : Tally)
    → IsTally eligible t
    → is_positive (sum_fractions (values t.known_counts)) ≡ true
    → (wid : Text) × (weight : Fraction) × (get wid t.known_counts ≡ some weight)
      × (elem wid eligible ≡ true)
      × (0 < t.matched)
first_known eligible t h p = from_entries t.known_counts h.known_eligible h.some_matched p
  where
    from_entries :
        (d : Dict Text Fraction)
        → All (λ wid. elem wid eligible ≡ true) (keys d)
        → (d ≢ [] → 0 < t.matched)
        → is_positive (sum_fractions (values d)) ≡ true
        → (wid : Text) × (weight : Fraction) × (get wid d ≡ some weight)
          × (elem wid eligible ≡ true)
          × (0 < t.matched)
    from_entries [] e m q = absurd (ground arith)
    from_entries ((wid, weight) ∷ d) e m q = (wid, weight, rw (==_refl wid), e.0, m (λ z. cc))

-- Where some order is known, exactly the quantity is given out.
pub total-split_known :
    (n : ℕ) (t : Tally) (eligible : List Text)
    → IsDistinct eligible
    → IsTally eligible t
    → is_positive (sum_fractions (values t.known_counts)) ≡ true
    → total (split_known n t eligible) ≡ n
unfolding split_known
total-split_known n t eligible d h p =
    let (wid, weight, there, can, some_matched) = first_known eligible t h p in
    let parts : Dict Bucket ℕ = allocate_by_weights n (buckets t) in
    let known_qty : ℕ = get_or known parts 0 in
    let unknown_qty : ℕ = get_or unknown parts 0 in
    let counts : Dict Text Fraction = ordered_counts t.known_counts eligible in
    let shares : Dict Text ℕ = allocate_by_weights known_qty counts in
    let even : Dict Text ℕ = allocate_even unknown_qty eligible in
    let weights = ordered_counts-IsWeight t.known_counts eligible h.weights in
    let counts_pos : 0 < (sum_fractions (values counts)).numerator =
      sum-weights_pos counts (ordered_counts-ne-nil wid weight t.known_counts eligible there can)
        weights in
    let proper = All-map_to IsWeight IsFraction (values counts) (λ w q. q.1) weights in
    omega (
      arith,
      total-positive (merge_shares shares even),
      total-merge_shares shares even,
      total-allocate_by_weights known_qty counts
          (ordered_counts-IsDistinct t.known_counts eligible d) proper counts_pos,
      total-allocate_even unknown_qty eligible d (ne-nil_of_elem wid eligible can),
      total-allocate_by_weights n (buckets t) (refl, (refl, tt)) (omega arith) (omega arith),
      total-buckets parts (allocate_by_weights-IsDistinct n (buckets t)),
    )
