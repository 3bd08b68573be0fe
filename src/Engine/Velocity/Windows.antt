-- ===== src/Engine/Velocity/Windows.antt =====
-- The windows of the grouped order lines, and the velocity of a country, over the lines themselves.
use restock_system.Common.{
  pair_eq, Text, ℕ, Bool, List, Dict, ◌==◌, put, get_or, ◌∷◌, ◌&&◌, if◌then◌else◌, ◌+◌, ◌≡◌, [],
  text_eq, arith, Bool-cases, inl, nat_beq_iff, inr, nat_eq, get, some, subst, sym, get-put,
  ==_refl, refl, ltb, elem, IsDistinct, keys, ◌||◌, any, put-IsDistinct, elem-keys-put, not, none,
}
use restock_system.Engine.Velocity.{
  window_sum, Line, add_line, is_in_window, effective, add_at, daily_from, compute_velocity,
  velocities, aggregate_velocity_from_items,
}
use restock_system.Common.Floats.{Floats}
use restock_system.Common.Strings.{Unicode}
use restock_system.Engine.Context.{BySku, at, set_at}
use restock_system.Core.Countries.{is_reportable_country_code}
use restock_system.Engine.Context.Fill.{at-write_at}

abbrev pub is_of : Text → Text → Line → Bool
is_of s c l = l.sku == s && l.country == c

-- The effective quantity of the lines of a sku and country whose date is in the window.
abbrev pub lines_sum : Text → Text → ℕ → ℕ → List Line → ℕ
lines_sum s c today days_ago [] = 0
lines_sum s c today days_ago (l ∷ items) =
    (if is_of s c l && is_in_window l.order_date today days_ago then effective l.ordered else 0)
    + lines_sum s c today days_ago items

-- The pieces that a day of the window holds count, and those of another day do not.
window_sum-put :
    (today days_ago d n : ℕ) (date_map : Dict ℕ ℕ)
    → window_sum today days_ago (put d (get_or d date_map 0 + n) date_map)
      ≡ window_sum today days_ago date_map + (if is_in_window d today days_ago then n else 0)
unfolding window_sum
window_sum-put today days_ago d n [] = ground arith
window_sum-put today days_ago d n ((j, qty) ∷ date_map) = elim (Bool-cases (j == d)) [
  | inl e ↦
      let same : j ≡ d = (nat_beq_iff j d).0 e in rw (e, same, get_or, window_sum) (ground arith)
  | inr e ↦ ground (arith, e, window_sum-put today days_ago d n date_map)
]

get-add_at :
    (key j : Text × Text) (d eff : ℕ) (daily : Dict (Text × Text) (Dict ℕ ℕ))
    → get j (add_at key d eff daily) ≡ (
        if key == j
        then some (put d (get_or d (get_or j daily []) 0 + eff) (get_or j daily []))
        else get j daily)
get-add_at key j d eff daily = elim (Bool-cases (key == j)) [
  | inl e ↦
      let same : key ≡ j = (pair_eq.same_iff key j).0 e in
      rw e (
        subst
          (λ k.
            get j (add_at k d eff daily)
            ≡ some (put d (get_or d (get_or j daily []) 0 + eff) (get_or j daily [])))
          (sym same) (rw (get-put, ==_refl j) refl))
  | inr e ↦ rw e (rw (get-put, e) refl)
]

-- The quantities of a sku and country, day by day.
abbrev pub days_of : Text → Text → Dict (Text × Text) (Dict ℕ ℕ) → Dict ℕ ℕ
days_of s c daily = get_or (s, c) daily []

add_line-window :
    (s c : Text) (today days_ago : ℕ) (l : Line) (daily : Dict (Text × Text) (Dict ℕ ℕ))
    → window_sum today days_ago (days_of s c (add_line l daily))
      ≡ (if is_of s c l && is_in_window l.order_date today days_ago then effective l.ordered else 0)
        + window_sum today days_ago (days_of s c daily)
unfolding add_line
add_line-window s c today days_ago l daily = ground (
  arith,
  get-add_at (l.sku, l.country) (s, c) l.order_date (effective l.ordered) daily,
  window_sum-put today days_ago l.order_date (effective l.ordered) (days_of s c daily),
)

daily_from-window :
    (s c : Text) (today days_ago : ℕ) (items : List Line) (daily : Dict (Text × Text) (Dict ℕ ℕ))
    → window_sum today days_ago (days_of s c (daily_from items daily))
      ≡ lines_sum s c today days_ago items + window_sum today days_ago (days_of s c daily)
unfolding daily_from
daily_from-window s c today days_ago [] daily = omega arith
daily_from-window s c today days_ago (l ∷ items) daily = omega (
  arith,
  daily_from-window s c today days_ago items (add_line l daily),
  add_line-window s c today days_ago l daily,
)

-- A line of the sku and country that counts
abbrev pub is_sold : Text → Text → Line → Bool
is_sold s c l = is_of s c l && ltb 0 (effective l.ordered)

add_line-keys :
    (s c : Text) (l : Line) (daily : Dict (Text × Text) (Dict ℕ ℕ))
    → elem (s, c) (keys (add_line l daily)) ≡ (is_sold s c l || elem (s, c) (keys daily))
unfolding add_line
add_line-keys s c l daily = ground (
  arith,
  elem-keys-put (l.sku, l.country) (s, c)
      (put l.order_date
        (get_or l.order_date (get_or (l.sku, l.country) daily []) 0 + effective l.ordered)
        (get_or (l.sku, l.country) daily []))
      daily,
)

daily_from-keys :
    (s c : Text) (items : List Line) (daily : Dict (Text × Text) (Dict ℕ ℕ))
    → elem (s, c) (keys (daily_from items daily))
      ≡ (any (is_sold s c) items || elem (s, c) (keys daily))
unfolding daily_from
daily_from-keys s c [] daily = refl
daily_from-keys s c (l ∷ items) daily =
    ground (arith, daily_from-keys s c items (add_line l daily), add_line-keys s c l daily)

add_line-IsDistinct :
    (l : Line) (daily : Dict (Text × Text) (Dict ℕ ℕ))
    → IsDistinct (keys daily)
    → IsDistinct (keys (add_line l daily))
unfolding add_line
add_line-IsDistinct l daily d = elim (Bool-cases (effective l.ordered == 0)) [
  | inl e ↦ rw e d
  | inr e ↦ rw e (put-IsDistinct (l.sku, l.country) _ daily d)
]

daily_from-IsDistinct :
    (items : List Line) (daily : Dict (Text × Text) (Dict ℕ ℕ))
    → IsDistinct (keys daily)
    → IsDistinct (keys (daily_from items daily))
unfolding daily_from
daily_from-IsDistinct [] daily d = d
daily_from-IsDistinct (l ∷ items) daily d =
    daily_from-IsDistinct items (add_line l daily) (add_line-IsDistinct l daily d)

module _ (fl : Floats) (u : Unicode) (today : ℕ) where
  abbrev velocity_of : Dict ℕ ℕ → fl.Float
  velocity_of date_map =
      compute_velocity fl (window_sum today 7 date_map) (window_sum today 14 date_map)
        (window_sum today 30 date_map)

  velocities-at :
      (s c : Text) (daily : Dict (Text × Text) (Dict ℕ ℕ)) (result : BySku fl.Float)
      → IsDistinct (keys daily)
      → at s c (velocities fl u today daily result) ≡ (
          if elem (s, c) (keys daily) && is_reportable_country_code u (some c)
          then some (velocity_of (days_of s c daily))
          else at s c result)
  unfolding velocities
  velocities-at s c [] result d = refl
  velocities-at s c (((sku, country), date_map) ∷ daily) result d =
      let v = velocity_of date_map in
      let next =
        if not (is_reportable_country_code u (some country))
        then result
        else set_at sku country v result in
      ground (
        arith,
        velocities-at s c daily next d.1,
        at-write_at sku country s c (some v) result,
        pair_eq.same_iff (sku, country) (s, c),
        text_eq.same_iff sku s,
        text_eq.same_iff country c,
        d.0,
      )

  -- The velocity that the step gives a sku and country: it has one exactly if the country is
  -- reportable and some line of the two has a quantity above zero, and then it is the weighted
  -- average of what all the lines of the two sold in the last 7, 14 and 30 days before today.
  pub aggregate_velocity_from_items-at :
      (s c : Text) (items : List Line)
      → at s c (aggregate_velocity_from_items fl u today items) ≡ (
          if any (is_sold s c) items && is_reportable_country_code u (some c)
          then some (
              compute_velocity fl
                (lines_sum s c today 7 items)
                (lines_sum s c today 14 items)
                (lines_sum s c today 30 items))
          else none)
  unfolding aggregate_velocity_from_items
  aggregate_velocity_from_items-at s c items = ground (
    arith,
    velocities-at s c (daily_from items []) [] (daily_from-IsDistinct items [] tt),
    daily_from-keys s c items [],
    plain 7,
    plain 14,
    plain 30,
  )
    where
      plain :
          (days_ago : ℕ)
          → window_sum today days_ago (days_of s c (daily_from items []))
            ≡ lines_sum s c today days_ago items
      plain days_ago =
          unfold window_sum in omega (arith, daily_from-window s c today days_ago items [])
