-- ===== src/Engine/Velocity.antt =====
-- Step 1, the daily velocity per sku and country (backend/app/engine/step1_velocity.py). A date is its
-- number of days.
pub mod Windows
use restock_system.Common.Floats.{Floats}
use restock_system.Common.Strings.{Unicode}
use restock_system.Common.{
  pair_eq, ℕ, Text, Option, Dict, List, Bool, if◌then◌else◌, ◌∷◌, ◌-◌, ◌==◌, ◌+◌, not, [], some,
  leb, get_or, ◌&&◌, put, none, nat_eq,
}
use restock_system.Common.Int.{pos, ℤ, pos_part}
use restock_system.Engine.Context.{BySku, set_at}
use restock_system.Core.Countries.{is_reportable_country_code}

-- `day7_sum / 7 * 0.5 + day14_sum / 14 * 0.3 + day30_sum / 30 * 0.2`
unfoldable pub compute_velocity : (fl : Floats) → ℕ → ℕ → ℕ → fl.Float
compute_velocity fl day7_sum day14_sum day30_sum =
    fl.add
      (fl.add (fl.mul (fl.div (fl.of_int (pos day7_sum)) (fl.of_int (pos 7))) (fl.tenths 5))
        (fl.mul (fl.div (fl.of_int (pos day14_sum)) (fl.of_int (pos 14))) (fl.tenths 3)))
      (fl.mul (fl.div (fl.of_int (pos day30_sum)) (fl.of_int (pos 30))) (fl.tenths 2))

-- `earliest <= order_date <= yesterday`; the window is not empty and `today` lies behind it.
unfoldable pub is_in_window : ℕ → ℕ → ℕ → Bool
is_in_window order_date today days_ago =
    let yesterday = today - 1 in
    let earliest = yesterday - (days_ago - 1) in leb earliest order_date && leb order_date yesterday

-- An order line: sku, country, date and quantity, which may be None.
pub record Line : Type 0 where
  pub sku : Text
  pub country : Text
  pub order_date : ℕ
  pub ordered : Option ℤ

-- `max(int(ordered or 0), 0)`
abbrev pub effective : Option ℤ → ℕ
effective none = 0
effective (some n) = pos_part n

-- `daily[key][d] += eff`
abbrev pub add_at :
    Text × Text → ℕ → ℕ → Dict (Text × Text) (Dict ℕ ℕ) → Dict (Text × Text) (Dict ℕ ℕ)
add_at key d eff daily =
    let date_map = get_or key daily [] in put key (put d (get_or d date_map 0 + eff) date_map) daily

-- One line; a quantity that is not above zero is passed over.
unfoldable pub add_line : Line → Dict (Text × Text) (Dict ℕ ℕ) → Dict (Text × Text) (Dict ℕ ℕ)
add_line l daily =
    let eff = effective l.ordered in
    if eff == 0 then daily else add_at (l.sku, l.country) l.order_date eff daily

unfoldable pub daily_from :
    List Line → Dict (Text × Text) (Dict ℕ ℕ) → Dict (Text × Text) (Dict ℕ ℕ)
daily_from [] daily = daily
daily_from (l ∷ items) daily = daily_from items (add_line l daily)

-- `sum(qty for d, qty in date_map.items() if is_in_window(d, today, days_ago))`
unfoldable pub window_sum : ℕ → ℕ → Dict ℕ ℕ → ℕ
window_sum today days_ago [] = 0
window_sum today days_ago ((d, qty) ∷ date_map) =
    (if is_in_window d today days_ago then qty else 0) + window_sum today days_ago date_map

module _ (fl : Floats) (u : Unicode) (today : ℕ) where
  unfoldable pub velocities : Dict (Text × Text) (Dict ℕ ℕ) → BySku fl.Float → BySku fl.Float
  velocities [] result = result
  velocities (((sku, country), date_map) ∷ daily) result =
      let d7_sum = window_sum today 7 date_map in
      let d14_sum = window_sum today 14 date_map in
      let d30_sum = window_sum today 30 date_map in
      velocities daily (
        if not (is_reportable_country_code u (some country))
        then result
        else set_at sku country (compute_velocity fl d7_sum d14_sum d30_sum) result)

  unfoldable pub aggregate_velocity_from_items : List Line → BySku fl.Float
  aggregate_velocity_from_items items = velocities (daily_from items []) []
