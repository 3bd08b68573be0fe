-- ===== src/Engine/Tests.antt =====
-- Concrete runs of the engine, and its theorems at concrete inputs. Characters are those of ASCII, and
-- floats stand for whole numbers.
use restock_system.Common.Strings.{Unicode, parse_int, remove_char, strip, split, occurs_in}
use Prim.Native.String.{String}
use restock_system.Common.Floats.{Floats}
use restock_system.Common.{
  ◌==◌, ℕ, List, leb, Text, Option, codes, ◌&&◌, some, ◌∷◌, ◌||◌, [], none, ◌≡◌, if◌then◌else◌, ◌-◌,
  nat_eq, ◌/◌, refl, total, ◌≢◌, All, Dict, true, elem, ◌<◌, arith, text_eq,
}
use restock_system.Common.Int.{ℤ, pos, ◌+ℤ◌, ◌-ℤ◌, negsuc, ◌*ℤ◌, pos_part, ltb_ℤ, leb_ℤ, ◌≤ℤ◌}
use restock_system.Engine.Split.{
  CountryAllocationResult, explain_country_qty_split, mixed_known_unknown,
}
use restock_system.Engine.Zipcode.{
  Operator, ZipcodeRule, ValueType, match_warehouses, normalize_postal, hits, compare,
}
use restock_system.Engine.Velocity.{
  Line, aggregate_velocity_from_items, compute_velocity, is_in_window,
}
use restock_system.Engine.Context.{
  at, BySku, LocalStock, InventoryStock, local_total, fill_from, fill_countries, stock_total,
}
use restock_system.Engine.Context.Fill.{IsTable}
use restock_system.Engine.CountryQty.{compute_country_qty, country_qty_of}
use restock_system.Engine.SaleDays.{compute_sale_days, Oversea, sale_days_of}
use restock_system.Engine.Total.{safety_qty_of, compute_total}
use restock_system.Engine.Urgency.{compute_urgency_for_sku}
use restock_system.Engine.Allocate.{allocate_even, allocate_by_weights}
use restock_system.Engine.Split.Exact.{total-explain_country_qty_split}
use restock_system.Engine.Split.Returns.{explain_country_qty_split-total}
use restock_system.Engine.Fraction.{Fraction, ratio}
use restock_system.Engine.Allocate.ByWeights.{total-allocate_by_weights}
use restock_system.Engine.CountryQty.Lookup.{restock_qty, compute_country_qty-at}
use restock_system.Engine.SaleDays.Lookup.{days_left, compute_sale_days-at}
use restock_system.Engine.Zipcode.Winners.{wins, hit_here, match_warehouses_winners}
use restock_system.Engine.Total.Purchase.{compute_total-covers}
use restock_system.Engine.Urgency.Order.{compute_urgency_for_sku-any}
use restock_system.Core.Countries.{
  is_reportable_country_code, normalize_reportable_country_code, normalize_observed_country_code,
  is_valid_observed_country_code, is_two_letters, trimmed_upper, resolve_alias,
}
use restock_system.Engine.Velocity.Windows.{aggregate_velocity_from_items-at}

abbrev pub ascii : Unicode
ascii = record {
  is_space = λ c. c == b' ';
  is_alpha = λ c. (leb b'A' c && leb c b'Z') || (leb b'a' c && leb c b'z');
  upper = λ c. (if leb b'a' c && leb c b'z' then c - 32 else c) ∷ [];
  digit_value = λ c. if leb b'0' c && leb c b'9' then some (c - b'0') else none;
}

abbrev pub whole_floats : Floats
whole_floats = record {
  Float = ℤ;
  parse = parse_int ascii;
  truncate = λ x. some x;
  ceil = λ x. some x;
  floor = λ x. some x;
  of_int = λ x. x;
  add = λ a b. a +ℤ b;
  sub = λ a b. a -ℤ b;
  mul = λ a b. a *ℤ b;
  div = λ a b. pos (pos_part a / pos_part b);
  tenths = λ n. pos n;
  lt = ltb_ℤ;
  le = leb_ℤ;
}

abbrev rule_of : ℕ → Operator → String → String → ZipcodeRule
rule_of id operator value warehouse = record {
  id = id;
  country = codes "US";
  prefix_length = 2;
  value_type = ValueType.string;
  operator = operator;
  compare_value = codes value;
  warehouse_id = codes warehouse;
  priority = 1;
}

abbrev two_rules : List ZipcodeRule
two_rules = rule_of 1 Operator.eq "90" "west" ∷ rule_of 2 Operator.contains "9, 1" "east" ∷ []

abbrev warehouses : List Text
warehouses = codes "west" ∷ codes "east" ∷ codes "west" ∷ []

abbrev orders : List (Option Text × ℤ)
orders =
    (some (codes "90-210"), pos 3)
    ∷ (some (codes "1 0001"), pos 2)
    ∷ (none, pos 1)
    ∷ (none, negsuc 0)
    ∷ []

abbrev split_result : CountryAllocationResult
split_result = record {
  warehouse_breakdown = (codes "west", 3) ∷ (codes "east", 7) ∷ [];
  allocation_mode = mixed_known_unknown;
  matched_order_qty = 5;
  unknown_order_qty = 1;
  eligible_warehouses = codes "west" ∷ codes "east" ∷ [];
}

split_run :
    explain_country_qty_split ascii whole_floats (codes "US") (pos 10) orders two_rules warehouses
    ≡ some split_result
unfolding explain_country_qty_split match_warehouses normalize_postal remove_char strip hits compare
    split occurs_in allocate_even allocate_by_weights
split_run = refl

total-explain_country_qty_split_example : total split_result.warehouse_breakdown ≡ 10
total-explain_country_qty_split_example =
    total-explain_country_qty_split ascii whole_floats (codes "US") (pos 10) orders two_rules
      warehouses split_run

explain_country_qty_split-total_example :
    explain_country_qty_split ascii whole_floats (codes "US") (pos 10) orders two_rules warehouses
    ≢ none
explain_country_qty_split-total_example =
    explain_country_qty_split-total ascii whole_floats (codes "US") (pos 10) orders two_rules
      warehouses (refl, (refl, tt))

postal_run : normalize_postal ascii (some (codes "90-210")) ≡ codes "90210"
unfolding normalize_postal remove_char strip
postal_run = refl

postal-not_nil : normalize_postal ascii (some (codes "90-210")) ≢ []
postal-not_nil = rw postal_run (λ q. cc)

rules-hit :
    All
      (λ r. hits ascii whole_floats (normalize_postal ascii (some (codes "90-210"))) r ≡ some true)
      two_rules
unfolding hits normalize_postal remove_char strip compare split occurs_in
rules-hit = (refl, (refl, tt))

match_warehouses_winners_example :
    (winners : List Text) × (match_warehouses ascii whole_floats
        (some (codes "90-210"))
        (codes "US")
        two_rules
      ≡ some winners)
    × ((w : Text) → elem w winners ≡ wins (hit_here (codes "US") (λ r. true)) two_rules w)
match_warehouses_winners_example =
    match_warehouses_winners ascii whole_floats (some (codes "90-210")) (codes "US") two_rules
      (λ r. true) postal-not_nil rules-hit

abbrev weights : Dict Text Fraction
weights = (codes "west", ratio 3 2) ∷ (codes "east", ratio 7 2) ∷ []

total-allocate_by_weights_example : total (allocate_by_weights 8 weights) ≡ 8
total-allocate_by_weights_example =
    total-allocate_by_weights 8 weights (refl, (refl, tt)) (omega arith, (omega arith, tt))
      (omega arith)

abbrev lines : List Line
lines =
    record { sku = codes "S"; country = codes "US"; order_date = 99; ordered = some (pos 14) }
    ∷ record { sku = codes "S"; country = codes "US"; order_date = 90; ordered = some (negsuc 2) }
    ∷ record { sku = codes "S"; country = codes "ZZ"; order_date = 99; ordered = none }
    ∷ []

aggregate_velocity_from_items-at_example :
    at (codes "S") (codes "US") (aggregate_velocity_from_items whole_floats ascii 100 lines)
    ≡ some (compute_velocity whole_floats 14 14 14)
unfolding is_reportable_country_code normalize_reportable_country_code
    normalize_observed_country_code is_valid_observed_country_code is_two_letters trimmed_upper
    strip resolve_alias is_in_window
aggregate_velocity_from_items-at_example =
    aggregate_velocity_from_items-at whole_floats ascii 100 (codes "S") (codes "US") lines

abbrev stocks : BySku InventoryStock
stocks =
    (
      codes "S",
      (codes "US", record { available = pos 4; reserved = pos 1; in_transit = pos 5 }) ∷ [],
    )
    ∷ []

abbrev speeds : BySku ℤ
speeds = (codes "S", (codes "US", pos 2) ∷ (codes "GB", pos 3) ∷ []) ∷ []

speeds-IsTable : IsTable speeds
speeds-IsTable = ((refl, tt), ((refl, (refl, tt)), tt))

country_qty_run :
    compute_country_qty whole_floats ascii stocks (pos 30) speeds
    ≡ some ((codes "S", (codes "US", pos 50) ∷ []) ∷ [])
unfolding compute_country_qty fill_from fill_countries country_qty_of is_reportable_country_code
    normalize_reportable_country_code normalize_observed_country_code is_valid_observed_country_code
    is_two_letters trimmed_upper strip resolve_alias ◌-ℤ◌ ◌*ℤ◌ stock_total ◌+ℤ◌
country_qty_run = refl

compute_country_qty-at_example :
    at (codes "S") (codes "US") ((codes "S", (codes "US", pos 50) ∷ []) ∷ [])
    ≡ restock_qty whole_floats ascii stocks (pos 30) (codes "S") (codes "US") (some (pos 2))
compute_country_qty-at_example =
    compute_country_qty-at whole_floats ascii stocks (pos 30) (codes "S") (codes "US") speeds
      speeds-IsTable country_qty_run

sale_days_run :
    compute_sale_days whole_floats ascii stocks speeds
    ≡ some ((codes "S", (codes "US", pos 5) ∷ []) ∷ [])
unfolding compute_sale_days fill_from fill_countries sale_days_of is_reportable_country_code
    normalize_reportable_country_code normalize_observed_country_code is_valid_observed_country_code
    is_two_letters trimmed_upper strip resolve_alias stock_total ◌+ℤ◌
sale_days_run = refl

compute_sale_days-at_example :
    at (codes "S") (codes "US") ((codes "S", (codes "US", pos 5) ∷ []) ∷ [])
    ≡ days_left whole_floats ascii stocks (codes "S") (codes "US") (some (pos 2))
compute_sale_days-at_example =
    compute_sale_days-at whole_floats ascii stocks (codes "S") (codes "US") speeds speeds-IsTable
      sale_days_run

abbrev oversea : Dict (Text × Text) Oversea
oversea = ((codes "S", codes "US"), record { available = pos 4; reserved = pos 1 }) ∷ []

abbrev transit : Dict (Text × Text) ℤ
transit = ((codes "S", codes "US"), pos 5) ∷ ((codes "S", codes "GB"), pos 7) ∷ []

abbrev home_stock : LocalStock
home_stock = record { available = pos 6; reserved = pos 0 }

safety_run :
    safety_qty_of whole_floats ((codes "US", pos 2) ∷ (codes "GB", pos 3) ∷ []) (pos 15)
    ≡ some (pos 75)
unfolding safety_qty_of ◌*ℤ◌ ◌+ℤ◌
safety_run = refl

total_run :
    compute_total whole_floats
      ((codes "US", pos 50) ∷ [])
      ((codes "US", pos 2) ∷ (codes "GB", pos 3) ∷ [])
      (some home_stock)
      (pos 15)
    ≡ some 119
unfolding compute_total safety_qty_of ◌+ℤ◌ ◌-ℤ◌ local_total ◌*ℤ◌
total_run = refl

compute_total-covers_example :
    (pos 50 +ℤ pos 0 +ℤ pos 75 ≤ℤ pos 119 +ℤ pos 6)
    × (0 < 119 → pos 119 +ℤ pos 6 ≡ pos 50 +ℤ pos 0 +ℤ pos 75)
unfolding local_total ◌+ℤ◌
compute_total-covers_example =
    compute_total-covers whole_floats ((codes "US", pos 50) ∷ [])
      ((codes "US", pos 2) ∷ (codes "GB", pos 3) ∷ []) (some home_stock) (pos 15) (pos 75)
      safety_run total_run

compute_urgency_for_sku-any_example :
    compute_urgency_for_sku whole_floats
      ((codes "US", some (pos 5)) ∷ (codes "GB", none) ∷ [])
      ((codes "GB", pos 4) ∷ (codes "US", pos 50) ∷ [])
      (pos 50)
    ≡ true
compute_urgency_for_sku-any_example =
    compute_urgency_for_sku-any whole_floats ((codes "US", some (pos 5)) ∷ (codes "GB", none) ∷ [])
      ((codes "GB", pos 4) ∷ (codes "US", pos 50) ∷ []) (pos 50)
