-- ===== src/Engine/Split.antt =====
-- The split of a country's quantity over its warehouses, with its explanation (backend/app/engine/step5_warehouse_split.py).
-- An exception of the matcher is `none`.
mod Orders
mod Known
pub mod Exact
pub mod Returns
use restock_system.Common.{
  Dict, [], ℕ, Bool, ◌≡◌, Eq, Text, List, true, if◌then◌else◌, false, ◌↔◌, ◌∷◌, put, is_nil, arith,
  get, get_or, Option, ◌+◌, positive, some, from_keys, values, length, ltb, ◌>>=◌, keep_if, elem,
  text_eq, none, inl,
}
use restock_system.Engine.Fraction.{Fraction, whole, is_positive, ◌+F◌, sum_fractions, ratio}
use restock_system.Common.Strings.{Unicode}
use restock_system.Common.Floats.{Floats}
use restock_system.Engine.Allocate.{allocate_by_weights, allocate_even}
use restock_system.Engine.Zipcode.{ZipcodeRule, match_warehouses}
use restock_system.Common.Int.{ℤ, leb_ℤ, pos, pos_part}

pub data AllocationMode : Type 0 where
  zero_qty matched mixed_known_unknown no_warehouse fallback_even : AllocationMode

pub record CountryAllocationResult : Type 0 where
  pub warehouse_breakdown : Dict Text ℕ
  pub allocation_mode : AllocationMode
  pub matched_order_qty : ℕ
  pub unknown_order_qty : ℕ
  pub eligible_warehouses : List Text

-- The variables of the loop over the orders.
pub record Tally : Type 0 where
  pub known_counts : Dict Text Fraction
  pub matched : ℕ
  pub unknown : ℕ

abbrev pub no_orders : Tally
no_orders = record { known_counts = []; matched = 0; unknown = 0 }

-- `known_counts[wid] += share` for each of the winners
pub add_shares : Fraction → List Text → Dict Text Fraction → Dict Text Fraction
add_shares share [] counts = counts
add_shares share (wid ∷ winners) counts =
    add_shares share winners (put wid (get_or wid counts (whole 0) +F share) counts)

-- One order of `qty` pieces, which are above zero, with the winners of its postal code.
pub count_order : ℕ → List Text → Tally → Tally
unfolding add_shares
count_order qty eligible_winners t =
    if is_nil eligible_winners then record t { unknown = t.unknown + qty } else record t {
      known_counts =
          add_shares (ratio qty (length eligible_winners)) eligible_winners t.known_counts;
      matched = t.matched + qty;
    }

-- The buckets "known" and "unknown" of the quantity.
pub data Bucket : Type 0 where
  known unknown : Bucket

abbrev pub bucket_beq : Bucket → Bucket → Bool
bucket_beq known known = true
bucket_beq unknown unknown = true
bucket_beq _ _ = false

pub bucket_beq_iff : (a b : Bucket) → (bucket_beq a b ≡ true) ↔ (a ≡ b)
bucket_beq_iff a b = ground arith

instance abbrev pub bucket_eq : Eq Bucket
bucket_eq = record { same = bucket_beq; same_iff = bucket_beq_iff }

abbrev pub buckets : Tally → Dict Bucket Fraction
buckets t = (known, whole t.matched) ∷ (unknown, whole t.unknown) ∷ []

-- `[(wid, known_counts[wid]) for wid in eligible_warehouses if wid in known_counts]`
pub ordered_counts : Dict Text Fraction → List Text → Dict Text Fraction
ordered_counts counts [] = []
ordered_counts counts (wid ∷ eligible) =
    let rest = ordered_counts counts eligible in
    elim (get wid counts) [ some weight ↦ (wid, weight) ∷ rest | none ↦ rest ]

-- `result[wid] = result.get(wid, 0) + qty` for each of the second
pub merge_shares : Dict Text ℕ → Dict Text ℕ → Dict Text ℕ
merge_shares result [] = result
merge_shares result ((wid, qty) ∷ shares) =
    merge_shares (put wid (get_or wid result 0 + qty) result) shares

-- The warehouses' shares where some order is known.
pub split_known : ℕ → Tally → List Text → Dict Text ℕ
unfolding ordered_counts merge_shares
split_known country_qty t eligible =
    let bucket_allocations = allocate_by_weights country_qty (buckets t) in
    let known_qty = get_or known bucket_allocations 0 in
    let unknown_qty = get_or unknown bucket_allocations 0 in
    let result = allocate_by_weights known_qty (ordered_counts t.known_counts eligible) in
    positive (merge_shares result (allocate_even unknown_qty eligible))

-- The part of `explain_country_qty_split` behind its loop, for a quantity above zero.
pub explain_tally : ℕ → Tally → List Text → CountryAllocationResult
unfolding split_known
explain_tally country_qty t eligible =
    if is_positive (sum_fractions (values t.known_counts))
    then record {
      warehouse_breakdown = split_known country_qty t eligible;
      allocation_mode = if ltb 0 t.unknown then mixed_known_unknown else matched;
      matched_order_qty = t.matched;
      unknown_order_qty = t.unknown;
      eligible_warehouses = eligible;
    }
    else if is_nil eligible
    then record {
      warehouse_breakdown = [];
      allocation_mode = no_warehouse;
      matched_order_qty = 0;
      unknown_order_qty = t.unknown;
      eligible_warehouses = [];
    }
    else record {
      warehouse_breakdown = positive (allocate_even country_qty eligible);
      allocation_mode = fallback_even;
      matched_order_qty = 0;
      unknown_order_qty = t.unknown;
      eligible_warehouses = eligible;
    }

module _ (u : Unicode) (f : Floats) (country : Text) (rules : List ZipcodeRule)
    (eligible : List Text) where
  pub visit_order : Option Text → ℤ → Tally → Option Tally
  unfolding count_order
  visit_order postal_code qty t = if leb_ℤ qty (pos 0) then some t else do
    winners ← match_warehouses u f postal_code country rules
    some (count_order (pos_part qty) (keep_if (λ w. elem w eligible) winners) t)

  pub tally_orders : List (Option Text × ℤ) → Tally → Option Tally
  unfolding visit_order
  tally_orders [] t = some t
  tally_orders ((postal_code, qty) ∷ orders) t =
      visit_order postal_code qty t >>= λ t'. tally_orders orders t'

module _ (u : Unicode) (f : Floats) where
  unfoldable pub explain_country_qty_split :
      (country : Text) (country_qty : ℤ) (orders : List (Option Text × ℤ))
      (rules : List ZipcodeRule) (country_warehouses : List Text)
      → Option CountryAllocationResult
  unfolding tally_orders explain_tally
  explain_country_qty_split country country_qty orders rules country_warehouses =
      let eligible = from_keys country_warehouses in
      if leb_ℤ country_qty (pos 0)
      then some (record {
        warehouse_breakdown = [];
        allocation_mode = zero_qty;
        matched_order_qty = 0;
        unknown_order_qty = 0;
        eligible_warehouses = eligible;
      })
      else do
        t ← tally_orders u f country rules eligible orders no_orders
        some (explain_tally (pos_part country_qty) t eligible)

  unfoldable pub split_country_qty :
      (country : Text) (country_qty : ℤ) (orders : List (Option Text × ℤ))
      (rules : List ZipcodeRule) (country_warehouses : List Text)
      → Option (Dict Text ℕ)
  split_country_qty country country_qty orders rules country_warehouses = do
    result ← explain_country_qty_split country country_qty orders rules country_warehouses
    some result.warehouse_breakdown
