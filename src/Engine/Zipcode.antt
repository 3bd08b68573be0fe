-- ===== src/Engine/Zipcode.antt =====
-- The matcher from postal codes to warehouses (backend/app/engine/zipcode_matcher.py).
-- An exception that the matcher lets through is `none`.
pub mod Failure
pub mod Rounds
pub mod Winners
use restock_system.Common.{
  ℕ, zero, suc, ◌≡◌, Bool, true, false, not, ◌&&◌, ◌||◌, Option, none, some, List, [], ◌∷◌, ◌++◌,
  map, ltb, leb, if◌then◌else◌, ◌>>=◌, ◌>>◌, ◌==◌, nat_eq, text_eq, Text, length, is_nil, take,
  keep_if, any, all, elem, sorted,
}
use restock_system.Common.Int.{ℤ, leb_ℤ, ltb_ℤ}
use restock_system.Common.Floats.{Floats}
use restock_system.Common.Strings.{
  Unicode, strip, remove_char, split, split_once, occurs_in, parse_int,
}

-- The operators that `_OPERATORS` lists; any other text is `unknown`.
pub data Operator : Type 0 where
  eq ne gt ge lt le contains not_contains between unknown : Operator

pub data ValueType : Type 0 where
  number string : ValueType

pub record ZipcodeRule : Type 0 where
  pub id : ℕ
  pub country : Text
  pub prefix_length : ℕ
  pub value_type : ValueType
  pub operator : Operator
  pub compare_value : Text
  pub warehouse_id : Text
  pub priority : ℕ

-- The variables of the loop of `match_warehouses`. `seen` has the members of `winners`.
pub record Scan : Type 0 where
  pub winners : List Text
  pub seen : List Text
  pub winning_priority : Option ℕ

-- `break`: the priority is past that of the first rule that hit
unfoldable pub past : Option ℕ → ℕ → Bool
past none priority = false
past (some p) priority = ltb p priority

unfoldable pub record_hit : ZipcodeRule → Scan → Scan
record_hit rule s =
    let first : Option ℕ = elim s.winning_priority [
      | none ↦ some rule.priority
      | some p ↦ some p
    ] in
    if elem rule.warehouse_id s.seen then record s { winning_priority = first } else record {
      winners = s.winners ++ rule.warehouse_id ∷ [];
      seen = rule.warehouse_id ∷ s.seen;
      winning_priority = first;
    }

-- The body of the loop, for a rule that hits or does not.
unfoldable pub visit : Bool → ZipcodeRule → Scan → Scan
unfolding record_hit
visit true rule s = record_hit rule s
visit false rule s = s

-- `sorted(..., key=(priority, id))`
abbrev pub rule_le : ZipcodeRule → ZipcodeRule → Bool
rule_le a b = ltb a.priority b.priority || (a.priority == b.priority && leb a.id b.id)

module _ (u : Unicode) where
  unfoldable pub normalize_postal : Option Text → Text
  normalize_postal none = []
  normalize_postal (some code) = remove_char b' ' (remove_char b'-' (strip u code))

  split_compare_values : Text → List Text
  split_compare_values raw = keep_if (λ item. not (is_nil item)) (map (strip u) (split b',' raw))

  -- The chunks of a `between`, up to the first that is malformed or holds the number.
  between_chunks : ℤ → List Text → Bool
  between_chunks left [] = false
  between_chunks left (chunk ∷ chunks) =
      let piece = strip u chunk in
      let rest = between_chunks left chunks in
      if is_nil piece then rest else elim (split_once b'-' piece) [
        | none ↦ false
        | some (first, second) ↦ elim (parse_int u first) [
          | none ↦ false
          | some lo ↦ elim (parse_int u second) [
            | none ↦ false
            | some hi ↦
                if ltb_ℤ hi lo then false else if leb_ℤ lo left && leb_ℤ left hi then true else rest
          ]
        ]
      ]

  compare_between : Text → Text → Bool
  unfolding between_chunks
  compare_between left right = elim (parse_int u left) [
    | none ↦ false
    | some left_int ↦ between_chunks left_int (split b',' right)
  ]

  -- `compare_values` is empty where the rule names no token.
  compare_string : Text → Operator → Text → Bool
  unfolding split_compare_values
  compare_string left Operator.eq right = left == right
  compare_string left Operator.ne right = not (left == right)
  compare_string left Operator.contains right =
      let compare_values = split_compare_values right in
      not (is_nil compare_values) && any (λ token. occurs_in token left) compare_values
  compare_string left Operator.not_contains right =
      let compare_values = split_compare_values right in
      not (is_nil compare_values) && all (λ token. not (occurs_in token left)) compare_values
  compare_string left _ right = false

  module _ (f : Floats) where
    -- `int(...)` raises at an infinity and at what is not a number, outside of the `try`.
    equal_integers : f.Float → f.Float → Option Bool
    equal_integers left_num right_num = do
      a ← f.truncate left_num
      b ← f.truncate right_num
      some (leb_ℤ a b && leb_ℤ b a)

    pub compare_number : f.Float → Operator → f.Float → Option Bool
    unfolding equal_integers
    compare_number left_num Operator.eq right_num = equal_integers left_num right_num
    compare_number left_num Operator.ne right_num = do
      same ← equal_integers left_num right_num
      some (not same)
    compare_number left_num Operator.gt right_num = some (f.lt right_num left_num)
    compare_number left_num Operator.ge right_num = some (f.le right_num left_num)
    compare_number left_num Operator.lt right_num = some (f.lt left_num right_num)
    compare_number left_num Operator.le right_num = some (f.le left_num right_num)
    compare_number left_num _ right_num = some false

    pub compare_numbers : Text → Operator → Text → Option Bool
    unfolding compare_number
    compare_numbers left operator right = elim (f.parse left) [
      | none ↦ some false
      | some left_num ↦ elim (f.parse right) [
        | none ↦ some false
        | some right_num ↦ compare_number left_num operator right_num
      ]
    ]

    -- `_compare`
    unfoldable pub compare : Text → Operator → Text → ValueType → Option Bool
    unfolding compare_between compare_numbers compare_string
    compare left Operator.unknown right value_type = some false
    compare left Operator.between right value_type = some (compare_between left right)
    compare left operator right ValueType.number = compare_numbers left operator right
    compare left operator right ValueType.string = some (compare_string left operator right)

    -- Does the rule hit: its prefix is complete, and compares as the rule asks.
    unfoldable pub hits : Text → ZipcodeRule → Option Bool
    hits normalized rule =
        let prefix = take rule.prefix_length normalized in
        if is_nil prefix || ltb (length prefix) rule.prefix_length
        then some false
        else compare prefix rule.operator rule.compare_value rule.value_type

    unfoldable pub scan : Text → List ZipcodeRule → Scan → Option Scan
    scan normalized [] s = some s
    scan normalized (rule ∷ rules) s = elim (past s.winning_priority rule.priority) [
      | true ↦ some s
      | false ↦ hits normalized rule >>= λ hit. scan normalized rules (visit hit rule s)
    ]

    unfoldable pub match_warehouses : Option Text → Text → List ZipcodeRule → Option (List Text)
    unfolding scan past visit
    match_warehouses postal_code country rules =
        let normalized = normalize_postal postal_code in
        let country_rules = sorted rule_le (keep_if (λ r. r.country == country) rules) in
        if is_nil normalized then some [] else do
          s ←
              scan normalized country_rules
                (record { winners = []; seen = []; winning_priority = none })
          some s.winners
