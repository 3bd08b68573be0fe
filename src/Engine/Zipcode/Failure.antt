-- ===== src/Engine/Zipcode/Failure.antt =====
-- Where the matcher raises: only a rule that compares integers can.
use restock_system.Engine.Zipcode.{
  ValueType, Operator, ZipcodeRule, compare_numbers, compare, hits, scan, compare_number, Scan,
  past, visit, match_warehouses, normalize_postal, rule_le,
}
use restock_system.Common.Strings.{Unicode}
use restock_system.Common.{
  Bool, true, ◌&&◌, false, Text, ◌≡◌, List, ◌≢◌, none, All, Option-cases, take, ◌∷◌, Bool-cases,
  inl, is_nil, inr, ◌||◌, ltb, [], length, Option, keep_if, ◌==◌, All-map_to, sorted, sorted-All,
  keep_if-All, text_eq,
}
use restock_system.Common.Floats.{Floats}

abbrev pub is_number : ValueType → Bool
is_number ValueType.number = true
is_number ValueType.string = false

abbrev pub is_equation : Operator → Bool
is_equation Operator.eq = true
is_equation Operator.ne = true
is_equation _ = false

-- A rule on numbers whose operator is `=` or `!=`
abbrev pub compares_integers : ZipcodeRule → Bool
compares_integers r = is_number r.value_type && is_equation r.operator

module _ (u : Unicode) (f : Floats) where
  compare_numbers-total :
      (left : Text) (o : Operator) (right : Text)
      → is_equation o ≡ false
      → compare_numbers u f left o right ≢ none
  unfolding compare_numbers compare_number
  compare_numbers-total left o right h = elim (Option-cases (f.parse left)) [
    | inl e ↦ rw (e, compare_numbers) (λ q. cc)
    | inr (x, e) ↦ elim (Option-cases (f.parse right)) [
      | inl e' ↦ rw (e, e', compare_numbers) (λ q. cc)
      | inr (y, e') ↦ rw (e, e', compare_numbers) (number x o y h)
    ]
  ]
    where
      number :
          (x : f.Float) (o : Operator) (y : f.Float)
          → is_equation o ≡ false
          → compare_number u f x o y ≢ none
      number x Operator.eq y h = λ q. cc
      number x Operator.ne y h = λ q. cc
      number x _ y h = λ q. cc

  compare-total :
      (left : Text) (o : Operator) (right : Text) (v : ValueType)
      → (is_number v && is_equation o) ≡ false
      → compare u f left o right v ≢ none
  unfolding compare
  compare-total left Operator.unknown right v h = λ q. cc
  compare-total left Operator.between right v h = λ q. cc
  compare-total left o right ValueType.number h = compare_numbers-total left o right h
  compare-total left o right ValueType.string h = λ q. cc

  hits-total :
      (normalized : Text) (r : ZipcodeRule)
      → compares_integers r ≡ false
      → hits u f normalized r ≢ none
  unfolding hits
  hits-total normalized r h =
      let prefix = take r.prefix_length normalized in
      let ok = compare-total prefix r.operator r.compare_value r.value_type h in
      elim (Bool-cases (is_nil prefix || ltb (length prefix) r.prefix_length)) [
        | inl e ↦ rw e (λ q. cc)
        | inr e ↦ rw e ok
      ]

  scan-total :
      (normalized : Text) (rules : List ZipcodeRule) (s : Scan)
      → All (λ r. hits u f normalized r ≢ none) rules
      → scan u f normalized rules s ≢ none
  unfolding scan
  scan-total normalized [] s a = λ q. cc
  scan-total normalized (rule ∷ rules) s a =
      elim (Bool-cases (past s.winning_priority rule.priority)) [
        | inl e ↦ rw (e, scan) (λ q. cc)
        | inr e ↦ elim (Option-cases (hits u f normalized rule)) [
          | inl bad ↦ absurd (a.0 bad)
          | inr (hit, found) ↦
              rw (e, found, scan) (scan-total normalized rules (visit hit rule s) a.1)
        ]
      ]

  -- Without a rule on numbers that asks for `=` or `!=`, the matcher returns for every postal code.
  pub match_warehouses-total :
      (postal_code : Option Text) (country : Text) (rules : List ZipcodeRule)
      → All (λ r. compares_integers r ≡ false) rules
      → match_warehouses u f postal_code country rules ≢ none
  unfolding match_warehouses
  match_warehouses-total postal_code country rules a =
      let normalized = normalize_postal u postal_code in
      let here = keep_if (λ (r : ZipcodeRule). r.country == country) rules in
      let start : Scan = record { winners = []; seen = []; winning_priority = none } in
      let fine = All-map_to _ _ rules (λ r. hits-total normalized r) a in
      let run =
        scan-total normalized (sorted rule_le here) start
          (sorted-All rule_le _ here (keep_if-All _ (λ r. r.country == country) rules fine)) in
      elim (Option-cases (scan u f normalized (sorted rule_le here) start)) [
        | inl bad ↦ absurd (run bad)
        | inr (s, e) ↦ elim (Bool-cases (is_nil normalized)) [
          | inl empty ↦ rw (empty, match_warehouses) (λ q. cc)
          | inr full ↦ rw (full, e, match_warehouses) (λ q. cc)
        ]
      ]
