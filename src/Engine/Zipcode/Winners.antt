-- ===== src/Engine/Zipcode/Winners.antt =====
-- Which warehouses the matcher returns.
use restock_system.Common.{
  List, sorted, Bool, ◌∷◌, All, ℕ, ◌≡◌, ◌≤◌, Bool-cases, not, true, ◌||◌, arith, leb, [], inl,
  All-map_to, refl, inr, Text, elem, some, ◌<◌, ◌==◌, any, text_eq, ◌&&◌, false, ltb, Option, ◌∙◌,
  none, any-congr, ◌≢◌, keep_if, all-sorted, any-sorted, is_nil, all-keep_if, any-keep_if,
  sorted-All, all-congr, keep_if-All, is_nil-of_ne,
}
use restock_system.Engine.Zipcode.{
  ZipcodeRule, rule_le, Scan, record_hit, scan, hits, past, visit, match_warehouses,
  normalize_postal,
}
use restock_system.Common.Strings.{Unicode}
use restock_system.Common.Floats.{Floats}
use restock_system.Engine.Zipcode.Rounds.{
  SameMembers, is_best, sorted-IsOrdered, IsOrdered, past-some, visit-SameMembers, none-past,
  elem-visit, priority-visit, is_best-cons,
}

module _ (u : Unicode) (f : Floats) (normalized : Text) (hit : ZipcodeRule → Bool) where
  scan_stop :
      (r : ZipcodeRule) (rules : List ZipcodeRule) (s : Scan)
      → past s.winning_priority r.priority ≡ true
      → scan u f normalized (r ∷ rules) s ≡ some s
  scan_stop r rules s e = unfold scan in ground arith

  scan_go :
      (r : ZipcodeRule) (rules : List ZipcodeRule) (s : Scan)
      → past s.winning_priority r.priority ≡ false
      → hits u f normalized r ≡ some (hit r)
      → scan u f normalized (r ∷ rules) s ≡ scan u f normalized rules (visit (hit r) r s)
  scan_go r rules s e h = unfold scan in ground arith

  -- Behind the first hit, at priority `p`: every rule of that priority that hits adds its warehouse.
  scan_rest :
      (p : ℕ) (rules : List ZipcodeRule) (s : Scan)
      → s.winning_priority ≡ some p
      → SameMembers s
      → IsOrdered rules
      → All (λ r. hits u f normalized r ≡ some (hit r)) rules
      → (s' : Scan) × (scan u f normalized rules s ≡ some s')
        × ((w : Text)
            → elem w s'.winners ≡ (
                elem w s.winners
                || any (λ r. hit r && leb r.priority p && r.warehouse_id == w) rules))
  scan_rest p [] s e m o h = (s, unfold scan in refl, λ w. ground arith)
  scan_rest p (r ∷ rules) s e m o h = elim (Bool-cases (ltb p r.priority)) [
    | inl beyond ↦
        let stop : past s.winning_priority r.priority ≡ true =
          past-some s.winning_priority p r.priority e ∙ beyond in
        (
          s,
          scan_stop r rules s stop,
          λ w. ground (
            arith,
            none-past hit p w rules (
                All-map_to (λ x. r.priority ≤ x.priority) (λ x. p < x.priority) rules
                  (λ x le. ground arith) o.0),
          ),
        )
    | inr within ↦
        let go : past s.winning_priority r.priority ≡ false =
          past-some s.winning_priority p r.priority e ∙ within in
        let next : Scan = visit (hit r) r s in
        let (s', run, members) =
          scan_rest p rules next (priority-visit (hit r) r s p e) (visit-SameMembers (hit r) r s m)
            o.1 h.1 in
        (
          s',
          scan_go r rules s go h.0 ∙ run,
          λ w. ground (arith, members w, elem-visit (hit r) r s w m),
        )
  ]

  -- Before the first hit.
  scan_first :
      (rules : List ZipcodeRule) (s : Scan)
      → s.winning_priority ≡ none
      → SameMembers s
      → IsOrdered rules
      → All (λ r. hits u f normalized r ≡ some (hit r)) rules
      → (s' : Scan) × (scan u f normalized rules s ≡ some s')
        × ((w : Text)
            → elem w s'.winners ≡ (
                elem w s.winners
                || any (λ r. hit r && is_best hit rules r && r.warehouse_id == w) rules))
  scan_first [] s e m o h = (s, unfold scan in refl, λ w. ground arith)
  scan_first (r ∷ rules) s e m o h =
      let go : past s.winning_priority r.priority ≡ false = unfold past in ground arith in
      elim (Bool-cases (hit r)) [
        | inl yes_hit ↦
            let next : Scan = visit (hit r) r s in
            let at : next.winning_priority ≡ some r.priority =
              unfold visit record_hit in ground arith in
            let (s', run, members) =
              scan_rest r.priority rules next at (visit-SameMembers (hit r) r s m) o.1 h.1 in
            (
              s',
              scan_go r rules s go h.0 ∙ run,
              λ w. ground (
                arith,
                members w,
                elem-visit (hit r) r s w m,
                is_best-cons hit r r rules yes_hit o.0,
                any-congr (λ x. hit x && is_best hit (r ∷ rules) x && x.warehouse_id == w)
                    (λ x. hit x && leb x.priority r.priority && x.warehouse_id == w) rules
                    (λ x. rw (is_best-cons hit x r rules yes_hit o.0) refl),
              ),
            )
        | inr no_hit ↦
            let next : Scan = visit (hit r) r s in
            let same : next ≡ s = unfold visit in rw no_hit refl in
            let (s', run, members) = scan_first rules s e m o.1 h.1 in
            (
              s',
              scan_go r rules s go h.0 ∙ rw same run,
              λ w. ground (
                arith,
                members w,
                any-congr (λ x. hit x && is_best hit (r ∷ rules) x && x.warehouse_id == w)
                    (λ x. hit x && is_best hit rules x && x.warehouse_id == w) rules
                    (λ x. ground arith),
              ),
            )
      ]

-- Some rule of the list hits for the warehouse, and none that hits has a lower priority number.
abbrev pub wins : (ZipcodeRule → Bool) → List ZipcodeRule → Text → Bool
wins hit rules w = any (λ r. hit r && is_best hit rules r && r.warehouse_id == w) rules

-- The rule is the country's, and hits.
abbrev pub hit_here : Text → (ZipcodeRule → Bool) → ZipcodeRule → Bool
hit_here country hit r = r.country == country && hit r

module _ (country : Text) (hit : ZipcodeRule → Bool) (rules : List ZipcodeRule) where
  abbrev selected : List ZipcodeRule
  selected = sorted rule_le (keep_if (λ r. r.country == country) rules)

  is_best-selected :
      (r : ZipcodeRule) → is_best hit selected r ≡ is_best (hit_here country hit) rules r
  is_best-selected r =
      all-sorted rule_le (λ x. not (hit x) || leb r.priority x.priority)
        (keep_if (λ x. x.country == country) rules)
      ∙ all-keep_if (λ x. not (hit x) || leb r.priority x.priority) (λ x. x.country == country)
          rules
      ∙ all-congr (λ x. not (x.country == country) || (not (hit x) || leb r.priority x.priority))
          (λ x. not (hit_here country hit x) || leb r.priority x.priority) rules (λ x. ground arith)

  wins-selected : (w : Text) → wins hit selected w ≡ wins (hit_here country hit) rules w
  wins-selected w =
      let here = λ (r : ZipcodeRule). r.country == country in
      let won = λ (r : ZipcodeRule). hit r && is_best hit selected r && r.warehouse_id == w in
      any-sorted rule_le won (keep_if here rules)
      ∙ any-keep_if won here rules
      ∙ any-congr (λ r. here r && won r)
          (λ r.
            hit_here country hit r && is_best (hit_here country hit) rules r && r.warehouse_id == w)
          rules (λ r. ground (arith, is_best-selected r))

module _ (u : Unicode) (f : Floats) where
  match_warehouses_run :
      (postal_code : Option Text) (country : Text) (rules : List ZipcodeRule) (s : Scan)
      → is_nil (normalize_postal u postal_code) ≡ false
      → scan u f
          (normalize_postal u postal_code)
          (sorted rule_le (keep_if (λ r. r.country == country) rules))
          (record { winners = []; seen = []; winning_priority = none })
        ≡ some s
      → match_warehouses u f postal_code country rules ≡ some s.winners
  match_warehouses_run postal_code country rules s e run =
      unfold match_warehouses in rw (e, run) refl

  -- For a postal code of which something is left, where the comparison with each rule returns: the
  -- matcher returns, and a warehouse is among its winners exactly if a rule of the country hits for
  -- it and no rule of the country that hits has a lower priority number.
  pub match_warehouses_winners :
      (postal_code : Option Text) (country : Text) (rules : List ZipcodeRule)
      (hit : ZipcodeRule → Bool)
      → normalize_postal u postal_code ≢ []
      → All (λ r. hits u f (normalize_postal u postal_code) r ≡ some (hit r)) rules
      → (winners : List Text) × (match_warehouses u f postal_code country rules ≡ some winners)
        × ((w : Text) → elem w winners ≡ wins (hit_here country hit) rules w)
  match_warehouses_winners postal_code country rules hit n h =
      let normalized = normalize_postal u postal_code in
      let here = keep_if (λ (r : ZipcodeRule). r.country == country) rules in
      let start : Scan = record { winners = []; seen = []; winning_priority = none } in
      let (s, run, members) =
        scan_first u f normalized hit (sorted rule_le here) start refl (λ w. refl)
          (sorted-IsOrdered here)
          (sorted-All rule_le (λ r. hits u f normalized r ≡ some (hit r)) here
            (keep_if-All (λ r. hits u f normalized r ≡ some (hit r)) (λ r. r.country == country)
              rules h)) in
      (
        s.winners,
        match_warehouses_run postal_code country rules s (is_nil-of_ne normalized n) run,
        λ w. members w ∙ wins-selected country hit rules w,
      )
