-- ===== src/Engine/Zipcode/Rounds.antt =====
-- The order of the rules, and what one round of the matcher's loop does to its variables.
use restock_system.Common.{
  List, insert, sorted, Bool, ◌∷◌, All, all, ℕ, ◌≡◌, ◌≤◌, Bool-cases, not, true, ◌||◌, arith, leb,
  [], inl, All-map_to, refl, inr, insert-All, Text, elem, elem-append, some, ◌<◌, ◌==◌, any,
  text_eq, ◌&&◌, false, ltb, Option,
}
use restock_system.Engine.Zipcode.{ZipcodeRule, rule_le, Scan, record_hit, past, visit}

-- The rules in the order of their priorities.
abbrev pub IsOrdered : List ZipcodeRule → Type 0
IsOrdered [] = Unit
IsOrdered (r ∷ rules) = All (λ x. r.priority ≤ x.priority) rules × IsOrdered rules

pub insert-IsOrdered :
    (r : ZipcodeRule) (rules : List ZipcodeRule)
    → IsOrdered rules
    → IsOrdered (insert rule_le r rules)
insert-IsOrdered r [] h = (tt, tt)
insert-IsOrdered r (x ∷ rules) h = elim (Bool-cases (rule_le r x)) [
  | inl before ↦
      let first : r.priority ≤ x.priority = ground arith in
      rw before (
        (
          first,
          All-map_to (λ y. x.priority ≤ y.priority) (λ y. r.priority ≤ y.priority) rules
              (λ y le. omega arith) h.0,
        ),
        h,
      )
  | inr after ↦
      let first : x.priority ≤ r.priority = ground arith in
      rw after (
        insert-All rule_le (λ y. x.priority ≤ y.priority) r rules first h.0,
        insert-IsOrdered r rules h.1,
      )
]

pub sorted-IsOrdered : (rules : List ZipcodeRule) → IsOrdered (sorted rule_le rules)
sorted-IsOrdered [] = tt
sorted-IsOrdered (r ∷ rules) = insert-IsOrdered r (sorted rule_le rules) (sorted-IsOrdered rules)

module _ (hit : ZipcodeRule → Bool) where
  -- No rule of the list that hits has a lower priority number.
  abbrev pub is_best : List ZipcodeRule → ZipcodeRule → Bool
  is_best rules r = all (λ x. not (hit x) || leb r.priority x.priority) rules

  pub is_best-of_le :
      (r : ZipcodeRule) (p : ℕ) (rules : List ZipcodeRule)
      → r.priority ≤ p
      → All (λ x. p ≤ x.priority) rules
      → is_best rules r ≡ true
  is_best-of_le r p [] le h = refl
  is_best-of_le r p (x ∷ rules) le h = ground (arith, is_best-of_le r p rules le h.1, h.0)

  -- With a rule that hits in front, the best are those of its priority.
  pub is_best-cons :
      (r x : ZipcodeRule) (rules : List ZipcodeRule)
      → hit x ≡ true
      → All (λ y. x.priority ≤ y.priority) rules
      → is_best (x ∷ rules) r ≡ leb r.priority x.priority
  is_best-cons r x rules h le = elim (Bool-cases (leb r.priority x.priority)) [
    | inl yes_le ↦ ground (arith, is_best-of_le r x.priority rules (ground arith) le)
    | inr not_le ↦ ground arith
  ]

-- `seen` and `winners` hold the same warehouses.
abbrev pub SameMembers : Scan → Type 0
SameMembers s = (w : Text) → elem w s.seen ≡ elem w s.winners

pub elem-record_hit :
    (r : ZipcodeRule) (s : Scan) (w : Text)
    → SameMembers s
    → elem w (record_hit r s).winners ≡ (elem w s.winners || r.warehouse_id == w)
unfolding record_hit
elem-record_hit r s w m = ground (
  arith,
  elem-append w s.winners (r.warehouse_id ∷ []),
  m r.warehouse_id,
  text_eq.same_iff r.warehouse_id w,
)

pub record_hit-SameMembers :
    (r : ZipcodeRule) (s : Scan) → SameMembers s → SameMembers (record_hit r s)
unfolding record_hit
record_hit-SameMembers r s m w = ground (arith, elem-append w s.winners (r.warehouse_id ∷ []), m w)

pub elem-visit :
    (b : Bool) (r : ZipcodeRule) (s : Scan) (w : Text)
    → SameMembers s
    → elem w (visit b r s).winners ≡ (elem w s.winners || (b && r.warehouse_id == w))
elem-visit true r s w m = unfold visit in elem-record_hit r s w m
elem-visit false r s w m = unfold visit in ground arith

pub visit-SameMembers :
    (b : Bool) (r : ZipcodeRule) (s : Scan) → SameMembers s → SameMembers (visit b r s)
visit-SameMembers true r s m = unfold visit in record_hit-SameMembers r s m
visit-SameMembers false r s m = unfold visit in m

pub priority-visit :
    (b : Bool) (r : ZipcodeRule) (s : Scan) (p : ℕ)
    → s.winning_priority ≡ some p
    → (visit b r s).winning_priority ≡ some p
unfolding visit
priority-visit true r s p e = ground arith
priority-visit false r s p e = e

pub past-some : (o : Option ℕ) (p q : ℕ) → o ≡ some p → past o q ≡ ltb p q
unfolding past
past-some o p q e = ground arith

pub none-past :
    (hit : ZipcodeRule → Bool) (p : ℕ) (w : Text) (rules : List ZipcodeRule)
    → All (λ x. p < x.priority) rules
    → any (λ r. hit r && leb r.priority p && r.warehouse_id == w) rules ≡ false
none-past hit p w [] h = refl
none-past hit p w (x ∷ rules) h = ground (arith, none-past hit p w rules h.1, h.0)
