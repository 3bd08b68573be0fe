-- ===== src/Core/Permissions/Expansion.antt =====
-- The implied permissions (`expand_permission_dependencies` of backend/app/core/permissions.py).
use restock_system.Core.Permissions.{
  view_code_of, expand_permission_dependencies, add_view, all_codes, view_dependent_actions,
}
use restock_system.Common.Strings.{split_once}
use restock_system.Common.{
  Text, List, ℕ, ◌≡◌, Bool, some, elem, ◌++◌, none, ◌&&◌, ◌∷◌, ◌==◌, [], text_eq, Bool-cases,
  Option-cases, Option, for_each, false, true, inl, ◌||◌, any, inr, if-cases, arith,
  elem-add_member, refl, subst, some_inj, codes, ap, ◌∙◌, ◌⊎◌, from_keys, ==_refl, sym, any-found,
  nat_eq, any-of_elem,
}

split_once-rebuild :
    (c : ℕ) (t l r r2 : Text)
    → split_once c t ≡ some (l, r)
    → split_once c (l ++ c ∷ r2) ≡ some (l, r2)
unfolding split_once
split_once-rebuild c [] l r r2 h = cc
split_once-rebuild c (x ∷ xs) l r r2 h = elim (Bool-cases (x == c)) [
  | inl q ↦
      let first = ap (λ (x : Text × Text). x.0) (some_inj (rw (q, split_once) at h)) in
      subst (λ l. split_once c (l ++ c ∷ r2) ≡ some (l, r2)) first (rw (==_refl c, split_once) refl)
  | inr q ↦ elim (Option-cases (split_once c xs)) [
    | inl none_left ↦ let stop = rw (q, none_left, split_once) at h in cc
    | inr ((l2, r3), found) ↦
        let first = ap (λ (x : Text × Text). x.0) (some_inj (rw (q, found, split_once) at h)) in
        subst (λ l. split_once c (l ++ c ∷ r2) ≡ some (l, r2)) first
          (rw (q, split_once-rebuild c xs l2 r3 r2 found, split_once) refl)
  ]
]

-- A view permission implies none itself.
view_of-view : (code view : Text) → view_code_of code ≡ some view → view_code_of view ≡ none
view_of-view code view h = elim (Option-cases (split_once b':' code)) [
  | inl whole ↦ let stop = rw (whole, view_code_of) at h in cc
  | inr ((namespace, action), parts) ↦
      elim (if-cases (elem action view_dependent_actions) _ _ (rw (parts, view_code_of) at h)) [
        | inl (_, made) ↦
            subst (λ v. view_code_of v ≡ none) (some_inj made)
              (rw (split_once-rebuild b':' code namespace action (codes "view") parts, view_code_of)
                refl)
        | inr (_, stop) ↦ cc
      ]
]

-- Whether a code adds the view permission c
abbrev pub adds : List Text → Text → Option Text → Bool
adds available c none = false
adds available c (some view) = view == c && elem view available

elem-add_view :
    (available : List Text) (c : Text) (o : Option Text) (expanded : List Text)
    → elem c (add_view available o expanded) ≡ (adds available c o || elem c expanded)
elem-add_view available c none expanded = refl
elem-add_view available c (some view) expanded = ground (arith, elem-add_member view c expanded)

or_swap : (a b c : Bool) → (a || (b || c)) ≡ ((b || a) || c)
or_swap a b c = ground arith

elem-add_views :
    (available : List Text) (c : Text) (given expanded : List Text)
    → elem c (for_each (λ code. add_view available (view_code_of code)) given expanded)
      ≡ (any (λ code. adds available c (view_code_of code)) given || elem c expanded)
elem-add_views available c [] expanded = refl
elem-add_views available c (code ∷ given) expanded =
    let later =
      elem-add_views available c given (add_view available (view_code_of code) expanded) in
    let now = elem-add_view available c (view_code_of code) expanded in
    later
    ∙ ap (λ b. any (λ code. adds available c (view_code_of code)) given || b) now
    ∙ or_swap (any (λ code. adds available c (view_code_of code)) given)
        (adds available c (view_code_of code)) (elem c expanded)

adds-view :
    (available : List Text) (c : Text) (code : Text)
    → adds available c (view_code_of code) ≡ true
    → view_code_of c ≡ none
adds-view available c code h = elim (Option-cases (view_code_of code)) [
  | inl q ↦ let stop = rw (q, adds) at h in cc
  | inr (view, q) ↦
      let same : (view == c) ≡ true =
        and_left (view == c) (elem view available) (rw (q, adds) at h) in
      subst (λ v. view_code_of v ≡ none) ((text_eq.same_iff view c).0 same)
        (view_of-view code view q)
]
  where
    and_left : (a b : Bool) → (a && b) ≡ true → a ≡ true
    and_left a b h = ground arith

closed :
    (available given : List Text) (code view : Text)
    → elem code (for_each (λ code. add_view available (view_code_of code)) given given) ≡ true
    → view_code_of code ≡ some view
    → elem view available ≡ true
    → elem view (for_each (λ code. add_view available (view_code_of code)) given given) ≡ true
closed available given code view here implied can =
    elim (or_cases (any (λ c. adds available code (view_code_of c)) given) (elem code given)
      (sym (elem-add_views available code given given) ∙ here)) [
        | inl added ↦
            let (d, _, adds_it) =
              any-found (λ c. adds available code (view_code_of c)) given added in
            let stop = sym implied ∙ adds-view available code d adds_it in cc
        | inr was ↦
            let it : adds available view (view_code_of code) ≡ true =
              rw (implied, adds) (rw (==_refl view) can) in
            elem-add_views available view given given
            ∙ ap (λ b. b || elem view given)
                (any-of_elem (λ c. adds available view (view_code_of c)) code given was it)
      ]
  where
    or_cases : (a b : Bool) → (a || b) ≡ true → (a ≡ true) ⊎ (b ≡ true)
    or_cases a b h = ground arith

-- The codes that are available
abbrev pub available_of : Option (List Text) → List Text
available_of none = all_codes
available_of (some available) = available

-- With a code the expanded permissions hold the view permission that it implies, where that is
-- available.
pub expand_permission_dependencies-closed :
    (given : List Text) (available : Option (List Text)) (code view : Text)
    → elem code (expand_permission_dependencies given available) ≡ true
    → view_code_of code ≡ some view
    → elem view (available_of available) ≡ true
    → elem view (expand_permission_dependencies given available) ≡ true
unfolding expand_permission_dependencies
expand_permission_dependencies-closed given none code view here implied can =
    closed all_codes (from_keys given) code view here implied can
expand_permission_dependencies-closed given (some available) code view here implied can =
    closed available (from_keys given) code view here implied can
