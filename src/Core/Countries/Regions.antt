-- ===== src/Core/Countries/Regions.antt =====
-- The restock regions that the engine is allowed.
use restock_system.Common.{
  Text, Bool, List, Option, elem, IsDistinct, All, ◌≡◌, false, keep_if, true, some, subst, ◌∷◌,
  arith, Bool-cases, some_inj, Option-cases, is_nil, [], text_eq, inl, refl, none, inr,
}
use restock_system.Core.Countries.{
  restock_regions_from, normalize_restock_regions, resolve_allowed_restock_regions,
  is_reportable_country_code, trimmed_upper, normalize_observed_country_code, append_unseen,
}
use restock_system.Common.Strings.{Unicode}
use restock_system.Core.Countries.Members.{append_unseen-IsDistinct}

keep_if-elem-false :
    (p : Text → Bool) (a : Text) (xs : List Text)
    → elem a xs ≡ false
    → elem a (keep_if p xs) ≡ false
keep_if-elem-false p a [] h = refl
keep_if-elem-false p a (x ∷ xs) h = ground (arith, h, keep_if-elem-false p a xs)

keep_if-IsDistinct : (p : Text → Bool) (xs : List Text) → IsDistinct xs → IsDistinct (keep_if p xs)
keep_if-IsDistinct p [] d = tt
keep_if-IsDistinct p (x ∷ xs) d = elim (Bool-cases (p x)) [
  | inl e ↦ rw e (keep_if-elem-false p x xs d.0, keep_if-IsDistinct p xs d.1)
  | inr e ↦ rw e (keep_if-IsDistinct p xs d.1)
]

keep_if-holds : (p : Text → Bool) (xs : List Text) → All (λ x. p x ≡ true) (keep_if p xs)
keep_if-holds p [] = tt
keep_if-holds p (x ∷ xs) = elim (Bool-cases (p x)) [
  | inl e ↦ rw e (e, keep_if-holds p xs)
  | inr e ↦ rw e (keep_if-holds p xs)
]

restock_regions_from-IsDistinct :
    (u : Unicode) (items : List (Option Text)) (normalized : List Text) {regions : List Text}
    → restock_regions_from u items normalized ≡ some regions
    → IsDistinct normalized
    → IsDistinct regions
unfolding restock_regions_from
restock_regions_from-IsDistinct u [] normalized h d = subst (λ m. IsDistinct m) (some_inj h) d
restock_regions_from-IsDistinct u (item ∷ items) normalized h d =
    elim (Bool-cases (is_nil (trimmed_upper u item))) [
      | inl skip ↦
          restock_regions_from-IsDistinct u items normalized (rw (skip, restock_regions_from) at h)
            d
      | inr long ↦
          elim (Option-cases (normalize_observed_country_code u (some (trimmed_upper u item)))) [
            | inl bad ↦ ground (arith, long, bad, h)
            | inr (code, e) ↦
                restock_regions_from-IsDistinct u items (append_unseen code normalized)
                  (rw (long, e, restock_regions_from) at h)
                  (append_unseen-IsDistinct code normalized d)
          ]
    ]

normalize_restock_regions-IsDistinct :
    (u : Unicode) (value : Option (List (Option Text))) {regions : List Text}
    → normalize_restock_regions u value ≡ some regions
    → IsDistinct regions
unfolding normalize_restock_regions
normalize_restock_regions-IsDistinct u none h = subst (λ m. IsDistinct m) (some_inj h) tt
normalize_restock_regions-IsDistinct u (some items) h =
    restock_regions_from-IsDistinct u items [] h tt

-- A set of allowed regions holds each code once, and only codes that may appear in the engine's output.
pub resolve_allowed_restock_regions-IsDistinct :
    (u : Unicode) (value : Option (List (Option Text))) {allowed : List Text}
    → resolve_allowed_restock_regions u value ≡ some (some allowed)
    → IsDistinct allowed × All (λ code. is_reportable_country_code u (some code) ≡ true) allowed
unfolding resolve_allowed_restock_regions
resolve_allowed_restock_regions-IsDistinct u value {allowed} h =
    elim (Option-cases (normalize_restock_regions u value)) [
      | inl bad ↦ ground (arith, bad, h)
      | inr (regions, e) ↦
          let p : Text → Bool = λ code. is_reportable_country_code u (some code) in
          elim (Bool-cases (is_nil regions)) [
            | inl empty ↦ ground (arith, e, empty, h)
            | inr full ↦
                let kept : keep_if p regions ≡ allowed =
                  some_inj (some_inj (rw (e, full, resolve_allowed_restock_regions) at h)) in
                subst (λ m. IsDistinct m × All (λ code. p code ≡ true) m) kept
                  (
                    keep_if-IsDistinct p regions (normalize_restock_regions-IsDistinct u value e),
                    keep_if-holds p regions,
                  )
          ]
    ]
