-- ===== src/Core/Countries/Members.antt =====
-- What the lists of country codes hold, and that the mapping to EU leaves no member behind.
use restock_system.Common.{
  Text, List, length, IsDistinct, All, ◌≡◌, Option, elem, true, some, Bool-cases, false, subst,
  keys, codes, some_inj, inl, ◌∷◌, ◌==◌, [], arith, inr, snoc-IsDistinct, All-snoc, is_nil, text_eq,
  refl, none,
}
use restock_system.Core.Countries.{
  resolve_alias, eu_members_from, normalize_country_list_for_eu_members, apply_eu_mapping,
  is_two_letters, append_unseen, non_eu_member_codes, country_code_aliases, trimmed_upper,
}
use restock_system.Common.Strings.{Unicode}

pub append_unseen-IsDistinct :
    (code : Text) (normalized : List Text)
    → IsDistinct normalized
    → IsDistinct (append_unseen code normalized)
append_unseen-IsDistinct code normalized d = elim (Bool-cases (elem code normalized)) [
  | inl e ↦ rw e d
  | inr e ↦ rw e (snoc-IsDistinct code normalized e d)
]

append_unseen-All {κ} :
    (P : Text → Type κ) (code : Text) (normalized : List Text)
    → P code
    → All P normalized
    → All P (append_unseen code normalized)
append_unseen-All P code normalized p a = elim (Bool-cases (elem code normalized)) [
  | inl e ↦ rw e a
  | inr e ↦ rw e (All-snoc P normalized code a p)
]

-- A code that may stand among the members: two characters, no alias, and neither EU nor ZZ.
abbrev pub IsMember : Text → Type 0
IsMember code =
    (length code ≡ 2)
    × (elem code non_eu_member_codes ≡ false)
    × (elem code (keys country_code_aliases) ≡ false)

resolve_alias-IsMember :
    (u : Unicode) (raw_code : Text)
    → is_two_letters u raw_code ≡ true
    → elem (resolve_alias raw_code) non_eu_member_codes ≡ false
    → IsMember (resolve_alias raw_code)
unfolding resolve_alias is_two_letters
resolve_alias-IsMember u raw_code two other = elim (Bool-cases (codes "UK" == raw_code)) [
  | inl e ↦ rw e (refl, refl, refl)
  | inr e ↦ rw e (ground (arith, two), rw e at other, rw e refl)
]

eu_members_from-IsMember :
    (u : Unicode) (items : List (Option Text)) (normalized : List Text) {members : List Text}
    → eu_members_from u items normalized ≡ some members
    → IsDistinct normalized
    → All IsMember normalized
    → IsDistinct members × All IsMember members
unfolding eu_members_from
eu_members_from-IsMember u [] normalized h d a =
    subst (λ m. IsDistinct m × All IsMember m) (some_inj h) (d, a)
eu_members_from-IsMember u (item ∷ items) normalized {members} h d a =
    let raw_code = trimmed_upper u item in
    let code = resolve_alias raw_code in
    elim (Bool-cases (is_nil raw_code)) [
      | inl skip ↦ eu_members_from-IsMember u items normalized (rw skip at h) d a
      | inr long ↦ elim (Bool-cases (is_two_letters u raw_code)) [
        | inr bad ↦ ground (arith, long, bad, h)
        | inl two ↦ elim (Bool-cases (elem code non_eu_member_codes)) [
          | inl bad ↦ ground (arith, long, two, bad, h)
          | inr ok ↦
              eu_members_from-IsMember u items (append_unseen code normalized)
                (rw (long, two, ok) at h) (append_unseen-IsDistinct code normalized d)
                (append_unseen-All IsMember code normalized
                  (resolve_alias-IsMember u raw_code two ok) a)
        ]
      ]
    ]

-- The list of EU members that the configuration accepts has no code twice, and each of its codes has
-- two characters, is not an alias such as UK, and is neither EU nor ZZ.
pub normalize_country_list_for_eu_members-IsMember :
    (u : Unicode) (value : Option (List (Option Text))) {members : List Text}
    → normalize_country_list_for_eu_members u value ≡ some members
    → IsDistinct members × All IsMember members
unfolding normalize_country_list_for_eu_members
normalize_country_list_for_eu_members-IsMember u none h =
    subst (λ m. IsDistinct m × All IsMember m) (some_inj h) (tt, tt)
normalize_country_list_for_eu_members-IsMember u (some items) h =
    eu_members_from-IsMember u items [] h tt tt

absent-of_All :
    (code : Text) (members : List Text)
    → elem code non_eu_member_codes ≡ true
    → All IsMember members
    → elem code members ≡ false
absent-of_All code [] bad a = refl
absent-of_All code (m ∷ members) bad a =
    ground (arith, a.0.1, bad, absent-of_All code members bad a.1)

-- What the mapping to EU returns for a country is never itself a member of the configured EU.
pub apply_eu_mapping-not_member :
    (u : Unicode) (value : Option (List (Option Text))) (country : Option Text)
    {members : List Text} {mapped : Text}
    → normalize_country_list_for_eu_members u value ≡ some members
    → apply_eu_mapping u country members ≡ some mapped
    → elem mapped members ≡ false
unfolding apply_eu_mapping
apply_eu_mapping-not_member u value none h m = cc
apply_eu_mapping-not_member u value (some country) {members} {mapped} h m =
    let eu_absent =
      absent-of_All (codes "EU") members refl
        (normalize_country_list_for_eu_members-IsMember u value h).1 in
    ground (arith, eu_absent, m)
