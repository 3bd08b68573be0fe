-- ===== src/Services/PhysicalItems/Members.antt =====
-- The two maps of a resolver (backend/app/services/physical_item.py).
use restock_system.Services.PhysicalItems.{
  PhysicalSkuResolver, add_alias, load_physical_sku_resolver, group_key_of, no_groups,
}
use restock_system.Common.{
  Text, Bool, get, List, ◌≡◌, ℕ, Dict, some, get_or, true, for_each, elem, put, ◌||◌, sym, [],
  arith, get-put, for_each-keeps, if◌then◌else◌, ◌∙◌, sorted, ap, text_eq, ◌==◌, if-cases,
  elem-sorted, Bool-cases, ◌∷◌, inl, add_member, inr, elem-add_member, refl, subst, some_inj,
  get_or-put_same,
}
use restock_system.Engine.SkuMapping.{sort_values}
use restock_system.Common.Strings.{text_le}

-- A sku is a member of the group that it is resolved to.
abbrev pub Agrees : PhysicalSkuResolver → Type 0
Agrees resolver =
    (sku group_key : Text)
    → get sku resolver.sku_to_group_key ≡ some group_key
    → elem sku (get_or group_key resolver.members_by_group_key []) ≡ true

get_or-put :
    (k j : Text) (v : List Text) (d : Dict Text (List Text))
    → get_or j (put k v d) [] ≡ (if k == j then v else get_or j d [])
get_or-put k j v d = elim (Bool-cases (k == j)) [
  | inl q ↦ rw (get-put k j v d, q, get_or) refl
  | inr q ↦ rw (get-put k j v d, q, get_or) refl
]

or_left : (a b : Bool) → a ≡ true → (a || b) ≡ true
or_left a b h = ground arith

or_right : (a b : Bool) → b ≡ true → (a || b) ≡ true
or_right a b h = ground arith

add_alias-Agrees : (row : Text × ℕ) (r : PhysicalSkuResolver) → Agrees r → Agrees (add_alias row r)
add_alias-Agrees (sku, group_id) r h sku2 group2 q =
    let group_key = group_key_of group_id in
    let found = sym (get-put sku sku2 group_key r.sku_to_group_key) ∙ q in
    elim (if-cases (sku == sku2) (some group_key) (get sku2 r.sku_to_group_key) found) [
      | inl (same, here) ↦
          let there : elem sku2 (add_member sku (get_or group_key r.members_by_group_key []))
              ≡ true =
            elem-add_member sku sku2 (get_or group_key r.members_by_group_key [])
            ∙ or_left _ _ same in
          subst
            (λ g.
              elem sku2 (
                get_or g
                  (put group_key (add_member sku (get_or group_key r.members_by_group_key []))
                    r.members_by_group_key)
                  [])
              ≡ true)
            (some_inj here)
            (ap (elem sku2) (
                get_or-put_same group_key
                  (add_member sku (get_or group_key r.members_by_group_key [])) []
                  r.members_by_group_key)
              ∙ there)
      | inr (differ, before) ↦
          let old = h sku2 group2 before in
          elim (Bool-cases (group_key == group2)) [
            | inl q ↦
                ap (elem sku2) (
                  get_or-put group_key group2
                    (add_member sku (get_or group_key r.members_by_group_key []))
                    r.members_by_group_key)
                ∙ rw q (
                    elem-add_member sku sku2 (get_or group_key r.members_by_group_key [])
                    ∙ or_right _ _ (
                        subst (λ g. elem sku2 (get_or g r.members_by_group_key []) ≡ true)
                          (sym ((text_eq.same_iff group_key group2).0 q)) old))
            | inr q ↦
                ap (elem sku2) (
                  get_or-put group_key group2
                    (add_member sku (get_or group_key r.members_by_group_key []))
                    r.members_by_group_key)
                ∙ rw q old
          ]
    ]

get_or-sort_values :
    (k : Text) (d : Dict Text (List Text))
    → get_or k (sort_values d) [] ≡ sorted text_le (get_or k d [])
get_or-sort_values k [] = refl
get_or-sort_values k ((j, v) ∷ d) = elim (Bool-cases (j == k)) [
  | inl q ↦ rw (q, get_or) refl
  | inr q ↦ rw (q, get_or) (get_or-sort_values k d)
]

-- Whatever rows the tables have, a sku is a member of the group that it is resolved to.
pub load_physical_sku_resolver-Agrees :
    (rows : List (Text × ℕ)) → Agrees (load_physical_sku_resolver rows)
unfolding load_physical_sku_resolver
load_physical_sku_resolver-Agrees rows sku group_key q =
    let loaded = for_each add_alias rows no_groups in
    let kept = for_each-keeps Agrees add_alias rows no_groups add_alias-Agrees (λ s g stop. cc) in
    ap (elem sku) (get_or-sort_values group_key loaded.members_by_group_key)
    ∙ elem-sorted text_le sku (get_or group_key loaded.members_by_group_key [])
    ∙ kept sku group_key q
