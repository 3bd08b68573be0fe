-- ===== src/Engine/SkuMapping/Rules/Signatures.antt =====
-- The groups of `load_active_mapping_rules` (backend/app/engine/sku_mapping.py).
use restock_system.Engine.SkuMapping.Rules.{
  signature_eq, signature, merge_component, load_active_mapping_rules, RuleRow, sku_before,
  Signature, add_rule, groups_of, add_rule_group, add_component,
}
use restock_system.Engine.SkuMapping.{MappingComponent, MappingGroup, MappingRules}
use mathlib.Core.List.{map-append}
use restock_system.Common.{
  List, IsDistinct, Text, Dict, sorted, ◌∷◌, map, elem, arith, ℕ, text_eq, All, ◌≡◌, subst, [],
  ◌==◌, values, sym, ◌||◌, map-sorted, get_or, for_each-keeps, Bool-cases, leb, refl,
  All-values-put, sorted-IsDistinct, keys, inl, All-values-get_or, inr, nat_eq, false, ◌++◌,
  snoc-IsDistinct, All-snoc, ap, ◌∙◌, get_or-put_same,
}
use restock_system.Common.Strings.{text_le}

abbrev pub skus_of : MappingGroup → List Text
skus_of group = map (λ (c : MappingComponent). c.inventory_sku) group

-- No inventory sku stands twice in the group.
abbrev pub HasDistinctSkus : MappingGroup → Type 0
HasDistinctSkus group = IsDistinct (skus_of group)

-- No two groups are the same, and each has its skus once.
abbrev pub IsClean : List MappingGroup → Type 0
IsClean groups = IsDistinct (map signature groups) × All HasDistinctSkus groups

elem-skus-merge_component :
    (sku : Text) (c : MappingComponent) (group : MappingGroup)
    → elem sku (skus_of (merge_component c group))
      ≡ (c.inventory_sku == sku || elem sku (skus_of group))
elem-skus-merge_component sku c [] = refl
elem-skus-merge_component sku c (e ∷ group) = ground (
  arith,
  text_eq.same_iff e.inventory_sku c.inventory_sku,
  text_eq.same_iff c.inventory_sku sku,
  text_eq.same_iff e.inventory_sku sku,
  elem-skus-merge_component sku c group,
)

merge_component-HasDistinctSkus :
    (c : MappingComponent) (group : MappingGroup)
    → HasDistinctSkus group
    → HasDistinctSkus (merge_component c group)
merge_component-HasDistinctSkus c [] h = (refl, tt)
merge_component-HasDistinctSkus c (e ∷ group) h = ground (
  arith,
  text_eq.same_iff e.inventory_sku c.inventory_sku,
  text_eq.same_iff c.inventory_sku e.inventory_sku,
  elem-skus-merge_component e.inventory_sku c group,
  merge_component-HasDistinctSkus c group h.1,
  h,
)

groups_of-HasDistinctSkus :
    (sku_groups : Dict Text Text) (row : RuleRow)
    → All HasDistinctSkus (values (groups_of sku_groups row))
groups_of-HasDistinctSkus sku_groups row =
    for_each-keeps (λ groups. All HasDistinctSkus (values groups)) (add_component sku_groups)
      row.components []
      (λ c groups h.
        All-values-put HasDistinctSkus c.group_no _ groups
          (merge_component-HasDistinctSkus _ _
            (All-values-get_or HasDistinctSkus c.group_no [] groups tt h))
          h)
      tt

sorted-HasDistinctSkus :
    (group : MappingGroup) → HasDistinctSkus group → HasDistinctSkus (sorted sku_before group)
sorted-HasDistinctSkus group h =
    subst IsDistinct (sym (map-sorted (λ (c : MappingComponent). c.inventory_sku) text_le group))
      (sorted-IsDistinct text_le (skus_of group) h)

-- What the loop over the groups of a rule keeps
abbrev pub Keeps : Text → MappingRules × List Signature → Type 0
Keeps commodity_sku (rules, existing) =
    All IsClean (values rules) × (existing ≡ map signature (get_or commodity_sku rules []))

add_group-IsClean :
    (groups : List MappingGroup) (group : MappingGroup)
    → elem (signature group) (map signature groups) ≡ false
    → HasDistinctSkus group
    → IsClean groups
    → IsClean (groups ++ group ∷ [])
add_group-IsClean groups group new once (apart, all_once) = (
  subst IsDistinct (sym (map-append signature groups (group ∷ [])))
      (snoc-IsDistinct (signature group) (map signature groups) new apart),
  All-snoc HasDistinctSkus groups group all_once once,
)

add_rule_group-Keeps :
    (commodity_sku : Text) (groups : Dict ℕ MappingGroup) (group_no : ℕ)
    (s : MappingRules × List Signature)
    → All HasDistinctSkus (values groups)
    → Keeps commodity_sku s
    → Keeps commodity_sku (add_rule_group commodity_sku groups group_no s)
add_rule_group-Keeps commodity_sku groups group_no (rules, existing) hg (clean, same) =
    let group = sorted sku_before (get_or group_no groups []) in
    elim (Bool-cases (elem (signature group) existing)) [
      | inl q ↦ rw q (clean, same)
      | inr q ↦ rw q (
        All-values-put IsClean commodity_sku _ rules
            (add_group-IsClean (get_or commodity_sku rules []) group
              (ap (elem (signature group)) (sym same) ∙ q)
              (sorted-HasDistinctSkus _
                (All-values-get_or HasDistinctSkus group_no [] groups tt hg))
              (All-values-get_or IsClean commodity_sku [] rules (tt, tt) clean))
            clean,
        sym (
            ap (map signature)
              (get_or-put_same commodity_sku (get_or commodity_sku rules [] ++ group ∷ []) [] rules)
            ∙ map-append signature (get_or commodity_sku rules []) (group ∷ [])
            ∙ ap (λ ss. ss ++ signature group ∷ []) (sym same)),
      )
    ]

-- In the loaded rules no sku has two groups of the same components, and no group has an inventory
-- sku twice.
pub load_active_mapping_rules-IsClean :
    (sku_groups : Dict Text Text) (rows : List RuleRow)
    → All IsClean (values (load_active_mapping_rules sku_groups rows))
unfolding load_active_mapping_rules add_rule
load_active_mapping_rules-IsClean sku_groups rows =
    for_each-keeps (λ rules. All IsClean (values rules)) (add_rule sku_groups) rows []
      (λ row rules h.
        let hg = groups_of-HasDistinctSkus sku_groups row in
        (for_each-keeps (Keeps row.commodity_sku)
          (add_rule_group row.commodity_sku (groups_of sku_groups row))
          (sorted leb (keys (groups_of sku_groups row)))
          (rules, map signature (get_or row.commodity_sku rules []))
          (λ n s k. add_rule_group-Keeps row.commodity_sku (groups_of sku_groups row) n s hg k)
          (h, refl)).0)
      tt
