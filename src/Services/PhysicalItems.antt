-- ===== src/Services/PhysicalItems.antt =====
-- Skus that share their stock (backend/app/services/physical_item.py). The rows of the query are given,
-- in its order; `ValueError` is `none`.
pub mod Members
use restock_system.Tasks.Queue.{decimal}
use restock_system.Common.Strings.{Unicode, strip, text_le}
use restock_system.Common.{
  Dict, Text, List, ℕ, [], Option, get_or, if◌then◌else◌, sorted, codes, put, for_each, some,
  is_nil, ◌∷◌, ◌++◌, add_member, text_eq, none,
}
use restock_system.Engine.SkuMapping.{sort_values}

unfoldable pub normalize_sku : Unicode → Text → Option Text
normalize_sku u value = let sku = strip u value in if is_nil sku then none else some sku

-- The loop of `normalize_sku_list`; `seen` holds what the result holds.
unfoldable pub normalize_skus_from : Unicode → List Text → List Text → Option (List Text)
normalize_skus_from u [] result = some result
normalize_skus_from u (value ∷ values) result = elim (normalize_sku u value) [
  | none ↦ none
  | some sku ↦ normalize_skus_from u values (add_member sku result)
]

unfoldable pub normalize_sku_list : Unicode → List Text → Option (List Text)
normalize_sku_list u values = normalize_skus_from u values []

pub record PhysicalSkuResolver : Type 0 where
  pub sku_to_group_key : Dict Text Text
  pub members_by_group_key : Dict Text (List Text)

unfoldable pub resolve_inventory_sku : PhysicalSkuResolver → Text → Text
resolve_inventory_sku resolver sku = get_or sku resolver.sku_to_group_key sku

-- `result.update(members)` where there are members, and `result.add(sku)` otherwise
abbrev pub add_members : Text → List Text → List Text → List Text
add_members sku members result =
    if is_nil members then add_member sku result else for_each add_member members result

unfoldable pub expand_inventory_skus : PhysicalSkuResolver → List Text → List Text
expand_inventory_skus resolver skus = sorted text_le (
    for_each
      (λ (sku : Text).
        add_members sku
          (get_or (resolve_inventory_sku resolver sku) resolver.members_by_group_key []))
      skus [])

unfoldable pub members_for_group_key : PhysicalSkuResolver → Text → List Text
members_for_group_key resolver group_key =
    get_or group_key resolver.members_by_group_key (group_key ∷ [])

-- `f"physical-group:{group_id}"`
abbrev pub group_key_of : ℕ → Text
group_key_of group_id = codes "physical-group:" ++ decimal group_id

-- A row of the query, which has an id
abbrev pub add_alias : Text × ℕ → PhysicalSkuResolver → PhysicalSkuResolver
add_alias (sku, group_id) resolver =
    let group_key = group_key_of group_id in
    record {
      sku_to_group_key = put sku group_key resolver.sku_to_group_key;
      members_by_group_key =
          put group_key (add_member sku (get_or group_key resolver.members_by_group_key []))
            resolver.members_by_group_key;
    }

abbrev pub no_groups : PhysicalSkuResolver
no_groups = record { sku_to_group_key = []; members_by_group_key = [] }

unfoldable pub load_physical_sku_resolver : List (Text × ℕ) → PhysicalSkuResolver
load_physical_sku_resolver rows =
    let loaded = for_each add_alias rows no_groups in
    record loaded { members_by_group_key = sort_values loaded.members_by_group_key }

-- The entries of `resolve_physical_skus`
unfoldable pub resolve_physical_skus : List (Text × ℕ) → List Text → Dict Text Text
resolve_physical_skus rows skus =
    let resolver = load_physical_sku_resolver rows in
    for_each (λ (sku : Text). put sku (resolve_inventory_sku resolver sku)) skus []
