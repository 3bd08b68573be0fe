-- ===== src/Engine/SkuMapping/Rules.antt =====
-- What the tables give to the calculation (`load_active_mapping_rules`, the loops over the rows of
-- `load_inventory_totals_by_warehouse` and `load_in_transit_totals_by_warehouse` and of
-- `load_in_transit_totals_by_country`, `_type_filter_values`). The queries are a parameter: their
-- rows are given.
pub mod Signatures
pub mod Stock
use restock_system.Engine.SkuMapping.{
  MappingComponent, MappingGroup, MappingRules, WarehouseStock, add_stock,
}
use Prim.Native.Nat.{max}
use restock_system.Common.Int.{int_eq}
use restock_system.Common.{
  Text, ◌∷◌, Dict, List, map, Eq, Bool, Option, ℕ, if◌then◌else◌, list_beq, get_or, for_each, ◌==◌,
  put, pair_beq, list_beq_iff, sorted, [], from_keys, not, pair_beq_iff, elem, leb, get, none,
  text_eq, some, ◌++◌, keys, pair_eq, nat_eq,
}
use restock_system.Common.Strings.{Unicode, text_le}
use restock_system.Common.Int.{ℤ, pos}
use restock_system.Core.Countries.{is_reportable_country_code}
use restock_system.Engine.SkuMapping.Assembly.{add_to}

-- A row of sku_mapping_component
pub record ComponentRow : Type 0 where
  pub inventory_sku : Text
  pub quantity : ℕ
  pub group_no : ℕ

-- A row of sku_mapping_rule with its components
pub record RuleRow : Type 0 where
  pub commodity_sku : Text
  pub components : List ComponentRow

-- A component joins its group, or raises the quantity of the same inventory sku in it.
abbrev pub merge_component : MappingComponent → MappingGroup → MappingGroup
merge_component c [] = c ∷ []
merge_component c (existing ∷ group) =
    let rest = merge_component c group in
    if existing.inventory_sku == c.inventory_sku
    then record {
      inventory_sku = existing.inventory_sku;
      quantity = max existing.quantity c.quantity;
    }
      ∷ group
    else existing ∷ rest

abbrev pub add_component : Dict Text Text → ComponentRow → Dict ℕ MappingGroup → Dict ℕ MappingGroup
add_component sku_groups row groups =
    let normalized : MappingComponent = record {
      inventory_sku = get_or row.inventory_sku sku_groups row.inventory_sku;
      quantity = row.quantity;
    } in
    put row.group_no (merge_component normalized (get_or row.group_no groups [])) groups

-- `tuple((component.inventory_sku, component.quantity) for component in group)`
abbrev pub Signature : Type 0
Signature = List (Text × ℕ)

abbrev pub signature : MappingGroup → Signature
signature group = map (λ (c : MappingComponent). (c.inventory_sku, c.quantity)) group

instance abbrev pub sku_quantity_eq : Eq (Text × ℕ)
sku_quantity_eq = record { same = pair_beq; same_iff = pair_beq_iff }

instance abbrev pub signature_eq : Eq Signature
signature_eq = record { same = list_beq; same_iff = list_beq_iff }

abbrev pub sku_before : MappingComponent → MappingComponent → Bool
sku_before a b = text_le a.inventory_sku b.inventory_sku

-- The loop over the groups of a rule: the rules, and the signatures that are there
abbrev pub add_rule_group :
    Text → Dict ℕ MappingGroup → ℕ → MappingRules × List Signature → MappingRules × List Signature
add_rule_group commodity_sku groups group_no (rules, existing_signatures) =
    let group = sorted sku_before (get_or group_no groups []) in
    if elem (signature group) existing_signatures then (rules, existing_signatures) else (
      put commodity_sku (get_or commodity_sku rules [] ++ group ∷ []) rules,
      existing_signatures ++ signature group ∷ [],
    )

abbrev pub groups_of : Dict Text Text → RuleRow → Dict ℕ MappingGroup
groups_of sku_groups row = for_each (add_component sku_groups) row.components []

-- The body of the loop over the rules; a rule without components adds nothing.
unfoldable pub add_rule : Dict Text Text → RuleRow → MappingRules → MappingRules
add_rule sku_groups row rules =
    let groups = groups_of sku_groups row in
    let existing_signatures = map signature (get_or row.commodity_sku rules []) in
    (for_each (add_rule_group row.commodity_sku groups) (sorted leb (keys groups))
      (rules, existing_signatures)).0

unfoldable pub load_active_mapping_rules : Dict Text Text → List RuleRow → MappingRules
load_active_mapping_rules sku_groups rows = for_each (add_rule sku_groups) rows []

-- `_type_filter_values`
unfoldable pub type_filter_values : Option ℤ → Option (List ℤ) → List ℤ
type_filter_values single_type type_set =
    from_keys (
      elim single_type [ none ↦ [] | some t ↦ t ∷ [] ]
      ++ elim type_set [ none ↦ [] | some ts ↦ ts ])

-- `int(total or 0)`
abbrev pub int_or_zero : Option ℤ → ℤ
int_or_zero none = pos 0
int_or_zero (some n) = n

-- A row of stock: sku, warehouse, country and total
pub record StockRow : Type 0 where
  pub sku : Text
  pub warehouse_id : Text
  pub country : Option Text
  pub total : Option ℤ

abbrev pub add_stock_row :
    Dict Text Text
    → StockRow
    → Dict (Text × Text) WarehouseStock
    → Dict (Text × Text) WarehouseStock
add_stock_row sku_groups row result =
    let key : Text × Text = (get_or row.sku sku_groups row.sku, row.warehouse_id) in
    let stock : WarehouseStock = record { country = row.country; total = int_or_zero row.total } in
    put key (add_stock (get key result) stock) result

unfoldable pub load_stock_rows : Dict Text Text → List StockRow → Dict (Text × Text) WarehouseStock
load_stock_rows sku_groups rows = for_each (add_stock_row sku_groups) rows []

-- A row of stock that only has a country on its way
abbrev pub add_country_row :
    Unicode
    → Dict Text Text
    → Text × (Text × Option ℤ)
    → Dict (Text × Text) ℤ
    → Dict (Text × Text) ℤ
add_country_row u sku_groups (sku, (country, total)) result =
    if not (is_reportable_country_code u (some country))
    then result
    else add_to (get_or sku sku_groups sku, country) (int_or_zero total) result

unfoldable pub load_in_transit_totals_by_country :
    Unicode → Dict Text Text → List (Text × (Text × Option ℤ)) → Dict (Text × Text) ℤ
load_in_transit_totals_by_country u sku_groups rows =
    for_each (add_country_row u sku_groups) rows []
