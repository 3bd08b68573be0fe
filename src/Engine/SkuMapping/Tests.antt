-- ===== src/Engine/SkuMapping/Tests.antt =====
-- The theorems on the sku mapping at concrete inputs.
use restock_system.Engine.Tests.{whole_floats}
use restock_system.Common.{
  List, Dict, Text, All, codes, values, Option, ◌∷◌, ◌≡◌, none, [], some, arith, ℕ, refl, ◌<◌, ◌↔◌,
}
use restock_system.Engine.SkuMapping.Shares.{allocate_integer_quantity, hand_out_rest, weights_of}
use restock_system.Common.Int.{◌*ℤ◌, ◌+ℤ◌, ℤ, ◌-ℤ◌, pos, ◌≤ℤ◌, pos_part}
use restock_system.Engine.Total.{sum_ℤ}
use restock_system.Engine.SkuMapping.{MappingGroup, WarehouseStock}
use restock_system.Engine.SkuMapping.Rules.{load_active_mapping_rules, RuleRow, add_rule, StockRow}
use restock_system.Engine.SkuMapping.Assembly.{buildable_of}
use restock_system.Engine.SkuMapping.Rules.Signatures.{IsClean, load_active_mapping_rules-IsClean}
use restock_system.Engine.SkuMapping.Shares.Exact.{
  AreExact, sum_ℤ-allocate_integer_quantity, AreExact,
}
use restock_system.Engine.SkuMapping.Assembly.Sets.{IsEnoughFor, buildable_of-sets}

abbrev consumers : List Text
consumers = codes "A" ∷ codes "B" ∷ []

abbrev shares_weights : Dict Text ℤ
shares_weights = (codes "A", pos 1) ∷ (codes "B", pos 1) ∷ []

abbrev splits : Dict Text ℤ
splits = (codes "A", pos 4) ∷ (codes "B", pos 3) ∷ []

splits_run : allocate_integer_quantity whole_floats (pos 7) consumers shares_weights ≡ some splits
unfolding allocate_integer_quantity hand_out_rest ◌+ℤ◌ ◌-ℤ◌ ◌*ℤ◌
splits_run = refl

exact_weights : AreExact whole_floats pos_part 7 (weights_of whole_floats consumers shares_weights)
unfolding ◌+ℤ◌ ◌*ℤ◌
exact_weights = record {
  not_zero = refl;
  positive = omega arith;
  added = refl;
  floored = ((3, refl, omega arith, omega arith), ((3, refl, omega arith, omega arith), tt));
}

sum_ℤ-allocate_integer_quantity_example :
    (splits : Dict Text ℤ) × (allocate_integer_quantity whole_floats
        (pos 7)
        consumers
        shares_weights
      ≡ some splits)
    × (sum_ℤ (values splits) ≡ pos 7)
sum_ℤ-allocate_integer_quantity_example =
    sum_ℤ-allocate_integer_quantity whole_floats pos_part 7 consumers shares_weights (λ q. cc)
      (refl, (refl, tt)) exact_weights

abbrev group : MappingGroup
group =
    record { inventory_sku = codes "box"; quantity = 2 }
    ∷ record { inventory_sku = codes "lid"; quantity = 3 }
    ∷ []

abbrev seven_each : Text → Option WarehouseStock
seven_each sku = some (record { country = none; total = pos 7 })

buildable_of-sets_example :
    (b : ℤ) × (buildable_of seven_each group ≡ some (some b))
    × ((m : ℕ) → 0 < m → (pos m ≤ℤ b) ↔ All (IsEnoughFor m seven_each) group)
buildable_of-sets_example =
    buildable_of-sets seven_each group (λ q. cc) (omega arith, (omega arith, tt))

abbrev rule_rows : List RuleRow
rule_rows =
    record {
      commodity_sku = codes "S";
      components =
          record { inventory_sku = codes "box"; quantity = 2; group_no = 1 }
          ∷ record { inventory_sku = codes "case"; quantity = 3; group_no = 1 }
          ∷ record { inventory_sku = codes "box"; quantity = 3; group_no = 2 }
          ∷ [];
    }
    ∷ []

abbrev grouped : Dict Text Text
grouped = (codes "case", codes "box") ∷ []

load_active_mapping_rules-IsClean_example :
    All IsClean (values (load_active_mapping_rules grouped rule_rows))
load_active_mapping_rules-IsClean_example = load_active_mapping_rules-IsClean grouped rule_rows

-- The two groups of the rule become one: a box three times.
rules_run :
    load_active_mapping_rules grouped rule_rows
    ≡ (codes "S", (record { inventory_sku = codes "box"; quantity = 3 } ∷ []) ∷ []) ∷ []
unfolding load_active_mapping_rules add_rule
rules_run = refl

abbrev stock_rows : List StockRow
stock_rows =
    record { sku = codes "box"; warehouse_id = codes "w"; country = none; total = some (pos 4) }
    ∷ record {
      sku = codes "case";
      warehouse_id = codes "w";
      country = some (codes "US");
      total = some (pos 5);
    }
    ∷ record { sku = codes "lid"; warehouse_id = codes "w"; country = none; total = none }
    ∷ []
