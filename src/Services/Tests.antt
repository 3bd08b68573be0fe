-- ===== src/Services/Tests.antt =====
-- The resolver at concrete rows.
use restock_system.Common.{
  List, elem, Text, codes, ℕ, get_or, ◌∷◌, get, [], ◌≡◌, some, true, text_eq, refl,
}
use restock_system.Services.PhysicalItems.{load_physical_sku_resolver}
use restock_system.Tasks.Queue.{decimal, decimal_digits}
use restock_system.Services.PhysicalItems.Members.{load_physical_sku_resolver-Agrees}

abbrev rows : List (Text × ℕ)
rows = (codes "A", 1) ∷ (codes "B", 1) ∷ (codes "A", 2) ∷ []

group_run :
    get (codes "A") (load_physical_sku_resolver rows).sku_to_group_key
    ≡ some (codes "physical-group:2")
unfolding load_physical_sku_resolver decimal decimal_digits
group_run = refl

load_physical_sku_resolver-Agrees_example :
    elem
      (codes "A")
      (get_or (codes "physical-group:2") (load_physical_sku_resolver rows).members_by_group_key [])
    ≡ true
load_physical_sku_resolver-Agrees_example =
    load_physical_sku_resolver-Agrees rows (codes "A") (codes "physical-group:2") group_run
