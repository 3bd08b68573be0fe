-- ===== src/Engine/Context.antt =====
-- The maps that the steps of the engine hand on (backend/app/engine/context.py): per sku, per
-- country. A quantity of stock is an integer, a velocity a float.
pub mod Fill
use restock_system.Common.Int.{ℤ, ◌+ℤ◌}
use restock_system.Common.{Dict, Text, Option, put, get, get_or, some, [], text_eq, ◌∷◌, none}

pub record InventoryStock : Type 0 where
  pub available : ℤ
  pub reserved : ℤ
  pub in_transit : ℤ

pub record LocalStock : Type 0 where
  pub available : ℤ
  pub reserved : ℤ

-- `InventoryStock.total` and `LocalStock.total`
unfoldable pub stock_total : InventoryStock → ℤ
stock_total s = s.available +ℤ s.reserved +ℤ s.in_transit

unfoldable pub local_total : LocalStock → ℤ
local_total s = s.available +ℤ s.reserved

-- `dict[sku][country]`
abbrev pub BySku {ℓ} : Type ℓ → Type ℓ
BySku A = Dict Text (Dict Text A)

-- `m.get(sku, {}).get(country)`
abbrev pub at {ℓ} : {A : Type ℓ} → Text → Text → BySku A → Option A
at sku country m = get country (get_or sku m [])

-- `result[sku][country] = value`, where a new sku starts with no country
abbrev pub set_at {ℓ} : {A : Type ℓ} → Text → Text → A → BySku A → BySku A
set_at sku country value m = put sku (put country value (get_or sku m [])) m

-- `continue`, or the write of a value
abbrev pub write_at {ℓ} : {A : Type ℓ} → Text → Text → Option A → BySku A → BySku A
write_at sku country none m = m
write_at sku country (some value) m = set_at sku country value m

-- The loops of the steps: `f` says for a sku, a country and the value there what is written into the
-- result; an inner `none` is `continue`, an outer one an exception.
module _ {ℓ κ} {A : Type ℓ} {B : Type κ} (f : Text → Text → A → Option (Option B)) where
  unfoldable pub fill_countries : Text → Dict Text A → BySku B → Option (BySku B)
  fill_countries sku [] result = some result
  fill_countries sku ((country, v) ∷ country_map) result = elim (f sku country v) [
    | none ↦ none
    | some o ↦ fill_countries sku country_map (write_at sku country o result)
  ]

  unfoldable pub fill_from : BySku A → BySku B → Option (BySku B)
  fill_from [] result = some result
  fill_from ((sku, country_map) ∷ m) result = elim (fill_countries sku country_map result) [
    | none ↦ none
    | some next ↦ fill_from m next
  ]
