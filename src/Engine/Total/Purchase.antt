-- ===== src/Engine/Total/Purchase.antt =====
-- The purchase of a sku covers what its countries ask for and the safety stock.
use restock_system.Common.Int.{
  ℤ, pos_part, neg_part, pos, negsuc, ◌+ℤ◌, ◌≤ℤ◌, ◌-ℤ◌, -ℤ_parts, +ℤ_parts, eq_of_parts,
}
use restock_system.Common.Floats.{Floats}
use restock_system.Common.{◌<◌, Dict, Text, ◌≡◌, Option, ℕ, arith, some, refl, values, some_inj}
use restock_system.Engine.Total.{compute_total, safety_qty_of, sum_ℤ, local_total_of}
use restock_system.Engine.Context.{LocalStock}

-- An integer has one sign only.
one_sign : (a : ℤ) → (0 < pos_part a) → neg_part a ≡ 0
one_sign (pos n) h = refl
one_sign (negsuc n) h = omega arith

module _ (fl : Floats) where
  -- A purchase, the local stock included, covers the sum of the countries' quantities and the safety
  -- stock, and where anything is purchased at all, it covers them exactly.
  pub compute_total-covers :
      (country_qty : Dict Text ℤ) (velocity : Dict Text fl.Float) (local : Option LocalStock)
      (safety_stock_days safety_qty : ℤ) {purchase_qty : ℕ}
      → safety_qty_of fl velocity safety_stock_days ≡ some safety_qty
      → compute_total fl country_qty velocity local safety_stock_days ≡ some purchase_qty
      → (sum_ℤ (values country_qty) +ℤ safety_qty ≤ℤ pos purchase_qty +ℤ local_total_of fl local)
        × (0 < purchase_qty
            → pos purchase_qty +ℤ local_total_of fl local
              ≡ sum_ℤ (values country_qty) +ℤ safety_qty)
  unfolding compute_total
  compute_total-covers country_qty velocity local days safety {purchase_qty} s h =
      let need = sum_ℤ (values country_qty) in
      let have = local_total_of fl local in
      let bought : pos_part (need -ℤ have +ℤ safety) ≡ purchase_qty =
        some_inj (rw (s, compute_total) at h) in
      let net = need -ℤ have in
      (
        omega (
          arith,
          bought,
          -ℤ_parts need have,
          +ℤ_parts net safety,
          +ℤ_parts need safety,
          +ℤ_parts (pos purchase_qty) have,
          one_sign (net +ℤ safety),
        ),
        λ some_bought. eq_of_parts (pos purchase_qty +ℤ have) (need +ℤ safety) (
            omega (
              arith,
              bought,
              -ℤ_parts need have,
              +ℤ_parts net safety,
              +ℤ_parts need safety,
              +ℤ_parts (pos purchase_qty) have,
              one_sign (net +ℤ safety),
            )),
      )
