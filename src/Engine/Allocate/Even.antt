-- ===== src/Engine/Allocate/Even.antt =====
-- `allocate_even` gives out the whole quantity, and no two shares differ by more than one.
use native.Mathlib.Nat.{mod-lt, div-add-mod}
use restock_system.Common.{
  Eq, ℕ, min, Dict, List, elem, IsDistinct, keys, ◌≡◌, AreApart, ◌≢◌, false, total, [], Bool-cases,
  ltb, ◌+◌, if◌then◌else◌, inl, ◌∷◌, ◌-◌, put, arith, AreApart-put, ◌*◌, suc, total-put_new, length,
  inr, ◌/◌, AreApart-nil, refl, zero,
}
use restock_system.Engine.Allocate.{allocate_even, even_shares}

-- How many of the `n` indices from `i` on are below `rest`.
abbrev extras : ℕ → ℕ → ℕ → ℕ
extras rest i n = min (i + n) rest - min i rest

abbrev share_at : ℕ → ℕ → ℕ → ℕ
share_at base rest i = base + (if ltb i rest then 1 else 0)

module _ {ℓ} {K : Type ℓ} ⦃e : Eq K⦄ (base rest : ℕ) where
  abbrev write_share : ℕ → K → Dict K ℕ → Dict K ℕ
  write_share i k d = if ltb 0 (share_at base rest i) then put k (share_at base rest i) d else d

  total-write_share :
      (i : ℕ) (k : K) (d : Dict K ℕ)
      → elem k (keys d) ≡ false
      → total (write_share i k d) ≡ total d + share_at base rest i
  total-write_share i k d h = ground (arith, total-put_new k (share_at base rest i) d h)

  AreApart-write_share :
      (i : ℕ) (k : K) (d : Dict K ℕ) (js : List K)
      → elem k js ≡ false
      → AreApart (keys d) js
      → AreApart (keys (write_share i k d)) js
  AreApart-write_share i k d js h a = elim (Bool-cases (ltb 0 (share_at base rest i))) [
    | inl e ↦ rw e (AreApart-put k (share_at base rest i) d js h a)
    | inr e ↦ rw e a
  ]

  total-even_shares :
      (i : ℕ) (ks : List K) (d : Dict K ℕ)
      → IsDistinct ks
      → AreApart (keys d) ks
      → total (even_shares base rest i ks d)
        ≡ total d + base * length ks + extras rest i (length ks)
  unfolding even_shares
  total-even_shares i [] d h a = omega arith
  total-even_shares i (k ∷ ks) d h a = ground (
    arith,
    total-even_shares (i + 1) ks (write_share i k d) h.1 (AreApart-write_share i k d ks h.0 a.1),
    total-write_share i k d a.0,
  )

module _ {ℓ} {K : Type ℓ} ⦃e : Eq K⦄ where
  -- Among distinct warehouses, of which there is one, exactly the quantity is given out.
  pub total-allocate_even :
      (n : ℕ) (ks : List K) → IsDistinct ks → ks ≢ [] → total (allocate_even n ks) ≡ n
  unfolding allocate_even
  total-allocate_even n [] d h = absurd (h refl)
  total-allocate_even zero (k ∷ ks) d h = refl
  total-allocate_even (suc n) (k ∷ ks) d h =
      let m : ℕ = length (k ∷ ks) in
      let r : ℕ = suc n - suc n / m * m in
      let all : total (even_shares (suc n / m) r 0 (k ∷ ks) []) ≡ suc n = omega (
        arith,
        total-even_shares (suc n / m) r 0 (k ∷ ks) [] d (AreApart-nil (k ∷ ks)),
        mod-lt (suc n) {m = m} (omega arith),
        div-add-mod (suc n) m,
      ) in
      ground (arith, all)
