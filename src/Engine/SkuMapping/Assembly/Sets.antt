-- ===== src/Engine/SkuMapping/Assembly/Sets.antt =====
-- How many sets a group of components gives (`buildable`).
use restock_system.Engine.SkuMapping.Assembly.{floor_div, buildable_from, least, buildable_of}
use native.Mathlib.Nat.{le-div_iff_mul-le}
use restock_system.Common.{
  ℕ, Text, Option, ◌<◌, ◌≡◌, some, none, ◌*◌, ◌↔◌, suc, zero, arith, subst, All, ◌≢◌, some_inj, [],
  ◌∷◌, Option-cases, refl, inl, inr, ◌/◌,
}
use restock_system.Common.Int.{ℤ, pos, ◌≤ℤ◌, negsuc}
use restock_system.Engine.SkuMapping.{WarehouseStock, MappingComponent, MappingGroup}

-- The stock of a component, if there is any allocated, is enough for m sets.
abbrev pub IsEnoughFor : ℕ → (Text → Option WarehouseStock) → MappingComponent → Type 0
IsEnoughFor m allocated component = elim (allocated component.inventory_sku) [
  | none ↦ m ≡ 0
  | some stock ↦ pos (m * component.quantity) ≤ℤ stock.total
]

pub floor_div-lem :
    (m : ℕ) (n : ℤ) (q : ℕ) (b : ℤ)
    → 0 < m
    → floor_div n q ≡ some b
    → (pos m ≤ℤ b) ↔ (pos (m * q) ≤ℤ n)
unfolding floor_div
floor_div-lem m n zero b hm h = cc
floor_div-lem m (pos n) (suc q) b hm h =
    let k : 0 < suc q = omega arith in
    let law = le-div_iff_mul-le {k = suc q} {x = m} {y = n} k in
    subst (λ b. (pos m ≤ℤ b) ↔ (pos (m * suc q) ≤ℤ pos n)) (some_inj h)
      ((λ below. ground (arith, law)), λ below. ground (arith, law))
floor_div-lem m (negsuc n) (suc q) b hm h =
    subst (λ b. (pos m ≤ℤ b) ↔ (pos (m * suc q) ≤ℤ negsuc n)) (some_inj h)
      (ground arith, ground arith)

-- The sets that were possible before a component, if one came before.
abbrev pub AllowsSoFar : ℕ → Option ℤ → Type 0
AllowsSoFar m none = Unit
AllowsSoFar m (some b) = pos m ≤ℤ b

pub AllowsSoFar-least :
    (m : ℕ) (so_far : Option ℤ) (b : ℤ)
    → (pos m ≤ℤ least so_far b) ↔ (AllowsSoFar m so_far × (pos m ≤ℤ b))
AllowsSoFar-least m none b = (λ h. (tt, h), λ h. h.1)
AllowsSoFar-least m (some a) b = ground arith

floor_div-runs : (n : ℤ) (q : ℕ) → 0 < q → (b : ℤ) × (floor_div n q ≡ some b)
unfolding floor_div
floor_div-runs n zero h = ground arith
floor_div-runs (pos n) (suc q) h = (pos (n / suc q), refl)
floor_div-runs (negsuc n) (suc q) h = (negsuc (n / suc q), refl)

-- The loop has an answer, and m sets are possible when they were so far and every further component
-- is enough for them.
abbrev pub Answers : (Text → Option WarehouseStock) → Option ℤ → MappingGroup → Type 0
Answers allocated so_far cs =
    (b : ℤ) × (buildable_from allocated so_far cs ≡ some (some b))
    × ((m : ℕ) → 0 < m → (pos m ≤ℤ b) ↔ (AllowsSoFar m so_far × All (IsEnoughFor m allocated) cs))

Answers-cons :
    (allocated : Text → Option WarehouseStock) (so_far : Option ℤ) (c : MappingComponent)
    (cs : MappingGroup)
    → 0 < c.quantity
    → ((a : ℤ) → Answers allocated (some a) cs)
    → Answers allocated so_far (c ∷ cs)
unfolding buildable_from
Answers-cons allocated so_far c cs hq rest = elim (Option-cases (allocated c.inventory_sku)) [
  | inl missing ↦ rw (missing, buildable_from) (pos 0, refl, λ m hm. (ground arith, ground arith))
  | inr (stock, there) ↦
      let (n, divided) = floor_div-runs stock.total c.quantity hq in
      let (b, found, sets) = rest (least so_far n) in
      rw (there, divided, buildable_from)
        (
          b,
          found,
          λ m hm.
              let law = floor_div-lem m stock.total c.quantity n hm divided in
              let both = AllowsSoFar-least m so_far n in ground (arith, sets m hm, law, both),
        )
]

Answers-of :
    (allocated : Text → Option WarehouseStock) (a : ℤ) (cs : MappingGroup)
    → All (λ (c : MappingComponent). 0 < c.quantity) cs
    → Answers allocated (some a) cs
unfolding buildable_from
Answers-of allocated a [] h = (a, refl, λ m hm. (λ p. (p, tt), λ p. p.0))
Answers-of allocated a (c ∷ cs) h =
    Answers-cons allocated (some a) c cs h.0 (λ n. Answers-of allocated n cs h.1)

-- Where every component is asked for in a positive quantity, a group with components has an answer:
-- the most sets that what is allocated of every component is enough for (a component of which nothing
-- is allocated is enough for none).
pub buildable_of-sets :
    (allocated : Text → Option WarehouseStock) (cs : MappingGroup)
    → cs ≢ []
    → All (λ (c : MappingComponent). 0 < c.quantity) cs
    → (b : ℤ) × (buildable_of allocated cs ≡ some (some b))
      × ((m : ℕ) → 0 < m → (pos m ≤ℤ b) ↔ All (IsEnoughFor m allocated) cs)
buildable_of-sets allocated [] ne h = absurd (ne refl)
buildable_of-sets allocated (c ∷ cs) ne h =
    let (b, found, sets) =
      Answers-cons allocated none c cs h.0 (λ n. Answers-of allocated n cs h.1) in
    (b, found, λ m hm. (λ p. ((sets m hm).0 p).1, λ p. (sets m hm).1 (tt, p)))
