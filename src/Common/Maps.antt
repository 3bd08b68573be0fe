-- ===== src/Common/Maps.antt =====
-- A dictionary in insertion order, as an association list: writing a key that is there keeps its
-- place.
use restock_system.Common.Lists.{elem, IsDistinct, sum, All}
use restock_system.Common.Tests.{if-cases, some_inj, if◌then◌else◌, ltb, Bool-cases}
use restock_system.Common.Classes.{Eq, ◌==◌}
use mathlib.Core.Logic.{inl, inr}
use Prim.Native.Nat.{ℕ, ◌+◌}
use mathlib.Core.Path.{subst, ◌≡◌, refl, sym}
use mathlib.Core.Bool.{true, ◌||◌, false, not, ◌&&◌}
use mathlib.Core.Option.{Option, none, some}
use mathlib.Core.List.{List, [], ◌∷◌}
use native.Mathlib.Omega.{arith}

abbrev pub Dict {ℓ κ} : Type ℓ → Type κ → Type (ℓ ⊔ κ)
Dict K V = List (K × V)

module _ {ℓ κ} {K : Type ℓ} {V : Type κ} where
  abbrev pub keys : Dict K V → List K
  keys [] = []
  keys ((k, v) ∷ d) = k ∷ keys d

  abbrev pub values : Dict K V → List V
  values [] = []
  values ((k, v) ∷ d) = v ∷ values d

module _ {ℓ κ} {K : Type ℓ} {V : Type κ} ⦃e : Eq K⦄ where
  -- `d.get(k)`
  abbrev pub get : K → Dict K V → Option V
  get k [] = none
  get k ((j, v) ∷ d) = if j == k then some v else get k d

  -- `d[k] = v`
  abbrev pub put : K → V → Dict K V → Dict K V
  put k v [] = (k, v) ∷ []
  put k v ((j, w) ∷ d) = if j == k then (j, v) ∷ d else (j, w) ∷ put k v d

  -- `d.get(k, v)`
  abbrev pub get_or : K → Dict K V → V → V
  get_or k d v = elim (get k d) [ some w ↦ w | none ↦ v ]

  pub get-put :
      (k j : K) (v : V) (d : Dict K V) → get j (put k v d) ≡ (if k == j then some v else get j d)
  get-put k j v [] = refl
  get-put k j v ((i, w) ∷ d) =
      ground (arith, e.same_iff k j, e.same_iff i k, e.same_iff i j, get-put k j v d)

  pub get-put_same : (k : K) (v : V) (d : Dict K V) → get k (put k v d) ≡ some v
  get-put_same k v d = ground (arith, get-put k k v d, e.same_iff k k)

  pub get_or-put_same : (k : K) (v w : V) (d : Dict K V) → get_or k (put k v d) w ≡ v
  get_or-put_same k v w d = rw (get-put_same k v d, get_or) refl

  pub get_or-put :
      (k j : K) (v w : V) (d : Dict K V)
      → get_or j (put k v d) w ≡ (if k == j then v else get_or j d w)
  get_or-put k j v w d = elim (Bool-cases (k == j)) [
    | inl q ↦ rw (get-put k j v d, q, get_or) refl
    | inr q ↦ rw (get-put k j v d, q, get_or) refl
  ]

  pub elem-keys-put :
      (k j : K) (v : V) (d : Dict K V) → elem j (keys (put k v d)) ≡ (k == j || elem j (keys d))
  elem-keys-put k j v [] = refl
  elem-keys-put k j v ((i, w) ∷ d) =
      ground (arith, e.same_iff k j, e.same_iff i k, e.same_iff i j, elem-keys-put k j v d)

  pub put-IsDistinct :
      (k : K) (v : V) (d : Dict K V) → IsDistinct (keys d) → IsDistinct (keys (put k v d))
  put-IsDistinct k v [] h = ground arith
  put-IsDistinct k v ((i, w) ∷ d) h =
      ground
        (arith, elem-keys-put k i v d, e.same_iff i k, e.same_iff k i, put-IsDistinct k v d h.1)

module _ {ℓ} {K : Type ℓ} ⦃e : Eq K⦄ where
  -- No key of the second list is in the first.
  abbrev pub AreApart : List K → List K → Type 0
  AreApart ks [] = Unit
  AreApart ks (j ∷ js) = (elem j ks ≡ false) × AreApart ks js

  pub AreApart-nil : (js : List K) → AreApart [] js
  AreApart-nil [] = tt
  AreApart-nil (j ∷ js) = (refl, AreApart-nil js)

module _ {ℓ κ} {K : Type ℓ} ⦃e : Eq K⦄ where
  pub AreApart-put :
      {V : Type κ} (k : K) (v : V) (d : Dict K V) (js : List K)
      → elem k js ≡ false
      → AreApart (keys d) js
      → AreApart (keys (put k v d)) js
  AreApart-put k v d [] h a = tt
  AreApart-put k v d (j ∷ js) h a = (
    ground (arith, elem-keys-put k j v d, e.same_iff j k, e.same_iff k j),
    AreApart-put k v d js (ground arith) a.1,
  )

  pub get-none_of_absent :
      {V : Type κ} (k : K) (d : Dict K V) → elem k (keys d) ≡ false → get k d ≡ none
  get-none_of_absent k [] h = refl
  get-none_of_absent k ((j, v) ∷ d) h = ground (arith, get-none_of_absent k d)

  pub get-some_of_elem :
      {V : Type κ} (k : K) (d : Dict K V) → elem k (keys d) ≡ true → (v : V) × (get k d ≡ some v)
  get-some_of_elem k [] h = cc
  get-some_of_elem k ((j, v) ∷ d) h = elim (Bool-cases (j == k)) [
    | inl q ↦ (v, rw q refl)
    | inr q ↦ let (w, found) = get-some_of_elem k d (ground (arith, h, q)) in (w, rw q found)
  ]

module _ {ℓ} {K : Type ℓ} ⦃e : Eq K⦄ where
  -- `sum(d.values())`
  abbrev pub total : Dict K ℕ → ℕ
  total d = sum (values d)

  -- Writing a key moves the total by the difference of the two values.
  pub total-put : (k : K) (v : ℕ) (d : Dict K ℕ) → total (put k v d) + get_or k d 0 ≡ total d + v
  total-put k v [] = ground arith
  total-put k v ((i, w) ∷ d) = ground (arith, e.same_iff i k, total-put k v d)

  pub total-put_new :
      (k : K) (v : ℕ) (d : Dict K ℕ) → elem k (keys d) ≡ false → total (put k v d) ≡ total d + v
  total-put_new k v d h = ground (arith, total-put k v d, get-none_of_absent k d h)

  -- `{k: v for k, v in d.items() if v > 0}`
  abbrev pub positive : Dict K ℕ → Dict K ℕ
  positive [] = []
  positive ((k, v) ∷ d) = let rest = positive d in if ltb 0 v then (k, v) ∷ rest else rest

  pub total-positive : (d : Dict K ℕ) → total (positive d) ≡ total d
  total-positive [] = refl
  total-positive ((k, v) ∷ d) = ground (arith, total-positive d)

  pub elem-keys-positive :
      (j : K) (d : Dict K ℕ) → elem j (keys (positive d)) ≡ true → elem j (keys d) ≡ true
  elem-keys-positive j [] h = h
  elem-keys-positive j ((k, v) ∷ d) h = ground (arith, elem-keys-positive j d)

  pub positive-IsDistinct : (d : Dict K ℕ) → IsDistinct (keys d) → IsDistinct (keys (positive d))
  positive-IsDistinct [] h = tt
  positive-IsDistinct ((k, v) ∷ d) h =
      ground (arith, positive-IsDistinct d h.1, elem-keys-positive k d)

module _ {ℓ κ μ} {K : Type ℓ} {V : Type κ} ⦃e : Eq K⦄ where
  pub All-keys-put :
      (P : K → Type μ) (k : K) (v : V) (d : Dict K V)
      → P k
      → All P (keys d)
      → All P (keys (put k v d))
  All-keys-put P k v [] p h = (p, tt)
  All-keys-put P k v ((j, w) ∷ d) p h = elim (Bool-cases (j == k)) [
    | inl q ↦ rw q h
    | inr q ↦ rw q (h.0, All-keys-put P k v d p h.1)
  ]

  pub All-put :
      (P : K × V → Type μ) (k : K) (v : V) (d : Dict K V) → P (k, v) → All P d → All P (put k v d)
  All-put P k v [] p h = (p, tt)
  All-put P k v ((j, w) ∷ d) p h = elim (Bool-cases (j == k)) [
    | inl q ↦ rw q (subst (λ i. P (i, v)) (sym ((e.same_iff j k).0 q)) p, h.1)
    | inr q ↦ rw q (h.0, All-put P k v d p h.1)
  ]

  pub All-values-put :
      (P : V → Type μ) (k : K) (v : V) (d : Dict K V)
      → P v
      → All P (values d)
      → All P (values (put k v d))
  All-values-put P k v [] p h = (p, tt)
  All-values-put P k v ((j, w) ∷ d) p h = elim (Bool-cases (j == k)) [
    | inl q ↦ rw q (p, h.1)
    | inr q ↦ rw q (h.0, All-values-put P k v d p h.1)
  ]

  pub All-values-get_or :
      (P : V → Type μ) (k : K) (v : V) (d : Dict K V) → P v → All P (values d) → P (get_or k d v)
  All-values-get_or P k v [] p h = p
  All-values-get_or P k v ((j, w) ∷ d) p h = elim (Bool-cases (j == k)) [
    | inl q ↦ rw (q, get_or) h.0
    | inr q ↦ rw (q, get_or) (All-values-get_or P k v d p h.1)
  ]

  pub All-values-get :
      (P : V → Type μ) (k : K) (v : V) (d : Dict K V) → get k d ≡ some v → All P (values d) → P v
  All-values-get P k v [] q h = cc
  All-values-get P k v ((j, w) ∷ d) q h = elim (if-cases (j == k) (some w) (get k d) q) [
    | inl (_, found) ↦ subst P (some_inj found) h.0
    | inr (_, later) ↦ All-values-get P k v d later h.1
  ]

module _ {ℓ κ} {K : Type ℓ} {V : Type κ} ⦃e : Eq K⦄ where
  -- `d.pop(k, None)`
  abbrev pub remove : K → Dict K V → Dict K V
  remove k [] = []
  remove k ((j, v) ∷ d) = let rest = remove k d in if j == k then rest else (j, v) ∷ rest

  pub get-remove :
      (k j : K) (d : Dict K V) → get j (remove k d) ≡ (if k == j then none else get j d)
  get-remove k j [] = ground arith
  get-remove k j ((i, v) ∷ d) =
      ground (arith, e.same_iff k j, e.same_iff i k, e.same_iff i j, get-remove k j d)

  pub elem-keys-remove :
      (k j : K) (d : Dict K V) → elem j (keys (remove k d)) ≡ (not (k == j) && elem j (keys d))
  elem-keys-remove k j [] = ground arith
  elem-keys-remove k j ((i, v) ∷ d) =
      ground (arith, e.same_iff k j, e.same_iff i k, e.same_iff i j, elem-keys-remove k j d)

  pub remove-IsDistinct :
      (k : K) (d : Dict K V) → IsDistinct (keys d) → IsDistinct (keys (remove k d))
  remove-IsDistinct k [] h = tt
  remove-IsDistinct k ((i, v) ∷ d) h =
      ground (arith, elem-keys-remove k i d, remove-IsDistinct k d h.1)

  pub All-remove {μ} : (P : K × V → Type μ) (k : K) (d : Dict K V) → All P d → All P (remove k d)
  All-remove P k [] h = tt
  All-remove P k ((i, v) ∷ d) h = elim (Bool-cases (i == k)) [
    | inl q ↦ rw q (All-remove P k d h.1)
    | inr q ↦ rw q (h.0, All-remove P k d h.1)
  ]

module _ {ℓ κ} {K : Type ℓ} {V : Type κ} ⦃e : Eq K⦄ where
  -- The entries of the second are found in the first.
  abbrev pub AreFound : Dict K V → Dict K V → Type κ
  AreFound d entries = All (λ (entry : K × V). get entry.0 d ≡ some entry.1) entries

  AreFound-cons :
      (k : K) (v : V) (d entries : Dict K V)
      → elem k (keys entries) ≡ false
      → AreFound d entries
      → AreFound ((k, v) ∷ d) entries
  AreFound-cons k v d [] h a = tt
  AreFound-cons k v d ((j, w) ∷ entries) h a = (
    ground (arith, a.0, h, e.same_iff k j, e.same_iff j k),
    AreFound-cons k v d entries (ground arith) a.1,
  )

  pub AreFound-self : (d : Dict K V) → IsDistinct (keys d) → AreFound d d
  AreFound-self [] h = tt
  AreFound-self ((k, v) ∷ d) h =
      (ground (arith, e.same_iff k k), AreFound-cons k v d d h.0 (AreFound-self d h.1))
