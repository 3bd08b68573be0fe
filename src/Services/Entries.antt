-- ===== src/Services/Entries.antt =====
-- A dictionary whose entries are sorted by their keys, sums over a list that is filtered or sorted,
-- and rows that are numbered.
use restock_system.Common.{
  Eq, List, Bool, ◌≡◌, All, elem, Dict, true, map, keys, IsDistinct, keep_if, insert, sorted, any,
  ◌∷◌, Bool-cases, ◌∙◌, false, get, if◌then◌else◌, ap, arith, ◌==◌, elem-sorted, All-map_to, ◌||◌,
  [], inl, some, refl, inr, sym,
}
use restock_system.Common.Int.{ℤ, ◌+ℤ◌, pos, +ℤ-zero_left, +ℤ_assoc, +ℤ_comm}
use restock_system.Engine.Total.{sum_ℤ}

module _ {ℓ κ} {K : Type ℓ} {V : Type κ} ⦃e : Eq K⦄ (le : K → K → Bool) where
  pub keys-insert :
      (k : K) (v : V) (d : Dict K V)
      → keys (insert (λ a b. le a.0 b.0) (k, v) d) ≡ insert le k (keys d)
  keys-insert k v [] = refl
  keys-insert k v ((j, w) ∷ d) = elim (Bool-cases (le k j)) [
    | inl q ↦ rw q refl
    | inr q ↦ rw q (ap (λ ks. j ∷ ks) (keys-insert k v d))
  ]

  pub keys-sorted : (d : Dict K V) → keys (sorted (λ a b. le a.0 b.0) d) ≡ sorted le (keys d)
  keys-sorted [] = refl
  keys-sorted ((k, v) ∷ d) =
      keys-insert k v (sorted (λ a b. le a.0 b.0) d) ∙ ap (insert le k) (keys-sorted d)

  pub get-insert :
      (i k : K) (v : V) (d : Dict K V)
      → elem k (keys d) ≡ false
      → get i (insert (λ a b. le a.0 b.0) (k, v) d) ≡ get i ((k, v) ∷ d)
  get-insert i k v [] h = refl
  get-insert i k v ((j, w) ∷ d) h = elim (Bool-cases (le k j)) [
    | inl q ↦ rw q refl
    | inr q ↦
        rw q (ground (arith, h, get-insert i k v d, e.same_iff j i, e.same_iff k i, e.same_iff j k))
  ]

  -- Sorting by distinct keys keeps what each key has.
  pub get-sorted :
      (i : K) (d : Dict K V) → IsDistinct (keys d) → get i (sorted (λ a b. le a.0 b.0) d) ≡ get i d
  get-sorted i [] h = refl
  get-sorted i ((k, v) ∷ d) h =
      get-insert i k v (sorted (λ a b. le a.0 b.0) d)
        (rw (keys-sorted d) (elem-sorted le k (keys d) ∙ h.0))
      ∙ ap (λ o. if k == i then some v else o) (get-sorted i d h.1)

module _ {ℓ} {A : Type ℓ} (f : A → ℤ) where
  pub sum-keep_if :
      (p : A → Bool) (xs : List A)
      → sum_ℤ (map f (keep_if p xs)) ≡ sum_ℤ (map (λ x. if p x then f x else pos 0) xs)
  sum-keep_if p [] = refl
  sum-keep_if p (x ∷ xs) = elim (Bool-cases (p x)) [
    | inl q ↦ rw q (ap (λ n. f x +ℤ n) (sum-keep_if p xs))
    | inr q ↦
        rw q
          (sum-keep_if p xs ∙ sym (+ℤ-zero_left (sum_ℤ (map (λ x. if p x then f x else pos 0) xs))))
  ]

  sum-insert :
      (le : A → A → Bool) (x : A) (xs : List A)
      → sum_ℤ (map f (insert le x xs)) ≡ f x +ℤ sum_ℤ (map f xs)
  sum-insert le x [] = refl
  sum-insert le x (y ∷ ys) = elim (Bool-cases (le x y)) [
    | inl q ↦ rw q refl
    | inr q ↦ rw q (
        ap (λ n. f y +ℤ n) (sum-insert le x ys)
        ∙ sym (+ℤ_assoc (f y) (f x) (sum_ℤ (map f ys)))
        ∙ ap (λ n. n +ℤ sum_ℤ (map f ys)) (+ℤ_comm (f y) (f x))
        ∙ +ℤ_assoc (f x) (f y) (sum_ℤ (map f ys)))
  ]

  pub sum-sorted :
      (le : A → A → Bool) (xs : List A) → sum_ℤ (map f (sorted le xs)) ≡ sum_ℤ (map f xs)
  sum-sorted le [] = refl
  sum-sorted le (x ∷ xs) = sum-insert le x (sorted le xs) ∙ ap (λ n. f x +ℤ n) (sum-sorted le xs)

pub sum-congr {ℓ} :
    {A : Type ℓ} (f g : A → ℤ) (xs : List A)
    → ((x : A) → f x ≡ g x)
    → sum_ℤ (map f xs) ≡ sum_ℤ (map g xs)
sum-congr f g [] same = refl
sum-congr f g (x ∷ xs) same =
    ap (λ n. n +ℤ sum_ℤ (map f xs)) (same x) ∙ ap (λ n. g x +ℤ n) (sum-congr f g xs same)

module _ {ℓ} {A : Type ℓ} where
  -- A member that passes a test is one that is found.
  pub All-found : (xs : List A) → All (λ x. (p : A → Bool) → p x ≡ true → any p xs ≡ true) xs
  All-found [] = tt
  All-found (x ∷ xs) = (
    λ p h. ground arith,
    All-map_to (λ y. (p : A → Bool) → p y ≡ true → any p xs ≡ true)
        (λ y. (p : A → Bool) → p y ≡ true → any p (x ∷ xs) ≡ true) xs
        (λ y found p h. ground (arith, found p h)) (All-found xs),
  )

pub elem-map {ℓ κ} :
    {A : Type ℓ} {B : Type κ} ⦃e : Eq B⦄ (f : A → B) (b : B) (xs : List A)
    → elem b (map f xs) ≡ any (λ x. f x == b) xs
elem-map f b [] = refl
elem-map f b (x ∷ xs) = ap (λ t. f x == b || t) (elem-map f b xs)
