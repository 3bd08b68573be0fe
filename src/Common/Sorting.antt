-- ===== src/Common/Sorting.antt =====
-- The builtin `sorted`: a stable sort, here by insertion, under a test that stands for `<=` of keys.
use restock_system.Common.Lists.{length, All, any, all, elem, IsDistinct}
use restock_system.Common.Tests.{if◌then◌else◌, Bool-cases}
use Prim.Native.Nat.{suc}
use mathlib.Core.Path.{◌≡◌, refl, ap, ◌∙◌}
use mathlib.Core.Logic.{inl, inr}
use mathlib.Core.Bool.{Bool, ◌&&◌, ◌||◌, false}
use mathlib.Core.List.{List, [], ◌∷◌, map}
use native.Mathlib.Omega.{arith}
use restock_system.Common.Classes.{Eq, ◌==◌}

module _ {ℓ} {A : Type ℓ} where
  -- An element goes in front of the first one that it is not greater than.
  abbrev pub insert : (A → A → Bool) → A → List A → List A
  insert le x [] = x ∷ []
  insert le x (y ∷ ys) = if le x y then x ∷ y ∷ ys else y ∷ insert le x ys

  abbrev pub sorted : (A → A → Bool) → List A → List A
  sorted le [] = []
  sorted le (x ∷ xs) = insert le x (sorted le xs)

module _ {ℓ} {A : Type ℓ} (le : A → A → Bool) where
  pub length-insert : (x : A) (xs : List A) → length (insert le x xs) ≡ suc (length xs)
  length-insert x [] = refl
  length-insert x (y ∷ ys) = ground (arith, length-insert x ys)

  pub length-sorted : (xs : List A) → length (sorted le xs) ≡ length xs
  length-sorted [] = refl
  length-sorted (x ∷ xs) = length-insert x (sorted le xs) ∙ ap suc (length-sorted xs)

  pub insert-All {κ} :
      (P : A → Type κ) (x : A) (xs : List A) → P x → All P xs → All P (insert le x xs)
  insert-All P x [] p h = (p, tt)
  insert-All P x (y ∷ ys) p h = elim (Bool-cases (le x y)) [
    | inl e ↦ rw e (p, h)
    | inr e ↦ rw e (h.0, insert-All P x ys p h.1)
  ]

  pub sorted-All {κ} : (P : A → Type κ) (xs : List A) → All P xs → All P (sorted le xs)
  sorted-All P [] h = tt
  sorted-All P (x ∷ xs) h = insert-All P x (sorted le xs) h.0 (sorted-All P xs h.1)

  pub any-insert : (p : A → Bool) (x : A) (xs : List A) → any p (insert le x xs) ≡ (p x || any p xs)
  any-insert p x [] = refl
  any-insert p x (y ∷ ys) = ground (arith, any-insert p x ys)

  pub any-sorted : (p : A → Bool) (xs : List A) → any p (sorted le xs) ≡ any p xs
  any-sorted p [] = refl
  any-sorted p (x ∷ xs) = ground (arith, any-insert p x (sorted le xs), any-sorted p xs)

  pub all-insert : (p : A → Bool) (x : A) (xs : List A) → all p (insert le x xs) ≡ (p x && all p xs)
  all-insert p x [] = refl
  all-insert p x (y ∷ ys) = ground (arith, all-insert p x ys)

  pub all-sorted : (p : A → Bool) (xs : List A) → all p (sorted le xs) ≡ all p xs
  all-sorted p [] = refl
  all-sorted p (x ∷ xs) = ground (arith, all-insert p x (sorted le xs), all-sorted p xs)

module _ {ℓ} {A : Type ℓ} ⦃e : Eq A⦄ (le : A → A → Bool) where
  pub elem-insert : (a x : A) (xs : List A) → elem a (insert le x xs) ≡ (x == a || elem a xs)
  elem-insert a x [] = refl
  elem-insert a x (y ∷ ys) = ground (arith, elem-insert a x ys)

  pub elem-sorted : (a : A) (xs : List A) → elem a (sorted le xs) ≡ elem a xs
  elem-sorted a [] = refl
  elem-sorted a (x ∷ xs) = ground (arith, elem-insert a x (sorted le xs), elem-sorted a xs)

  pub insert-IsDistinct :
      (x : A) (xs : List A) → elem x xs ≡ false → IsDistinct xs → IsDistinct (insert le x xs)
  insert-IsDistinct x [] h d = (refl, tt)
  insert-IsDistinct x (y ∷ ys) h d =
      ground
        (arith, h, d, elem-insert y x ys, insert-IsDistinct x ys, e.same_iff x y, e.same_iff y x)

  pub sorted-IsDistinct : (xs : List A) → IsDistinct xs → IsDistinct (sorted le xs)
  sorted-IsDistinct [] d = tt
  sorted-IsDistinct (x ∷ xs) d =
      insert-IsDistinct x (sorted le xs) (elem-sorted x xs ∙ d.0) (sorted-IsDistinct xs d.1)

module _ {ℓ κ} {A : Type ℓ} {B : Type κ} (f : A → B) (le : B → B → Bool) where
  map-insert :
      (x : A) (xs : List A)
      → map f (insert (λ a b. le (f a) (f b)) x xs) ≡ insert le (f x) (map f xs)
  map-insert x [] = refl
  map-insert x (y ∷ ys) = ground (arith, map-insert x ys)

  -- Sorting by a key sorts the keys.
  pub map-sorted : (xs : List A) → map f (sorted (λ a b. le (f a) (f b)) xs) ≡ sorted le (map f xs)
  map-sorted [] = refl
  map-sorted (x ∷ xs) =
      map-insert x (sorted (λ a b. le (f a) (f b)) xs) ∙ ap (insert le (f x)) (map-sorted xs)
