-- ===== src/Common/Lists.antt =====
-- Lists measured and cut by native numbers, sums, and membership as a test.
use Prim.Native.Nat.{ℕ, zero, suc, ◌+◌, min}
use mathlib.Core.Path.{◌≡◌, refl, ap}
use mathlib.Core.Logic.{◌≢◌, inl, inr}
use mathlib.Core.Bool.{Bool, true, false, not, ◌||◌, ◌&&◌}
use mathlib.Core.List.{List, [], ◌∷◌, ◌++◌, map}
use native.Mathlib.Omega.{arith}
use restock_system.Common.Tests.{if◌then◌else◌, Bool-cases}
use restock_system.Common.Classes.{Eq, ◌==◌}

module _ {ℓ} {A : Type ℓ} where
  abbrev pub length : List A → ℕ
  length [] = 0
  length (x ∷ xs) = suc (length xs)

  abbrev pub is_nil : List A → Bool
  is_nil [] = true
  is_nil (x ∷ xs) = false

  abbrev pub take : ℕ → List A → List A
  take zero xs = []
  take (suc n) [] = []
  take (suc n) (x ∷ xs) = x ∷ take n xs

  abbrev pub drop : ℕ → List A → List A
  drop zero xs = xs
  drop (suc n) [] = []
  drop (suc n) (x ∷ xs) = drop n xs

  -- The comprehension `[x for x in xs if p(x)]`.
  abbrev pub keep_if : (A → Bool) → List A → List A
  keep_if p [] = []
  keep_if p (x ∷ xs) = let rest = keep_if p xs in if p x then x ∷ rest else rest

  -- The builtin `any`.
  abbrev pub any : (A → Bool) → List A → Bool
  any p [] = false
  any p (x ∷ xs) = p x || any p xs

  -- The builtin `all`.
  abbrev pub all : (A → Bool) → List A → Bool
  all p [] = true
  all p (x ∷ xs) = p x && all p xs

  abbrev pub All {κ} : (A → Type κ) → List A → Type κ
  All P [] = Unit
  All P (x ∷ xs) = P x × All P xs

  pub any-congr : (p q : A → Bool) (xs : List A) → ((x : A) → p x ≡ q x) → any p xs ≡ any q xs
  any-congr p q [] h = refl
  any-congr p q (x ∷ xs) h = ground (arith, h x, any-congr p q xs h)

  pub all-congr : (p q : A → Bool) (xs : List A) → ((x : A) → p x ≡ q x) → all p xs ≡ all q xs
  all-congr p q [] h = refl
  all-congr p q (x ∷ xs) h = ground (arith, h x, all-congr p q xs h)

  pub is_nil-of_ne : (xs : List A) → xs ≢ [] → is_nil xs ≡ false
  is_nil-of_ne [] h = absurd (h refl)
  is_nil-of_ne (x ∷ xs) h = refl

  pub any-keep_if : (p q : A → Bool) (xs : List A) → any p (keep_if q xs) ≡ any (λ x. q x && p x) xs
  any-keep_if p q [] = refl
  any-keep_if p q (x ∷ xs) = ground (arith, any-keep_if p q xs)

  pub all-keep_if :
      (p q : A → Bool) (xs : List A) → all p (keep_if q xs) ≡ all (λ x. not (q x) || p x) xs
  all-keep_if p q [] = refl
  all-keep_if p q (x ∷ xs) = ground (arith, all-keep_if p q xs)

  pub keep_if-All {κ} :
      (P : A → Type κ) (q : A → Bool) (xs : List A) → All P xs → All P (keep_if q xs)
  keep_if-All P q [] h = tt
  keep_if-All P q (x ∷ xs) h = elim (Bool-cases (q x)) [
    | inl e ↦ rw e (h.0, keep_if-All P q xs h.1)
    | inr e ↦ rw e (keep_if-All P q xs h.1)
  ]

  pub keep_if-snoc :
      (p : A → Bool) (xs : List A) (x : A)
      → keep_if p (xs ++ x ∷ []) ≡ keep_if p xs ++ keep_if p (x ∷ [])
  keep_if-snoc p [] x = refl
  keep_if-snoc p (y ∷ ys) x = ground (arith, keep_if-snoc p ys x)

  pub length-append : (xs ys : List A) → length (xs ++ ys) ≡ length xs + length ys
  length-append [] ys = omega arith
  length-append (x ∷ xs) ys = omega (arith, length-append xs ys)

  pub length-take : (n : ℕ) (xs : List A) → length (take n xs) ≡ min n (length xs)
  length-take zero xs = omega arith
  length-take (suc n) [] = omega arith
  length-take (suc n) (x ∷ xs) = omega (arith, length-take n xs)

  pub All-take {κ} : (P : A → Type κ) (n : ℕ) (xs : List A) → All P xs → All P (take n xs)
  All-take P zero xs h = tt
  All-take P (suc n) [] h = tt
  All-take P (suc n) (x ∷ xs) h = (h.0, All-take P n xs h.1)

pub All-both {ℓ κ μ} :
    {A : Type ℓ} (P : A → Type κ) (Q : A → Type μ) (xs : List A)
    → All P xs
    → All Q xs
    → All (λ x. P x × Q x) xs
All-both P Q [] h k = tt
All-both P Q (x ∷ xs) h k = ((h.0, k.0), All-both P Q xs h.1 k.1)

pub All-of {ℓ κ} : {A : Type ℓ} (P : A → Type κ) (xs : List A) → ((a : A) → P a) → All P xs
All-of P [] f = tt
All-of P (x ∷ xs) f = (f x, All-of P xs f)

module _ {ℓ κ μ} {A : Type ℓ} where
  pub All-map_to :
      (P : A → Type κ) (Q : A → Type μ) (xs : List A) → ((a : A) → P a → Q a) → All P xs → All Q xs
  All-map_to P Q [] f h = tt
  All-map_to P Q (x ∷ xs) f h = (f x h.0, All-map_to P Q xs f h.1)

abbrev pub sum : List ℕ → ℕ
sum [] = 0
sum (x ∷ xs) = x + sum xs

pub length-map {ℓ κ} :
    {A : Type ℓ} {B : Type κ} (f : A → B) (xs : List A) → length (map f xs) ≡ length xs
length-map f [] = refl
length-map f (x ∷ xs) = ap suc (length-map f xs)

module _ {ℓ} {A : Type ℓ} ⦃e : Eq A⦄ where
  -- The operator `in` on a list or a set.
  abbrev pub elem : A → List A → Bool
  elem a [] = false
  elem a (x ∷ xs) = x == a || elem a xs

  -- No two entries of the list are equal.
  abbrev pub IsDistinct : List A → Type 0
  IsDistinct [] = Unit
  IsDistinct (x ∷ xs) = (elem x xs ≡ false) × IsDistinct xs

  -- `list(dict.fromkeys(xs))`: each entry once, at its first place.
  abbrev pub without : A → List A → List A
  without a [] = []
  without a (x ∷ xs) = let rest = without a xs in if x == a then rest else x ∷ rest

  abbrev pub from_keys : List A → List A
  from_keys [] = []
  from_keys (x ∷ xs) = x ∷ without x (from_keys xs)

  pub elem-without :
      (a b : A) (xs : List A) → elem b (without a xs) ≡ (if a == b then false else elem b xs)
  elem-without a b [] = ground arith
  elem-without a b (x ∷ xs) =
      ground (arith, elem-without a b xs, e.same_iff x a, e.same_iff x b, e.same_iff a b)

  pub without-IsDistinct : (a : A) (xs : List A) → IsDistinct xs → IsDistinct (without a xs)
  without-IsDistinct a [] h = tt
  without-IsDistinct a (x ∷ xs) h = ground (arith, elem-without a x xs, without-IsDistinct a xs h.1)

  pub from_keys-IsDistinct : (xs : List A) → IsDistinct (from_keys xs)
  from_keys-IsDistinct [] = tt
  from_keys-IsDistinct (x ∷ xs) = (
    ground (arith, elem-without x x (from_keys xs), e.same_iff x x),
    without-IsDistinct x (from_keys xs) (from_keys-IsDistinct xs),
  )

  pub elem-from_keys : (a : A) (xs : List A) → elem a (from_keys xs) ≡ elem a xs
  elem-from_keys a [] = refl
  elem-from_keys a (x ∷ xs) = ground (arith, elem-without x a (from_keys xs), elem-from_keys a xs)

  pub ne-nil_of_elem : (a : A) (xs : List A) → elem a xs ≡ true → xs ≢ []
  ne-nil_of_elem a [] h = cc
  ne-nil_of_elem a (x ∷ xs) h = λ q. cc

  pub elem-append : (a : A) (xs ys : List A) → elem a (xs ++ ys) ≡ (elem a xs || elem a ys)
  elem-append a [] ys = refl
  elem-append a (x ∷ xs) ys = ground (arith, elem-append a xs ys)

  pub snoc-IsDistinct :
      (a : A) (xs : List A) → elem a xs ≡ false → IsDistinct xs → IsDistinct (xs ++ a ∷ [])
  snoc-IsDistinct a [] h d = (refl, tt)
  snoc-IsDistinct a (x ∷ xs) h d = (
    ground (arith, elem-append x xs (a ∷ []), e.same_iff x a, e.same_iff a x, d.0, h),
    snoc-IsDistinct a xs (ground arith) d.1,
  )

module _ {ℓ} {A : Type ℓ} ⦃e : Eq A⦄ (p : A → Bool) where
  pub any-of_elem : (a : A) (xs : List A) → elem a xs ≡ true → p a ≡ true → any p xs ≡ true
  any-of_elem a [] h q = cc
  any-of_elem a (x ∷ xs) h q = ground (arith, e.same_iff x a, any-of_elem a xs, h, q)

  pub any-found : (xs : List A) → any p xs ≡ true → (a : A) × (elem a xs ≡ true) × (p a ≡ true)
  any-found [] h = cc
  any-found (x ∷ xs) h = elim (Bool-cases (p x)) [
    | inl q ↦ (x, ground (arith, e.same_iff x x), q)
    | inr q ↦ let (a, here, found) = any-found xs (ground (arith, h, q)) in (a, ground arith, found)
  ]

pub All-snoc {ℓ κ} :
    {A : Type ℓ} (P : A → Type κ) (xs : List A) (x : A) → All P xs → P x → All P (xs ++ x ∷ [])
All-snoc P [] x h p = (p, tt)
All-snoc P (y ∷ ys) x h p = (h.0, All-snoc P ys x h.1 p)

module _ {ℓ κ} {A : Type ℓ} {S : Type κ} where
  -- `for x in xs: ...`, on the variables of the loop
  abbrev pub for_each : (A → S → S) → List A → S → S
  for_each f [] s = s
  for_each f (x ∷ xs) s = for_each f xs (f x s)

  -- A loop whose body keeps a property of its variables keeps it.
  pub for_each-keeps {μ} :
      (P : S → Type μ) (f : A → S → S) (xs : List A) (s : S)
      → ((x : A) (s : S) → P s → P (f x s))
      → P s
      → P (for_each f xs s)
  for_each-keeps P f [] s k p = p
  for_each-keeps P f (x ∷ xs) s k p = for_each-keeps P f xs (f x s) k (k x s p)

module _ {ℓ} {A : Type ℓ} ⦃e : Eq A⦄ where
  -- `s.add(a)` on a set, in the order in which its members came
  abbrev pub add_member : A → List A → List A
  add_member a xs = if elem a xs then xs else xs ++ a ∷ []

  pub elem-add_member : (a b : A) (xs : List A) → elem b (add_member a xs) ≡ (a == b || elem b xs)
  elem-add_member a b xs = ground (arith, elem-append b xs (a ∷ []), e.same_iff a b)

  pub add_member-IsDistinct : (a : A) (xs : List A) → IsDistinct xs → IsDistinct (add_member a xs)
  add_member-IsDistinct a xs d = elim (Bool-cases (elem a xs)) [
    | inl q ↦ rw q d
    | inr q ↦ rw q (snoc-IsDistinct a xs q d)
  ]
