-- ===== src/Common/Classes.antt =====
-- Equality tests as an interface; texts as lists of code points.
use Prim.Native.Nat.{ℕ}
use Prim.Native.Char.{code}
use Prim.Native.String.{String}
use mathlib.Core.Path.{◌≡◌, refl}
use mathlib.Core.Logic.{◌↔◌, ◌≢◌}
use mathlib.Core.Bool.{Bool, true, false, ◌&&◌}
use mathlib.Core.List.{List, [], ◌∷◌}
use native.Mathlib.Omega.{arith}
use restock_system.Common.Tests.{nat_beq, nat_beq_iff}

-- `x == y` of Python on the values of a type, and that it decides their equality.
pub record Eq {ℓ} (V : Type ℓ) : Type ℓ where
  pub same : V → V → Bool
  pub same_iff : (x y : V) → (same x y ≡ true) ↔ (x ≡ y)

infix 50 ◌==◌
abbrev pub ◌==◌ {ℓ} : {V : Type ℓ} ⦃eq : Eq V⦄ → V → V → Bool
◌==◌ ⦃eq⦄ x y = eq.same x y

pub ==_refl {ℓ} : {A : Type ℓ} ⦃e : Eq A⦄ (a : A) → (a == a) ≡ true
==_refl ⦃e⦄ a = (e.same_iff a a).1 refl

pub ==_ne {ℓ} : {A : Type ℓ} ⦃e : Eq A⦄ (a b : A) → a ≢ b → (a == b) ≡ false
==_ne ⦃e⦄ a b h = ground (arith, e.same_iff a b)

instance abbrev pub nat_eq : Eq ℕ
nat_eq = record { same = nat_beq; same_iff = nat_beq_iff }

-- A text is the list of its code points.
abbrev pub Text : Type 0
Text = List ℕ

abbrev pub codes : String → Text
codes String.[] = []
codes (String.◌∷◌ c s) = code c ∷ codes s

module _ {ℓ} {A : Type ℓ} ⦃e : Eq A⦄ where
  abbrev pub list_beq : List A → List A → Bool
  list_beq [] [] = true
  list_beq (x ∷ xs) (y ∷ ys) = x == y && list_beq xs ys
  list_beq _ _ = false

  pub list_beq_iff : (xs ys : List A) → (list_beq xs ys ≡ true) ↔ (xs ≡ ys)
  list_beq_iff [] [] = ground arith
  list_beq_iff [] (y ∷ ys) = ground arith
  list_beq_iff (x ∷ xs) [] = ground arith
  list_beq_iff (x ∷ xs) (y ∷ ys) = ground (arith, e.same_iff x y, list_beq_iff xs ys)

instance abbrev pub text_eq : Eq Text
text_eq = record { same = list_beq; same_iff = list_beq_iff }

module _ {ℓ κ} {A : Type ℓ} {B : Type κ} ⦃e : Eq A⦄ ⦃f : Eq B⦄ where
  abbrev pub pair_beq : A × B → A × B → Bool
  pair_beq (a, b) (c, d) = a == c && b == d

  pub pair_beq_iff : (p q : A × B) → (pair_beq p q ≡ true) ↔ (p ≡ q)
  pair_beq_iff (a, b) (c, d) = ground (arith, e.same_iff a c, f.same_iff b d)

instance abbrev pub pair_eq : Eq (Text × Text)
pair_eq = record { same = pair_beq; same_iff = pair_beq_iff }

instance abbrev pub triple_eq : Eq (Text × (Text × Text))
triple_eq = record { same = pair_beq; same_iff = pair_beq_iff }

instance abbrev pub stock_key_eq : Eq (ℕ × Text)
stock_key_eq = record { same = pair_beq; same_iff = pair_beq_iff }
