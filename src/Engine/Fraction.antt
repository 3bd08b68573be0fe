-- ===== src/Engine/Fraction.antt =====
-- Non-negative exact rationals: what backend/app/engine/step5_warehouse_split.py uses of Python's
-- `Fraction`. A value is a numerator over a denominator that is not reduced; equality is never
-- tested by the code, only order and the whole part.
use native.Mathlib.Nat.{one-le-mul, mul-le-mul_right, mul-div-le, div-add-mod, mod-lt}
use restock_system.Common.{
  ℕ, ◌+◌, ◌*◌, ◌/◌, ◌%◌, ◌≤◌, ◌<◌, List, [], ◌∷◌, Bool, arith, ltb, All, length, map, sum,
}

pub record Fraction : Type 0 where
  pub numerator : ℕ
  pub denominator : ℕ

-- `Fraction(n)` and `Fraction(n, d)`
abbrev pub whole : ℕ → Fraction
whole n = record { numerator = n; denominator = 1 }

abbrev pub ratio : ℕ → ℕ → Fraction
ratio n d = record { numerator = n; denominator = d }

infixl 65 ◌+F◌
infixl 70 ◌*F◌ ◌/F◌
abbrev pub ◌+F◌ : Fraction → Fraction → Fraction
a +F b =
    ratio (a.numerator * b.denominator + b.numerator * a.denominator)
      (a.denominator * b.denominator)

abbrev pub ◌*F◌ : Fraction → Fraction → Fraction
a *F b = ratio (a.numerator * b.numerator) (a.denominator * b.denominator)

-- Only for a divisor above zero.
abbrev pub ◌/F◌ : Fraction → Fraction → Fraction
a /F b = ratio (a.numerator * b.denominator) (a.denominator * b.numerator)

-- `sum(...)`
abbrev pub sum_fractions : List Fraction → Fraction
sum_fractions [] = whole 0
sum_fractions (a ∷ fs) = a +F sum_fractions fs

-- `a > 0`
abbrev pub is_positive : Fraction → Bool
is_positive a = ltb 0 a.numerator

-- `exact.numerator // exact.denominator`
abbrev pub floor : Fraction → ℕ
floor a = a.numerator / a.denominator

-- `exact - base`, the part below one
abbrev pub fractional : Fraction → Fraction
fractional a = ratio (a.numerator % a.denominator) a.denominator

abbrev pub ltb_F : Fraction → Fraction → Bool
ltb_F a b = ltb (a.numerator * b.denominator) (b.numerator * a.denominator)

-- A denominator is never zero.
abbrev pub IsFraction : Fraction → Type 0
IsFraction a = 0 < a.denominator

pub sum_fractions-IsFraction :
    (fs : List Fraction) → All IsFraction fs → IsFraction (sum_fractions fs)
sum_fractions-IsFraction [] h = omega arith
sum_fractions-IsFraction (a ∷ fs) h = one-le-mul h.0 (sum_fractions-IsFraction fs h.1)

-- The whole parts of a list add up to at most its sum, and fall short by at most one for each entry.
pub floors-le-sum :
    (fs : List Fraction)
    → All IsFraction fs
    → sum (map floor fs) * (sum_fractions fs).denominator ≤ (sum_fractions fs).numerator
floors-le-sum [] h = omega arith
floors-le-sum (a ∷ fs) h = omega (
  arith,
  mul-le-mul_right (sum_fractions fs).denominator (mul-div-le a.numerator a.denominator),
  mul-le-mul_right a.denominator (floors-le-sum fs h.1),
)

le-suc_floor : (a : Fraction) → IsFraction a → a.numerator ≤ (floor a + 1) * a.denominator
le-suc_floor a h = omega (arith, div-add-mod a.numerator a.denominator, mod-lt a.numerator h)

pub sum-le-floors :
    (fs : List Fraction)
    → All IsFraction fs
    → (sum_fractions fs).numerator
      ≤ (sum (map floor fs) + length fs) * (sum_fractions fs).denominator
sum-le-floors [] h = omega arith
sum-le-floors (a ∷ fs) h = omega (
  arith,
  mul-le-mul_right (sum_fractions fs).denominator (le-suc_floor a h.0),
  mul-le-mul_right a.denominator (sum-le-floors fs h.1),
)
