-- ===== src/Common/Strings.antt =====
-- What the code uses of Python's `str`, over code points. The character tables of Unicode are a
-- parameter: they belong to the interpreter.
use mathlib.Core.List.{reverse}
use Prim.Native.Nat.{ℕ, ◌+◌, ◌*◌}
use mathlib.Core.Bool.{Bool, true, false, not, ◌&&◌, ◌||◌}
use mathlib.Core.Option.{Option, none, some}
use mathlib.Core.List.{List, [], ◌∷◌, ◌++◌}
use restock_system.Common.Tests.{if◌then◌else◌, ◌>>=◌, ltb}
use restock_system.Common.Classes.{◌==◌, Text, text_eq, nat_eq}
use restock_system.Common.Lists.{keep_if}
use restock_system.Common.Int.{ℤ, pos, sub_ℕ}

pub record Unicode : Type 0 where
  -- `str.isspace` of one character
  pub is_space : ℕ → Bool
  -- `str.isalpha` of one character
  pub is_alpha : ℕ → Bool
  -- `str.upper` of one character, which may be several
  pub upper : ℕ → Text
  -- the value of a decimal digit, of any script
  pub digit_value : ℕ → Option ℕ

-- `t.replace(c, "")`
unfoldable pub remove_char : ℕ → Text → Text
remove_char c = keep_if (λ x. not (x == c))

-- `t.split(c)`; a text with no `c` is one piece.
abbrev pub push_front : ℕ → List Text → List Text
push_front x [] = (x ∷ []) ∷ []
push_front x (t ∷ ts) = (x ∷ t) ∷ ts

unfoldable pub split : ℕ → Text → List Text
split c [] = [] ∷ []
split c (x ∷ xs) = let rest = split c xs in if x == c then [] ∷ rest else push_front x rest

-- `t.split(c, 1)` where it has two pieces, and `none` where it has one
unfoldable pub split_once : ℕ → Text → Option (Text × Text)
split_once c [] = none
split_once c (x ∷ xs) =
    let rest = split_once c xs in
    if x == c then some ([], xs) else elim rest [ some (l, r) ↦ some (x ∷ l, r) | none ↦ none ]

abbrev pub starts_with : Text → Text → Bool
starts_with [] t = true
starts_with (p ∷ ps) [] = false
starts_with (p ∷ ps) (x ∷ xs) = p == x && starts_with ps xs

-- `token in t`
unfoldable pub occurs_in : Text → Text → Bool
occurs_in token [] = starts_with token []
occurs_in token (x ∷ xs) = starts_with token (x ∷ xs) || occurs_in token xs

-- The order of texts by code points, as `sorted` uses it
abbrev pub text_le : Text → Text → Bool
text_le [] t = true
text_le (x ∷ xs) [] = false
text_le (x ∷ xs) (y ∷ ys) = ltb x y || (x == y && text_le xs ys)

-- `separator.join(texts)`
unfoldable pub join : Text → List Text → Text
join separator [] = []
join separator (t ∷ ts) = elim ts [ [] ↦ t | _ ∷ _ ↦ t ++ (separator ++ join separator ts) ]

module _ (u : Unicode) where
  abbrev pub lstrip : Text → Text
  lstrip [] = []
  lstrip (x ∷ xs) = let rest = lstrip xs in if u.is_space x then rest else x ∷ xs

  -- `t.strip()`
  unfoldable pub strip : Text → Text
  strip t = reverse (lstrip (reverse (lstrip t)))

  -- `t.upper()`
  abbrev pub upper : Text → Text
  upper [] = []
  upper (x ∷ xs) = u.upper x ++ upper xs

  -- The digits of an `int`: single underscores may stand between two of them.
  abbrev pub parse_digits : ℕ → Bool → Text → Option ℕ
  parse_digits n after_digit [] = if after_digit then some n else none
  parse_digits n after_digit (c ∷ cs) = elim (u.digit_value c) [
    | some d ↦ parse_digits (n * 10 + d) true cs
    | none ↦ elim (c == b'_' && after_digit) [ true ↦ parse_digits n false cs | false ↦ none ]
  ]

  abbrev pub parse_signed : Text → Option ℤ
  parse_signed [] = none
  parse_signed (c ∷ cs) =
      if c == b'-'
      then (do n ← parse_digits 0 false cs; some (sub_ℕ 0 n))
      else if c == b'+'
      then (do n ← parse_digits 0 false cs; some (pos n))
      else do n ← parse_digits 0 false (c ∷ cs); some (pos n)

  -- `int(t)`; `none` is its `ValueError`.
  unfoldable pub parse_int : Text → Option ℤ
  unfolding strip
  parse_int t = parse_signed (strip t)
