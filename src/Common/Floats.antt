-- ===== src/Common/Floats.antt =====
-- The floating point numbers of the interpreter, a parameter: the operations that the code uses.
-- What it relies on stands with the theorems that need it.
use Prim.Native.Nat.{ℕ}
use mathlib.Core.Bool.{Bool}
use mathlib.Core.Option.{Option}
use restock_system.Common.Classes.{Text}
use restock_system.Common.Int.{ℤ}

pub record Floats : Type 1 where
  pub Float : Type 0
  -- `float(t)`, with `none` for its `ValueError`
  pub parse : Text → Option Float
  -- `int(x)`, `math.ceil(x)` and `math.floor(x)`; `none` where they raise (infinities, not a number)
  pub truncate : Float → Option ℤ
  pub ceil : Float → Option ℤ
  pub floor : Float → Option ℤ
  -- an `int` that meets a float in an operation
  pub of_int : ℤ → Float
  pub add : Float → Float → Float
  pub sub : Float → Float → Float
  pub mul : Float → Float → Float
  pub div : Float → Float → Float
  -- the literal `n / 10`
  pub tenths : ℕ → Float
  pub lt : Float → Float → Bool
  pub le : Float → Float → Bool
