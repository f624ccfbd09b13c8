-- ===== src/Prelude/Number.antt =====
-- Python's ints, and its floats as a type with the operations that the program uses.
use Prim.Native.Nat.{ℕ}
use mathlib.Core.Bool.{Bool}

-- `negsuc n` is -(n + 1).
pub data ℤ : Type 0 where
  pos : ℕ → ℤ
  negsuc : ℕ → ℤ

-- The floats are a parameter: rounding is not modelled, and nothing is assumed of the operations.
pub record Floats (F : Type 0) : Type 0 where
  -- `float(i)`
  pub of_int : ℤ → F
  pub add : F → F → F
  pub sub : F → F → F
  pub mul : F → F → F
  pub div : F → F → F
  -- `a < b` and `a <= b`
  pub lt : F → F → Bool
  pub le : F → F → Bool

module _ {F : Type 0} (floats : Floats F) where
  abbrev pub of_nat : ℕ → F
  of_nat n = floats.of_int (pos n)
