-- ===== src/Base/Floats.antt =====
-- float64 as a parameter of the components that compute with it.
use Prim.Native.Nat.{ℕ}
use mathlib.Core.Bool.{Bool}

-- float64: whole numbers, arithmetic, math.Max, math.Min, math.Round and
-- the conversion to an integer of what is not negative, and the tests <, <= and ==.
pub record Floats (F : Type 0) : Type 0 where
  pub of_ℕ : ℕ → F
  pub add : F → F → F
  pub sub : F → F → F
  pub mul : F → F → F
  pub div : F → F → F
  pub largest : F → F → F
  pub smallest : F → F → F
  pub round : F → F
  pub whole_part : F → ℕ
  pub lt : F → F → Bool
  pub le : F → F → Bool
  pub eq : F → F → Bool

module _ {F : Type 0} (fl : Floats F) where
  abbrev pub zero_float : F
  zero_float = fl.of_ℕ 0
