-- ===== src/Base/Reals.antt =====
-- float64 as an interface: the numbers and the operations that the source uses, with no law.
use Prim.Native.Nat.{ℕ}
use mathlib.Core.Bool.{Bool}

pub record Reals (R : Type 0) : Type 0 where
  pub of_nat : ℕ → R
  pub add : R → R → R
  pub sub : R → R → R
  pub mul : R → R → R
  pub div : R → R → R
  pub less : R → R → Bool
