-- ===== src/Base/Words.antt =====
-- A 64-bit signed number as its bit pattern.
use Prim.Native.Nat.{ℕ, ◌+◌, ◌-◌, ◌/◌, ◌%◌, ◌^◌}
use mathlib.Core.Bool.{Bool}
use liwaisi_assistant.Base.Tests.{ltb, if◌then◌else◌}

abbrev pub word : ℕ
word = 2 ^ 64

abbrev pub add64 : ℕ → ℕ → ℕ
add64 a b = (a + b) % word

-- The order of the signed numbers: the patterns with the sign bit come before the others.
abbrev pub less64 : ℕ → ℕ → Bool
less64 a b = ltb ((a + 2 ^ 63) % word) ((b + 2 ^ 63) % word)

-- The quotient of two int64, which Go rounds towards zero; the divisor is positive.
abbrev pub div64 : ℕ → ℕ → ℕ
div64 a n = if ltb a (2 ^ 63) then a / n else (word - (word - a) / n) % word
