-- ===== src/Base/Decimal.antt =====
-- strconv.Itoa on numbers that are not negative, and strconv.Atoi for a 64-bit int.
use Prim.Native.Nat.{ℕ, zero, suc, ◌+◌, ◌-◌, ◌*◌, ◌/◌, ◌%◌, ◌^◌, ◌≤◌, ◌<◌}
use Prim.Native.Char.{Char, code}
use Prim.Native.String.{String}
use mathlib.Core.Path.{◌≡◌, refl}
use mathlib.Core.Logic.{inl, inr, ◌≢◌}
use mathlib.Core.Bool.{◌||◌}
use mathlib.Core.Option.{Option, none, some}
use native.Mathlib.Omega.{arith}
use liwaisi_assistant.Base.Tests.{ℤ, pos, negsuc, ltb, nat_eq, if◌then◌else◌, Bool-cases}

digit : ℕ → Char
digit zero = "0"
digit (suc zero) = "1"
digit (suc (suc zero)) = "2"
digit (suc (suc (suc zero))) = "3"
digit (suc (suc (suc (suc zero)))) = "4"
digit (suc (suc (suc (suc (suc zero))))) = "5"
digit (suc (suc (suc (suc (suc (suc zero)))))) = "6"
digit (suc (suc (suc (suc (suc (suc (suc zero))))))) = "7"
digit (suc (suc (suc (suc (suc (suc (suc (suc zero)))))))) = "8"
digit (suc (suc (suc (suc (suc (suc (suc (suc (suc _))))))))) = "9"

-- One round for each digit, the last digit first; `n` rounds are enough for `n`.
print_loop : (fuel : ℕ) → ℕ → String → String
unfolding digit
print_loop zero n out = out
print_loop (suc fuel) n out =
    let rest = print_loop fuel (n / 10) (String.◌∷◌ (digit (n % 10)) out) in
    if nat_eq n 0 then out else rest

unfoldable pub itoa : ℕ → String
unfolding print_loop
itoa n = if nat_eq n 0 then "0" else print_loop n n ""

scan : String → ℕ → Option ℕ
scan String.[] n = some n
scan (String.◌∷◌ c s) n =
    let rest = scan s (n * 10 + (code c - b'0')) in
    if ltb (code c) b'0' || ltb b'9' (code c) then none else rest

-- One digit at least.
number : String → Option ℕ
unfolding scan
number String.[] = none
number (String.◌∷◌ c s) = scan (String.◌∷◌ c s) 0

abbrev pub int_limit : ℕ
int_limit = 2 ^ 63

positive : Option ℕ → Option ℤ
positive none = none
positive (some n) = if ltb n int_limit then some (pos n) else none

negative : Option ℕ → Option ℤ
negative none = none
negative (some zero) = some (pos 0)
negative (some (suc n)) = if ltb n int_limit then some (negsuc n) else none

-- The value, or `none` for an error of syntax or of range.
unfoldable pub atoi : String → Option ℤ
unfolding number positive negative
atoi String.[] = none
atoi (String.◌∷◌ c s) =
    if nat_eq (code c) b'-'
    then negative (number s)
    else if nat_eq (code c) b'+'
    then positive (number s)
    else positive (number (String.◌∷◌ c s))

code-digit : (d : ℕ) → d < 10 → code (digit d) ≡ b'0' + d
unfolding digit
code-digit zero h = refl
code-digit (suc zero) h = refl
code-digit (suc (suc zero)) h = refl
code-digit (suc (suc (suc zero))) h = refl
code-digit (suc (suc (suc (suc zero)))) h = refl
code-digit (suc (suc (suc (suc (suc zero))))) h = refl
code-digit (suc (suc (suc (suc (suc (suc zero)))))) h = refl
code-digit (suc (suc (suc (suc (suc (suc (suc zero))))))) h = refl
code-digit (suc (suc (suc (suc (suc (suc (suc (suc zero)))))))) h = refl
code-digit (suc (suc (suc (suc (suc (suc (suc (suc (suc zero))))))))) h = refl
code-digit (suc (suc (suc (suc (suc (suc (suc (suc (suc (suc n)))))))))) h = absurd (omega arith)

scan-digit : (n : ℕ) (out : String) → scan (String.◌∷◌ (digit (n % 10)) out) (n / 10) ≡ scan out n
unfolding scan
scan-digit n out = ground (arith, code-digit (n % 10))

scan-print_loop :
    (fuel n : ℕ) (out : String) → n ≤ fuel → scan (print_loop fuel n out) 0 ≡ scan out n
unfolding print_loop
scan-print_loop zero n out h = let e : n ≡ 0 = omega arith in ground (arith, e)
scan-print_loop (suc fuel) n out h =
    ground
      (arith, scan-digit n out, scan-print_loop fuel (n / 10) (String.◌∷◌ (digit (n % 10)) out))

-- A text that begins with a digit.
Begins : String → Type 0
Begins String.[] = ⊥
Begins (String.◌∷◌ c s) = (b'0' ≤ code c) × (code c ≤ b'9')

print_loop-Begins : (fuel n : ℕ) (out : String) → Begins out → Begins (print_loop fuel n out)
unfolding print_loop Begins
print_loop-Begins zero n out h = h
print_loop-Begins (suc fuel) n out h = elim (Bool-cases (nat_eq n 0)) [
  | inl stop ↦ rw stop h
  | inr more ↦ rw more (
      print_loop-Begins fuel (n / 10) (String.◌∷◌ (digit (n % 10)) out)
        (omega (arith, code-digit (n % 10))))
]

atoi-scan : (s : String) → Begins s → atoi s ≡ positive (scan s 0)
unfolding atoi Begins
atoi-scan String.[] h = elim h [ ]
atoi-scan (String.◌∷◌ c s) h = ground arith

print_loop-Begins_all : (n : ℕ) → n ≢ 0 → Begins (print_loop n n String.[])
unfolding print_loop
print_loop-Begins_all zero h = absurd (h refl)
print_loop-Begins_all (suc n) h = elim (Bool-cases (nat_eq (suc n) 0)) [
  | inl stop ↦ absurd (ground arith)
  | inr more ↦ rw more (
      print_loop-Begins n (suc n / 10) (String.◌∷◌ (digit (suc n % 10)) String.[])
        (first_digit (suc n)))
]
  where
    first_digit : (m : ℕ) → Begins (String.◌∷◌ (digit (m % 10)) String.[])
    first_digit m = unfold Begins in omega (arith, code-digit (m % 10))

-- A number of 63 bits is read back from its decimal text.
pub atoi-itoa : (n : ℕ) → n < int_limit → atoi (itoa n) ≡ some (pos n)
unfolding itoa positive scan
atoi-itoa n h = elim (Bool-cases (nat_eq n 0)) [
  | inl e ↦ let z : n ≡ 0 = ground arith in rw (e, z) (unfold atoi number in refl)
  | inr more ↦
      let read = atoi-scan (print_loop n n String.[]) (print_loop-Begins_all n (ground arith)) in
      let value = scan-print_loop n n String.[] (omega arith) in
      rw more (rw read (rw value (ground arith)))
]
