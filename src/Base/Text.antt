-- ===== src/Base/Text.antt =====
-- The functions on texts of Go's package strings that the source calls.
use Prim.Native.Nat.{ℕ}
use Prim.Native.Char.{Char, code}
use Prim.Native.String.{String}
use mathlib.Core.Bool.{Bool, true, false, ◌&&◌, ◌||◌}
use mathlib.Core.Option.{Option, none, some}
use text.Mathlib.Text.{find?}
use liwaisi_assistant.Base.Tests.{nat_eq, leb, is_some, if◌then◌else◌}

-- unicode.IsSpace.
is_space : ℕ → Bool
is_space c =
    (leb 9 c && leb c 13)
    || nat_eq c 32
    || nat_eq c 0x85
    || nat_eq c 0xa0
    || nat_eq c 0x1680
    || (leb 0x2000 c && leb c 0x200a)
    || nat_eq c 0x2028
    || nat_eq c 0x2029
    || nat_eq c 0x202f
    || nat_eq c 0x205f
    || nat_eq c 0x3000

trim_left : String → String
unfolding is_space
trim_left String.[] = String.[]
trim_left (String.◌∷◌ c s) =
    let rest = trim_left s in if is_space (code c) then rest else String.◌∷◌ c s

blank : String → Bool
unfolding is_space
blank String.[] = true
blank (String.◌∷◌ c s) = is_space (code c) && blank s

trim_right : String → String
unfolding blank
trim_right String.[] = String.[]
trim_right (String.◌∷◌ c s) =
    let rest = String.◌∷◌ c (trim_right s) in if blank (String.◌∷◌ c s) then String.[] else rest

-- strings.TrimSpace.
unfoldable pub trim_space : String → String
unfolding trim_left trim_right
trim_space s = trim_right (trim_left s)

unfoldable pub contains_text : String → String → Bool
contains_text s part = is_some (find? s part)

abbrev cons_head : Char → Option (String × String) → Option (String × String)
cons_head c none = none
cons_head c (some cut) = some (String.◌∷◌ c cut.0, cut.1)

-- Before and behind the first space, if there is one.
unfoldable pub cut_at_space : String → Option (String × String)
cut_at_space String.[] = none
cut_at_space (String.◌∷◌ c s) =
    let later = cons_head c (cut_at_space s) in
    if nat_eq (code c) b' ' then some (String.[], s) else later

unfoldable pub drop_spaces : String → String
drop_spaces String.[] = String.[]
drop_spaces (String.◌∷◌ c s) =
    let rest = drop_spaces s in if nat_eq (code c) b' ' then rest else String.◌∷◌ c s

-- Whether the last character is the one with this code.
unfoldable pub ends_with : ℕ → String → Bool
ends_with k String.[] = false
ends_with k (String.◌∷◌ c String.[]) = nat_eq (code c) k
ends_with k (String.◌∷◌ c (String.◌∷◌ d s)) = ends_with k (String.◌∷◌ d s)

-- All but the last character.
unfoldable pub init : String → String
init String.[] = String.[]
init (String.◌∷◌ c String.[]) = String.[]
init (String.◌∷◌ c (String.◌∷◌ d s)) = String.◌∷◌ c (init (String.◌∷◌ d s))
