-- ===== src/Place.antt =====
-- back/go-assistant/cpn/place.go: a typed first-in first-out buffer of tokens. The buffer holds the
-- tokens themselves, which are not written after creation. Each method is one critical section of
-- the place's mutex, so it is one step here.
pub mod Laws
use liwaisi_assistant.Base.{
  ℕ, String, Bool, true, false, not, ◌&&◌, Option, none, some, List, [], ◌∷◌, ◌++◌, Result, ok, err,
  length, if◌then◌else◌,
}
use liwaisi_assistant.Errors.{Error, color_mismatch, space_mismatch, space_violation, empty_place}
use liwaisi_assistant.Token.{
  ColorSet, same_color, SpaceKind, surface, computation, same_space, Token,
}

pub record Place : Type 0 where
  pub id : String
  pub color : ColorSet
  pub space : SpaceKind
  pub tokens : List Token

unfoldable pub new_place : String → ColorSet → SpaceKind → Place
new_place id color space = record { id = id; color = color; space = space; tokens = [] }

abbrev pub is_surface : SpaceKind → Bool
is_surface surface = true
is_surface _ = false

abbrev pub is_computation : SpaceKind → Bool
is_computation computation = true
is_computation _ = false

unfoldable pub deposit : Token → Place → Result Error Place
deposit t p =
    if is_surface t.space && is_computation p.space
    then err (space_violation p.id)
    else if not (same_color t.color p.color)
    then err (color_mismatch p.id)
    else if not (same_space t.space p.space)
    then err (space_mismatch p.id)
    else ok (record p { tokens = p.tokens ++ t ∷ [] })

abbrev consume_from : List Token → Place → Result Error (Token × Place)
consume_from [] p = err (empty_place p.id)
consume_from (t ∷ ts) p = ok (t, record p { tokens = ts })

unfoldable pub consume : Place → Result Error (Token × Place)
consume p = consume_from p.tokens p

abbrev peek_at : List Token → Option (List Token)
peek_at [] = none
peek_at (t ∷ ts) = some (t ∷ ts)

unfoldable pub peek : Place → Option (List Token)
peek p = peek_at p.tokens

unfoldable pub len : Place → ℕ
len p = length p.tokens

unfoldable pub clear : Place → Place
clear p = record p { tokens = [] }
