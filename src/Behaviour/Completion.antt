-- ===== src/Behaviour/Completion.antt =====
-- When a net is complete (`IsComplete` of cpn/cpn.go), as a condition on its topology and marking,
-- and what `Reset` leaves.
use liwaisi_assistant.Base.{
  String, ◌≡◌, refl, ◌≢◌, ◌↔◌, ◌⊎◌, inl, inr, Bool, true, not, none, List, [], ◌∷◌, Dict, keep, all,
  All, values, keys, true_of_and, map, arith, Bool-cases, nat_eq, length,
}
use liwaisi_assistant.Token.{Token}
use liwaisi_assistant.Place.{Place, clear}
use liwaisi_assistant.Transition.{Transition}
use liwaisi_assistant.Net.{Cpn, idle, is_input, terminal_places, is_complete, reset, clear_places}

-- A place that no transition reads holds a token.
abbrev pub IsFinal : List Transition → String × Place → Type 0
IsFinal ts e = (is_input ts e.0 ≡ true) ⊎ (e.1.tokens ≢ [])

abbrev holds_token : Place → Bool
holds_token p = not (nat_eq (length p.tokens) 0)

abbrev finals : (String → Bool) → Dict Place → List Place
finals input es = map (λ e. e.1) (keep (λ e. not (input e.0)) es)

abbrev AllFinal : (String → Bool) → Dict Place → Type 0
AllFinal input = All (λ e. (input e.0 ≡ true) ⊎ (e.1.tokens ≢ []))

ne-nil_of_holds_token : (p : Place) → holds_token p ≡ true → p.tokens ≢ []
ne-nil_of_holds_token p h e = ground arith

holds_token_of_ne-nil : (ts : List Token) → ts ≢ [] → not (nat_eq (length ts) 0) ≡ true
holds_token_of_ne-nil [] h = absurd (h refl)
holds_token_of_ne-nil (t ∷ ts) h = ground arith

finals-AllFinal :
    (input : String → Bool) (es : Dict Place)
    → all holds_token (finals input es) ≡ true
    → AllFinal input es
finals-AllFinal input [] h = tt
finals-AllFinal input (e ∷ es) h = elim (Bool-cases (input e.0)) [
  | inl p ↦ (inl p, finals-AllFinal input es (ground arith))
  | inr p ↦
      let both = true_of_and (holds_token e.1) (all holds_token (finals input es)) (ground arith) in
      (inr (ne-nil_of_holds_token e.1 both.0), finals-AllFinal input es both.1)
]

finals_of_AllFinal :
    (input : String → Bool) (es : Dict Place)
    → AllFinal input es
    → all holds_token (finals input es) ≡ true
finals_of_AllFinal input [] h = refl
finals_of_AllFinal input (e ∷ es) h =
    ground (arith, finals_of_AllFinal input es h.1, holds_token_of_ne-nil e.1.tokens)

-- A net is complete exactly if it has a place that no transition reads, and every such place holds a
-- token.
pub is_complete_iff :
    (c : Cpn)
    → (is_complete c ≡ true) ↔ (
        (terminal_places c ≢ [])
        × All (λ e. (is_input (values c.transitions) e.0 ≡ true) ⊎ (e.1.tokens ≢ [])) c.places)
unfolding is_complete
is_complete_iff c = (
  (λ h. (ground arith, finals-AllFinal (is_input (values c.transitions)) c.places (ground arith))),
  (λ h. ground (arith, finals_of_AllFinal (is_input (values c.transitions)) c.places h.1, h.0)),
)

keys-clear_places : (es : Dict Place) → keys (clear_places es) ≡ keys es
keys-clear_places [] = refl
keys-clear_places (e ∷ es) = rw (keys-clear_places es)

clear_places-empty : (es : Dict Place) → All (λ e. e.1.tokens ≡ []) (clear_places es)
unfolding clear
clear_places-empty [] = tt
clear_places-empty (e ∷ es) = (refl, clear_places-empty es)

-- A reset net without a seed function is idle and without an error, in its first mode, and has the
-- same places, all empty.
pub reset-fresh :
    (c : Cpn)
    → c.seed_func ≡ none
    → All (λ e. e.1.tokens ≡ []) (reset c).places
      × ((reset c).state ≡ idle)
      × ((reset c).error ≡ none)
      × ((reset c).mode ≡ c.initial_mode)
      × (keys (reset c).places ≡ keys c.places)
unfolding reset
reset-fresh c h =
    (rw h (clear_places-empty c.places), refl, refl, refl, rw h (keys-clear_places c.places))
