-- ===== src/Schema/Sound.antt =====
-- What a validation lets through: back/go-assistant/cpn/fire_validate.go.
use liwaisi_assistant.Base.{
  ℕ, zero, suc, ◌+◌, ◌≤◌, String, Option, none, some, List, ◌∷◌, Dict, insert, ◌≡◌, refl, ◌⊎◌, inl,
  inr, arith, Result, ok, lookup, Option-cases, Result-cases, Bool-cases, ◌==◌,
}
use liwaisi_assistant.Errors.{Error}
use liwaisi_assistant.Token.{ColorSet, Token, Payload, text}
use liwaisi_assistant.Place.{Place, deposit}
use liwaisi_assistant.Transition.{Transition}
use liwaisi_assistant.Net.{Cpn}
use liwaisi_assistant.Human.{deposit_bridged}
use liwaisi_assistant.Schema.{
  ValidateConfig, Validated, strip_code_fences, transformed, result_token, deposit_validated,
  invalid_token, route_invalid, correction_loop, corrections, validate_token, fire_validate,
}

-- A valid payload was transformed and deposited for the transition.
abbrev pub DeliveredValid : ℕ → ValidateConfig → ColorSet → Transition → Cpn → Dict Place → Type 0
DeliveredValid now cfg color t c after =
    (p : Payload) × (cfg.check p ≡ none)
    × (after
        ≡ (deposit_bridged t.id (result_token now color (transformed cfg p) c) t.output_places
            c.places).2)

-- One error token, with the error of a payload that is not valid, was deposited in the error place.
abbrev pub RoutedInvalid : ℕ → ValidateConfig → Transition → Cpn → Dict Place → Type 0
RoutedInvalid now cfg t c after =
    (p : Payload) × (e : Error) × (ep : Place) × (q : Place) × (cfg.check p ≡ some e)
    × (lookup t.error_place c.places ≡ some ep)
    × (deposit (invalid_token now ep e c) ep ≡ ok q)
    × (after ≡ insert t.error_place q c.places)

-- At most so many calls of the model, and the places are as before, or with a valid payload delivered,
-- or with an error routed.
unfoldable pub Guarded :
    ℕ → (most : ℕ) → ValidateConfig → ColorSet → Transition → Cpn → Validated → Type 0
Guarded now most cfg color t c r =
    (r.calls ≤ most)
    × ((r.net.places ≡ c.places)
        ⊎ (DeliveredValid now cfg color t c r.net.places ⊎ RoutedInvalid now cfg t c r.net.places))

route_invalid-Guarded :
    (now most cost calls : ℕ) (cfg : ValidateConfig) (color : ColorSet) (t : Transition)
    (p : Payload) (e : Error) (c : Cpn)
    → calls ≤ most
    → cfg.check p ≡ some e
    → Guarded now most cfg color t c (route_invalid now cost calls t e c)
unfolding Guarded route_invalid
route_invalid-Guarded now most cost calls cfg color t p e c few invalid =
    elim (Bool-cases (t.error_place == "")) [
      | inl unnamed ↦ rw (unnamed) (few, inl refl)
      | inr named ↦ elim (Option-cases (lookup t.error_place c.places)) [
        | inl absent ↦ rw (named, absent) (few, inl refl)
        | inr (ep, there) ↦ elim (Result-cases (deposit (invalid_token now ep e c) ep)) [
          | inr (x, refused) ↦ rw (named, there) (rw (refused) (few, inl refl))
          | inl (q, fits) ↦
              rw (named, there)
                (rw (fits) (few, inr (inr (p, e, ep, q, invalid, refl, fits, refl))))
        ]
      ]
    ]

deposit_validated-Guarded :
    (now most cost calls : ℕ) (cfg : ValidateConfig) (color : ColorSet) (t : Transition)
    (p : Payload) (c : Cpn)
    → calls ≤ most
    → cfg.check p ≡ none
    → Guarded now most cfg color t c (deposit_validated now cost calls cfg color t p c)
unfolding Guarded deposit_validated
deposit_validated-Guarded now most cost calls cfg color t p c few valid =
    (few, inr (inl (p, valid, refl)))

module _ (now : ℕ) (plus : ℕ → ℕ → ℕ) (context_error : (calls : ℕ) → Option Error)
    (complete : (calls : ℕ) → Payload → Error → Result Error (String × ℕ)) where
  correction_loop-Guarded :
      (most left calls cost : ℕ) (cfg : ValidateConfig) (color : ColorSet) (t : Transition)
      (p : Payload) (e : Error) (c : Cpn)
      → left + calls ≤ most
      → cfg.check p ≡ some e
      → Guarded now most cfg color t c
          (correction_loop now plus context_error complete left calls cost cfg color t p e c)
  unfolding correction_loop Guarded
  correction_loop-Guarded most zero calls cost cfg color t p e c few invalid =
      route_invalid-Guarded now most cost calls cfg color t p e c (omega (arith, few)) invalid
  correction_loop-Guarded most (suc left) calls cost cfg color t p e c few invalid =
      elim (Option-cases (context_error calls)) [
        | inr (x, done) ↦ rw (done, correction_loop) (omega (arith, few), inl refl)
        | inl going ↦ elim (Result-cases (complete calls p e)) [
          | inr (x, failed) ↦
              rw (going, correction_loop) (rw (failed) (omega (arith, few), inl refl))
          | inl (answer, came) ↦
              let corrected : Payload = text (strip_code_fences answer.0) in
              elim (Option-cases (cfg.check corrected)) [
                | inl valid ↦
                    rw (going, correction_loop)
                      (rw (came) (
                        rw (valid) (
                          deposit_validated-Guarded now most (plus cost answer.1) (suc calls) cfg
                            color t corrected c (omega (arith, few)) valid)))
                | inr (e', wrong) ↦
                    rw (going, correction_loop)
                      (rw (came) (
                        rw (wrong) (
                          correction_loop-Guarded most left (suc calls) (plus cost answer.1) cfg
                            color t corrected e' c (omega (arith, few)) wrong)))
              ]
        ]
      ]

  validate_token-Guarded :
      (most : ℕ) (cfg : ValidateConfig) (t : Transition) (tok : Token) (c : Cpn)
      → corrections cfg ≤ most
      → Guarded now most cfg tok.color t c
          (validate_token now plus context_error complete cfg t tok c)
  validate_token-Guarded most cfg t tok c few = elim (Option-cases (cfg.check tok.payload)) [
    | inl valid ↦
        rw (valid, validate_token)
          (deposit_validated-Guarded now most 0 0 cfg tok.color t tok.payload c (omega arith) valid)
    | inr (e, invalid) ↦
        rw (invalid, validate_token)
          (correction_loop-Guarded most (corrections cfg) 0 0 cfg tok.color t tok.payload e c
            (omega (arith, few)) invalid)
  ]

  -- fireValidate ends, with at most as many calls of the model as the configuration allows corrections,
  -- and ten at most; and no place has changed, or one payload that passes the validation was
  -- transformed and deposited with the colour of the token, or one error of a payload that does not
  -- pass was deposited in the error place.
  pub fire_validate-Guarded :
      (cfg : ValidateConfig) (t : Transition) (tok : Token) (rest : List Token) (c : Cpn)
      → (corrections cfg ≤ 10)
        × Guarded now
            (corrections cfg)
            cfg
            tok.color
            t
            c
            (fire_validate now plus context_error complete (some cfg) t (tok ∷ rest) c)
  unfolding fire_validate
  fire_validate-Guarded cfg t tok rest c =
      (ground arith, validate_token-Guarded (corrections cfg) cfg t tok c (omega arith))
