-- ===== src/Schema.antt =====
-- back/go-assistant/cpn/fire_validate.go: a transition that validates a payload, and lets a model
-- correct it. The validation and the call of the model are parameters; the payload of an error token
-- is the error alone. A negative number of corrections is written 0.
pub mod Sound
use Prim.Native.Char.{code}
use liwaisi_assistant.Base.{
  ℕ, zero, suc, ◌+◌, String, Bool, true, false, ◌||◌, Option, none, some, List, [], ◌∷◌, Dict,
  lookup, insert, Result, ok, err, ltb, nat_eq, if◌then◌else◌, ◌==◌,
}
use package.text.Mathlib.Text.{starts_with}
use liwaisi_assistant.Base.Text.{trim_space}
use liwaisi_assistant.Errors.{
  Error, canceled, no_consumed, nil_validate_config, error_place_missing, deposit_failed,
  error_place_deposit_failed, validation_failed, correction_failed,
}
use liwaisi_assistant.Token.{
  ColorSet, error, NodeKind, validate, Token, TokenSnapshot, snapshot, Payload, text, failure,
  unset,
}
use liwaisi_assistant.Place.{Place, deposit}
use liwaisi_assistant.Retry.{Fired, failure_of}
use liwaisi_assistant.Transition.{Transition}
use liwaisi_assistant.Net.{Cpn}
use liwaisi_assistant.Executor.{fired}
use liwaisi_assistant.Human.{deposit_bridged}

pub record ValidateConfig : Type 0 where
  -- validatePayload: the custom function, else the round trip through the schema.
  pub check : Payload → Option Error
  pub max_corrections : ℕ
  pub correction_llm_id : String
  pub on_success : Option (Payload → Payload)

abbrev pub max_correction_cap : ℕ
max_correction_cap = 10

unfoldable pub after_newline : String → Option String
after_newline String.[] = none
after_newline (String.◌∷◌ c s) =
    let rest = after_newline s in if nat_eq (code c) 10 then some s else rest

-- strings.TrimSuffix(s, "```").
unfoldable pub trim_fence : String → String
trim_fence String.[] = String.[]
trim_fence (String.◌∷◌ c s) =
    let rest = trim_fence s in if String.◌∷◌ c s == "```" then String.[] else String.◌∷◌ c rest

unfoldable pub strip_code_fences : String → String
unfolding after_newline trim_fence
strip_code_fences raw =
    let s = trim_space raw in
    if starts_with s "```"
    then trim_space (trim_fence (elim (after_newline s) [ none ↦ s | some rest ↦ rest ]))
    else s

-- What a firing gives, with the number of the model's calls.
pub record Validated : Type 0 where
  pub fired : Fired
  pub net : Cpn
  pub calls : ℕ

abbrev pub transformed : ValidateConfig → Payload → Payload
transformed cfg p = elim cfg.on_success [ none ↦ p | some f ↦ f p ]

abbrev pub result_token : ℕ → ColorSet → Payload → Cpn → Token
result_token now color p c = record {
  color = color;
  payload = p;
  origin_id = c.id;
  origin_depth = c.depth;
  origin_kind = validate;
  space = unset;
  session_id = c.session_id;
  trace_id = "";
  timestamp = now;
}

-- depositValidated.
unfoldable pub deposit_validated :
    (now cost calls : ℕ) → ValidateConfig → ColorSet → Transition → Payload → Cpn → Validated
unfolding deposit_bridged
deposit_validated now cost calls cfg color t p c =
    let out = result_token now color (transformed cfg p) c in
    let r = deposit_bridged t.id out t.output_places c.places in
    record {
      fired = elim r.0 [
        | some e ↦ failure_of cost e
        | none ↦ record { snaps = snapshot out ∷ []; cost = cost; error = none }
      ];
      net = record c { places = r.2 };
      calls = calls;
    }

abbrev pub invalid_token : ℕ → Place → Error → Cpn → Token
invalid_token now ep e c = record (result_token now error (failure e) c) { space = ep.space }

abbrev pub fails : (cost calls : ℕ) → Option Error → Cpn → Validated
fails cost calls e c = record {
  fired = record { snaps = []; cost = cost; error = e };
  net = c;
  calls = calls;
}

-- routeValidationError.
unfoldable pub route_invalid : (now cost calls : ℕ) → Transition → Error → Cpn → Validated
route_invalid now cost calls t e c =
    if t.error_place == ""
    then fails cost calls (some (validation_failed t.id e)) c
    else elim (lookup t.error_place c.places) [
      | none ↦ fails cost calls (some (error_place_missing t.id)) c
      | some ep ↦ elim (deposit (invalid_token now ep e c) ep) [
        | err x ↦ fails cost calls (some (error_place_deposit_failed x)) c
        | ok q ↦ fails cost calls none (record c { places = insert t.error_place q c.places })
      ]
    ]

abbrev pub corrections : ValidateConfig → ℕ
corrections cfg =
    if cfg.correction_llm_id == ""
    then 0
    else if ltb cfg.max_corrections max_correction_cap
    then cfg.max_corrections
    else max_correction_cap

module _ (now : ℕ) (plus : ℕ → ℕ → ℕ) (context_error : (calls : ℕ) → Option Error)
    (complete : (calls : ℕ) → Payload → Error → Result Error (String × ℕ)) where
  -- The loop, with the corrections left: a payload that failed for an error.
  unfoldable pub correction_loop :
      (left calls cost : ℕ)
      → ValidateConfig
      → ColorSet
      → Transition
      → Payload
      → Error
      → Cpn
      → Validated
  unfolding route_invalid deposit_validated strip_code_fences
  correction_loop zero calls cost cfg color t p e c = route_invalid now cost calls t e c
  correction_loop (suc left) calls cost cfg color t p e c = elim (context_error calls) [
    | some x ↦ fails cost calls (some x) c
    | none ↦ elim (complete calls p e) [
      | err x ↦ fails cost (suc calls) (some (correction_failed (suc calls) x)) c
      | ok answer ↦
          let corrected = text (strip_code_fences answer.0) in
          elim (cfg.check corrected) [
            | none ↦ deposit_validated now (plus cost answer.1) (suc calls) cfg color t corrected c
            | some e' ↦
                correction_loop left (suc calls) (plus cost answer.1) cfg color t corrected e' c
          ]
    ]
  ]

  abbrev pub validate_token : ValidateConfig → Transition → Token → Cpn → Validated
  validate_token cfg t tok c = elim (cfg.check tok.payload) [
    | none ↦ deposit_validated now 0 0 cfg tok.color t tok.payload c
    | some e ↦ correction_loop (corrections cfg) 0 0 cfg tok.color t tok.payload e c
  ]

  -- fireValidate.
  unfoldable pub fire_validate : Option ValidateConfig → Transition → List Token → Cpn → Validated
  unfolding correction_loop deposit_validated
  fire_validate none t consumed c = fails 0 0 (some (nil_validate_config t.id)) c
  fire_validate (some cfg) t [] c = fails 0 0 (some (no_consumed t.id)) c
  fire_validate (some cfg) t (tok ∷ rest) c = validate_token cfg t tok c
