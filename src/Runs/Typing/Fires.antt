-- ===== src/Runs/Typing/Fires.antt =====
-- The fire functions of back/go-assistant/cpn/hitl.go (with revision) and fire_validate.go keep a typed
-- net typed, as the executor's environment asks of its fire functions.
use liwaisi_assistant.Base.{
  ℕ, ◌+◌, String, subst, sym, inl, inr, Option, some, List, [], ◌∷◌, Dict, lookup, insert, Result,
  Option-cases, Result-cases,
}
use liwaisi_assistant.Errors.{Error}
use liwaisi_assistant.Token.{Token, Payload, ColorSet}
use liwaisi_assistant.Place.{Place, deposit}
use liwaisi_assistant.Transition.{Transition}
use liwaisi_assistant.Executor.{Fire}
use liwaisi_assistant.Net.{Cpn}
use liwaisi_assistant.Human.{HumanConfig, Answer, deposit_bridged}
use liwaisi_assistant.Human.Revision.{Revised, fire_hitl_with_revision}
use liwaisi_assistant.Human.Approved.{Reviewed, fire_hitl_with_revision-Reviewed}
use liwaisi_assistant.Schema.{ValidateConfig, Validated, corrections, invalid_token, fire_validate}
use liwaisi_assistant.Schema.Sound.{Guarded, fire_validate-Guarded}
use liwaisi_assistant.Runs.Typing.Deposits.{AllTyped, deposited}
use liwaisi_assistant.Runs.Typing.Firing.{KeepsTyping}

deposit_bridged-AllTyped :
    (tid : String) (t : Token) (pids : List String) (m : Dict Place)
    → AllTyped m
    → AllTyped (deposit_bridged tid t pids m).2
unfolding deposit_bridged
deposit_bridged-AllTyped tid t [] m all = all
deposit_bridged-AllTyped tid t (pid ∷ pids) m all = elim (Option-cases (lookup pid m)) [
  | inl absent ↦ rw (absent, deposit_bridged) all
  | inr (p, there) ↦
      let tok : Token = record t { space = p.space } in
      elim (Result-cases (deposit tok p)) [
        | inr (x, fails) ↦ rw (deposit_bridged, there) (rw fails all)
        | inl (q, fits) ↦
            rw (deposit_bridged, there)
              (rw fits (
                deposit_bridged-AllTyped tid t pids (insert pid q m)
                  (deposited tok pid m all there fits)))
      ]
]

Reviewed-AllTyped :
    (answers : ℕ → Answer) (most : ℕ) (t : Transition) (m : Dict Place) (r : Revised)
    → Reviewed answers most t m r
    → AllTyped m
    → AllTyped r.net.places
unfolding Reviewed
Reviewed-AllTyped answers most t m r (few, inl same) all = subst AllTyped (sym same) all
Reviewed-AllTyped answers most t m r (few, inr (round, tok, _, _, _, (out, _, _, same))) all =
    subst AllTyped (sym same) (deposit_bridged-AllTyped t.id out t.output_places m all)

Guarded-AllTyped :
    (now most : ℕ) (cfg : ValidateConfig) (color : ColorSet) (t : Transition) (c : Cpn)
    (r : Validated)
    → Guarded now most cfg color t c r
    → AllTyped c.places
    → AllTyped r.net.places
unfolding Guarded
Guarded-AllTyped now most cfg color t c r (few, inl same) all = subst AllTyped (sym same) all
Guarded-AllTyped now most cfg color t c r (few, inr (inl (p, valid, same))) all =
    subst AllTyped (sym same) (deposit_bridged-AllTyped t.id _ t.output_places c.places all)
Guarded-AllTyped now most cfg color t c r (few, inr (inr (p, e, ep, q, invalid, there, fits, same)))
      all =
    subst AllTyped (sym same)
      (deposited (invalid_token now ep e c) t.error_place c.places all there fits)

-- The two fire functions on a world, with the configuration of each transition.
abbrev pub revision_fire :
    (now : ℕ) (plus : ℕ → ℕ → ℕ) (answers : ℕ → Answer)
    (correct : ℕ → Transition → String → Result Error (String × ℕ))
    → (Transition → HumanConfig)
    → Fire
revision_fire now plus answers correct config t consumed w =
    let r = fire_hitl_with_revision now plus answers correct (config t) t w.net in
    (r.fired, record w { net = r.net; calls = w.calls + r.calls })

abbrev pub validate_fire :
    (now : ℕ) (plus : ℕ → ℕ → ℕ) (context_error : ℕ → Option Error)
    (complete : ℕ → Payload → Error → Result Error (String × ℕ))
    → (Transition → ValidateConfig)
    → Fire
validate_fire now plus context_error complete config t consumed w =
    let r = fire_validate now plus context_error complete (some (config t)) t consumed w.net in
    (r.fired, record w { net = r.net; calls = w.calls + r.calls })

-- The firing of a person with revisions, whatever the person and the model answer, leaves every token
-- of the net with the colour and the space of its place.
pub revision_fire-KeepsTyping :
    (now : ℕ) (plus : ℕ → ℕ → ℕ) (answers : ℕ → Answer)
    (correct : ℕ → Transition → String → Result Error (String × ℕ))
    (config : Transition → HumanConfig)
    → KeepsTyping (revision_fire now plus answers correct config)
revision_fire-KeepsTyping now plus answers correct config t consumed w all =
    Reviewed-AllTyped answers (config t).max_revisions t w.net.places
      (fire_hitl_with_revision now plus answers correct (config t) t w.net)
      (fire_hitl_with_revision-Reviewed now plus answers correct (config t) t w.net) all

-- The firing of a validation, whatever the validation and the model answer, leaves every token of the
-- net with the colour and the space of its place.
pub validate_fire-KeepsTyping :
    (now : ℕ) (plus : ℕ → ℕ → ℕ) (context_error : ℕ → Option Error)
    (complete : ℕ → Payload → Error → Result Error (String × ℕ))
    (config : Transition → ValidateConfig)
    → KeepsTyping (validate_fire now plus context_error complete config)
unfolding fire_validate
validate_fire-KeepsTyping now plus context_error complete config t [] w all = all
validate_fire-KeepsTyping now plus context_error complete config t (tok ∷ rest) w all =
    Guarded-AllTyped now (corrections (config t)) (config t) tok.color t w.net
      (fire_validate now plus context_error complete (some (config t)) t (tok ∷ rest) w.net)
      (fire_validate-Guarded now plus context_error complete (config t) t tok rest w.net).1 all
