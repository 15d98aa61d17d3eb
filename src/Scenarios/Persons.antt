-- ===== src/Scenarios/Persons.antt =====
-- A person who asks for one revision and then approves, and a model that corrects a payload:
-- back/go-assistant/cpn/hitl.go and fire_validate.go.
use liwaisi_assistant.Base.{
  ℕ, zero, suc, ◌+◌, String, true, Option, none, some, [], ◌∷◌, ◌≡◌, refl, ◌≤◌, ok, Result, ◌==◌,
  if◌then◌else◌,
}
use liwaisi_assistant.Errors.{Error, external}
use liwaisi_assistant.Token.{Token, Payload, HitlAction, approve, revise, text, response, human}
use liwaisi_assistant.Transition.{Transition}
use liwaisi_assistant.Human.{HumanConfig, Answer, answered}
use liwaisi_assistant.Human.Revision.{fire_hitl_with_revision}
use liwaisi_assistant.Human.Approved.{Reviewed, fire_hitl_with_revision-Reviewed}
use liwaisi_assistant.Schema.{ValidateConfig, corrections, strip_code_fences, fire_validate}
use liwaisi_assistant.Schema.Sound.{Guarded, fire_validate-Guarded}
use liwaisi_assistant.Base.Text.{trim_space}
use liwaisi_assistant.Schema.{after_newline, trim_fence}
use liwaisi_assistant.Scenarios.Data.{draft, merge, net}

abbrev said : HitlAction → Token
said a = record draft {
  color = human;
  payload = response (record { action = a; content = "shorter" });
}

abbrev person : ℕ → Answer
person zero = answered (said revise)
person (suc n) = answered (said approve)

abbrev reviser : ℕ → Transition → String → Result Error (String × ℕ)
reviser round t feedback = ok ("short", 3)

abbrev two_rounds : HumanConfig
two_rounds = record {
  has_channel = true;
  max_revisions = 2;
  correction_llm_id = "merge";
  surface = none;
  output_builder = none;
}

abbrev only_fixed : Payload → Option Error
only_fixed (text s) = if s == "fixed" then none else some (external 1)
only_fixed _ = some (external 2)

abbrev fixer : ℕ → Payload → Error → Result Error (String × ℕ)
fixer calls p e = ok ("```json\nfixed```", 5)

abbrev schema : ValidateConfig
schema = record {
  check = only_fixed;
  max_corrections = 40;
  correction_llm_id = "merge";
  on_success = none;
}

fenced : strip_code_fences "```json\nfixed```" ≡ "fixed"
unfolding strip_code_fences trim_space after_newline trim_fence
fenced = refl

fire_hitl_with_revision-Reviewed_example :
    Reviewed person 2 merge net.places
      (fire_hitl_with_revision 9 ◌+◌ person reviser two_rounds merge net)
fire_hitl_with_revision-Reviewed_example =
    fire_hitl_with_revision-Reviewed 9 ◌+◌ person reviser two_rounds merge net

fire_validate-Guarded_example :
    (corrections schema ≤ 10)
    × Guarded 9
        (corrections schema)
        schema
        draft.color
        merge
        net
        (fire_validate 9 ◌+◌ (λ n. none) fixer (some schema) merge (draft ∷ []) net)
fire_validate-Guarded_example =
    fire_validate-Guarded 9 ◌+◌ (λ n. none) fixer schema merge draft [] net
