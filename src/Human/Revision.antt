-- ===== src/Human/Revision.antt =====
-- back/go-assistant/cpn/hitl.go: fireHITLWithRevision, rounds of a person's answers with a model's
-- revisions between them. The call of the model (fireLLMDirect) is a parameter, with its cost.
use liwaisi_assistant.Base.{
  ℕ, zero, suc, String, not, none, some, Result, ok, err, lookup, if◌then◌else◌,
}
use liwaisi_assistant.Errors.{
  Error, timeout, hitl_misconfigured, hitl_channel_closed, hitl_closed, hitl_unsupported, not_human,
  hitl_rejected, hitl_max_revisions, correction_missing, unknown_action, revision_failed,
}
use liwaisi_assistant.Token.{
  hitl_requested, hitl_resolved, Token, Payload, HitlResponse, approve, reject, revise, submit,
  text, response, is_human_color,
}
use liwaisi_assistant.Retry.{Fired, failure_of}
use liwaisi_assistant.Transition.{Transition}
use liwaisi_assistant.Net.{Cpn, running, waiting, set_state, set_failed}
use liwaisi_assistant.Human.{
  HumanConfig, Answer, answered, channel_closed, context_done, tell_hitl, deposit_answer,
}

-- What the loop returns, with the number of the model's calls.
pub record Revised : Type 0 where
  pub fired : Fired
  pub net : Cpn
  pub calls : ℕ

abbrev pub stops : (cost calls : ℕ) → Error → Cpn → Revised
stops cost calls e c = record { fired = failure_of cost e; net = c; calls = calls }

-- The start of a round: the net waits, and the request is out.
unfoldable pub open_round : ℕ → Transition → Cpn → Cpn
open_round now t c = tell_hitl now t hitl_requested (set_state waiting c)

-- The approval of a token.
unfoldable pub approved : (now cost calls : ℕ) → Transition → Token → Cpn → Revised
approved now cost calls t tok c =
    let r = deposit_answer now cost t tok (tell_hitl now t hitl_resolved c) in
    record { fired = r.0; net = r.1; calls = calls }

-- The switch on the action; `again` is what a wish for revision leads to.
unfoldable pub act_on :
    (now cost calls : ℕ)
    → Transition
    → Token
    → Cpn
    → (again : String → Cpn → Revised) → HitlResponse
    → Revised
unfolding approved
act_on now cost calls t tok c again r = elim (r.action) [
  | approve ↦ approved now cost calls t tok c
  | reject ↦ stops cost calls hitl_rejected c
  | revise ↦ again r.content c
  | submit ↦ stops cost calls (unknown_action t.id) c
]

-- A bare text is an approval.
unfoldable pub take_payload :
    (now cost calls : ℕ)
    → Transition
    → Token
    → Cpn
    → (again : String → Cpn → Revised) → Payload
    → Revised
unfolding act_on
take_payload now cost calls t tok c again (response r) = act_on now cost calls t tok c again r
take_payload now cost calls t tok c again (text s) =
    act_on now cost calls t tok c again (record { action = approve; content = s })
take_payload now cost calls t tok c again _ = stops cost calls (hitl_unsupported t.id) c

-- One round, once its wait has ended.
unfoldable pub take_round :
    (now cost calls : ℕ) → Transition → Cpn → (again : String → Cpn → Revised) → Answer → Revised
unfolding take_payload
take_round now cost calls t c again channel_closed =
    stops cost calls (hitl_channel_closed t.id) (set_failed hitl_closed c)
take_round now cost calls t c again context_done = stops cost calls timeout (set_failed timeout c)
take_round now cost calls t c again (answered tok) =
    if not (is_human_color tok.color)
    then stops cost calls not_human c
    else take_payload now cost calls t tok (set_state running c) again tok.payload

-- A revision by the model, and the rounds after it.
abbrev pub revise_by :
    (plus : ℕ → ℕ → ℕ)
    (correct : (round : ℕ) → Transition → (feedback : String) → Result Error (String × ℕ))
    (rounds cost : ℕ)
    → HumanConfig
    → Transition
    → (later : (cost : ℕ) → Cpn → Revised) → String
    → Cpn
    → Revised
revise_by plus correct rounds cost cfg t later s c =
    elim (lookup cfg.correction_llm_id c.transitions) [
      | none ↦ stops cost rounds (correction_missing t.id) c
      | some corr ↦ elim (correct rounds corr s) [
        | err e ↦ stops cost (suc rounds) (revision_failed rounds e) c
        | ok revised ↦ later (plus cost revised.1) c
      ]
    ]

module _ (now : ℕ) (plus : ℕ → ℕ → ℕ) (answers : (round : ℕ) → Answer)
    (correct : (round : ℕ) → Transition → (feedback : String) → Result Error (String × ℕ)) where
  -- The loop, with the number of revisions that are left, and that were made.
  unfoldable pub revise_loop : (left rounds cost : ℕ) → HumanConfig → Transition → Cpn → Revised
  unfolding take_round open_round
  revise_loop zero rounds cost cfg t c =
      take_round now cost rounds t (open_round now t c)
        (λ s c'. stops cost rounds hitl_max_revisions c') (answers rounds)
  revise_loop (suc left) rounds cost cfg t c =
      take_round now cost rounds t (open_round now t c)
        (revise_by plus correct rounds cost cfg t
          (λ cost' c'. revise_loop left (suc rounds) cost' cfg t c'))
        (answers rounds)

  -- fireHITLWithRevision.
  unfoldable pub fire_hitl_with_revision : HumanConfig → Transition → Cpn → Revised
  unfolding revise_loop
  fire_hitl_with_revision cfg t c =
      if not cfg.has_channel
      then stops 0 0 (hitl_misconfigured t.id) c
      else revise_loop cfg.max_revisions 0 0 cfg t c
