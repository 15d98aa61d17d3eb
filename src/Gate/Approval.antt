-- ===== src/Gate/Approval.antt =====
-- back/go-assistant/infra/host/gate/hitl.go and session_router.go: the user's answer on an operation
-- that the gate puts to the user. The bus that the card is published on, JSON and the audit's checksum
-- are left out; what the calls write is listed in order.
use Prim.Native.Char.{code}
use Prim.Native.String.{◌++◌ as ◌^◌}
use liwaisi_assistant.Base.{
  ℕ, String, Bool, Option, none, some, List, [], ◌∷◌, ◌++◌, Result, ok, err, any, nat_eq,
  if◌then◌else◌, ◌==◌,
}
use liwaisi_assistant.Token.{Token, HitlAction, HitlResponse, approve, reject, response}
use liwaisi_assistant.Gate.Matcher.{normalise_command}
use liwaisi_assistant.Gate.Policy.{
  GateError, gate_denied, router_missing, publish_failed, await_failed, no_policy_holder, finalize,
  append_learned_safe_pattern, unknown_risk,
}
use liwaisi_assistant.Gate.Decisions.{
  allow, deny, GateOp, HostApprovalPrompt, Decision, Lookup, lookup_failed, looked_up, Gate,
}
use liwaisi_assistant.Gate.Audit.{Effect, approved_binary, audit_decision}
use liwaisi_assistant.Gate.Evaluate.{Checked, passed, refused, requires_hitl, check}

pub record Response : Type 0 where
  pub action : String
  pub response_id : String

abbrev pub is_meta : ℕ → Bool
is_meta c = any (nat_eq c) (
    b'\\' ∷ b'.' ∷ b'+' ∷ b'*' ∷ b'?' ∷ b'(' ∷ b')' ∷ b'|' ∷ b'[' ∷ b']' ∷ b'{' ∷ b'}' ∷ b'^' ∷ b'$'
    ∷ [])

unfoldable pub regexp_quote : String → String
regexp_quote String.[] = String.[]
regexp_quote (String.◌∷◌ c s) =
    let rest = regexp_quote s in
    if is_meta (code c) then String.◌∷◌ "\\" (String.◌∷◌ c rest) else String.◌∷◌ c rest

-- The pattern of one command.
unfoldable pub pattern_of : GateOp → String
pattern_of op = "^" ^ regexp_quote (normalise_command op.command) ^ "($|\\s)"

unfoldable pub remember_approval : GateOp → Gate → Option GateError × Gate
remember_approval op g = elim (g.policies) [
  | none ↦ (some no_policy_holder, g)
  | some p ↦ elim (append_learned_safe_pattern g.compile (pattern_of op) p) [
    | err e ↦ (some e, g)
    | ok p' ↦ (none, record g { policies = some p' })
  ]
]

-- The policy is changed in place, whether or not its patterns compile.
unfoldable pub blacklist : GateOp → Gate → Option GateError × Gate
blacklist op g = elim (g.policies) [
  | none ↦ (some no_policy_holder, g)
  | some p ↦
      let step =
        finalize g.compile (record p { forbidden_pat = p.forbidden_pat ++ pattern_of op ∷ [] }) in
      (step.0, record g { policies = some step.1 })
]

pub record Outcome : Type 0 where
  pub result : Option GateError
  pub gate : Gate
  pub effects : List Effect

-- The ledger's row that an approved first run writes.
unfoldable pub approve_first_run : Decision → GateOp → Response → Gate → List Effect
approve_first_run d op resp g =
    if d.first_run
    then elim g.first_run [ none ↦ [] | some find ↦ of_lookup (find op.command) ]
    else []
  where
    of_lookup : Lookup → List Effect
    of_lookup lookup_failed = []
    of_lookup (looked_up sum entry) = approved_binary g.host sum resp.response_id ∷ []

abbrev pub allow_op : String → Decision → GateOp → Response → Gate → Outcome
allow_op reason d op resp g = record {
  result = none;
  gate = g;
  effects =
      audit_decision g (record d { verdict = allow; reason = reason }) op resp.response_id
      ++ approve_first_run d op resp g;
}

abbrev pub deny_op : String → Decision → GateOp → Response → Gate → Outcome
deny_op reason d op resp g = record {
  result = some gate_denied;
  gate = g;
  effects = audit_decision g (record d { verdict = deny; reason = reason }) op resp.response_id;
}

-- The switch on the user's action.
unfoldable pub take_response : Decision → GateOp → Response → Gate → Outcome
take_response d op resp g =
    if resp.action == "approve-once"
    then allow_op "hitl_approve_once" d op resp g
    else if resp.action == "approve-and-remember"
    then allow_op "hitl_approve_and_remember" d op resp (remember_approval op g).1
    else if resp.action == "deny"
    then deny_op "hitl_deny" d op resp g
    else if resp.action == ""
    then deny_op "hitl_deny" d op resp g
    else if resp.action == "deny-and-blacklist"
    then deny_op "hitl_deny_and_blacklist" d op resp (blacklist op g).1
    else deny_op "hitl_unknown_action" d op resp g

-- A HITLRouter: what Publish and AwaitResponse return.
pub record Router : Type 0 where
  pub publish : HostApprovalPrompt → Option ℕ
  pub await : Result ℕ Response

abbrev pub no_prompt : HostApprovalPrompt
no_prompt = record {
  schema = "";
  operation = "";
  command = "";
  risk_band = unknown_risk;
  rationale = "";
  alternatives = [];
}

abbrev pub prompt_of : Decision → HostApprovalPrompt
prompt_of d = elim d.prompt [ none ↦ no_prompt | some p ↦ p ]

abbrev pub failed : GateError → Gate → Outcome
failed e g = record { result = some e; gate = g; effects = [] }

abbrev pub await_response : Decision → GateOp → Result ℕ Response → Gate → Outcome
await_response d op (err n) g = failed (await_failed n) g
await_response d op (ok resp) g = take_response d op resp g

-- HandleRequiresHITL.
unfoldable pub handle_requires_hitl : Decision → GateOp → Option Router → Gate → Outcome
handle_requires_hitl d op none g = record {
  result = some router_missing;
  gate = g;
  effects = audit_decision g (record d { verdict = deny; reason = "hitl_router_missing" }) op "";
}
handle_requires_hitl d op (some r) g = elim (r.publish (prompt_of d)) [
  | some n ↦ failed (publish_failed n) g
  | none ↦ await_response d op r.await g
]

-- SessionHITLHandler.HandleHITL on what Check returned.
unfoldable pub handle_hitl : GateOp → Option Router → Gate → Checked → Outcome
handle_hitl op r g passed = record { result = none; gate = g; effects = [] }
handle_hitl op r g (refused e) = failed e g
handle_hitl op r g (requires_hitl d) = handle_requires_hitl d op r g

-- One operation of the host: the check, then the user where the gate asks for one.
unfoldable pub guard_op : String → GateOp → Option Router → Gate → Outcome
guard_op resolved op r g =
    let (checked, noted) = check g resolved op in
    let o = handle_hitl op r g checked in record o { effects = noted ++ o.effects }

abbrev pub narrow_action : HitlAction → String
narrow_action approve = "approve-once"
narrow_action reject = "deny"
narrow_action _ = ""

abbrev pub extended_action : (parse : String → Option String) → HitlResponse → String
extended_action parse r =
    if r.content == ""
    then narrow_action r.action
    else elim (parse r.content) [ none ↦ narrow_action r.action | some action ↦ action ]

-- The user's action of a token; `parse` reads the field "action" of a JSON text.
unfoldable pub decode : (parse : String → Option String) → Token → Response
decode parse t = elim t.payload [
  | response r ↦ record { action = extended_action parse r; response_id = "" }
  | _ ↦ record { action = ""; response_id = "" }
]

-- SessionHITLRouter.AwaitResponse, when it returns: the context is cancelled, the channel is closed, or
-- a token is there.
pub data Delivery : Type 0 where
  cancelled : Delivery
  closed : Delivery
  delivered : Token → Delivery

unfoldable pub session_await : (parse : String → Option String) → Delivery → Result ℕ Response
unfolding decode
session_await parse cancelled = err 0
session_await parse closed = err 1
session_await parse (delivered t) = ok (decode parse t)
