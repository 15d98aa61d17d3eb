-- ===== src/Gate/Evaluate.antt =====
-- back/go-assistant/infra/host/gate/policy_gate.go: Evaluate, Check and RecordActual.
use Prim.Native.String.{◌++◌ as ◌^◌}
use liwaisi_assistant.Base.{
  String, Bool, true, false, ◌&&◌, ◌||◌, not, Option, none, some, List, [], ◌∷◌, if◌then◌else◌,
  ◌==◌,
}
use liwaisi_assistant.Gate.Matcher.{normalise_command}
use liwaisi_assistant.Gate.Policy.{
  GateError, gate_denied, RiskBand, safe_risk, caution_risk, dangerous_risk, forbidden_risk,
  unknown_risk, classify, matches,
}
use liwaisi_assistant.Gate.Budget.{Budget, check_estimate, record_actual}
use liwaisi_assistant.Gate.Audit.{Effect, audit_async}
use liwaisi_assistant.Gate.Decisions.{
  allow, deny, require_hitl, GateOp, HostApprovalPrompt, Decision, Gate, policy_of, session_of,
  resolve_sandbox, sandbox_available, trunc_sha, target_of, estimate_of, unapproved,
  awakening_denies, approval_choices, ask, start,
}

abbrev pub denied : RiskBand → String → Decision → Decision
denied band reason d = record d { verdict = deny; risk_band = band; reason = reason }

abbrev pub allowed : RiskBand → String → Decision → Decision
allowed band reason d = record d { verdict = allow; risk_band = band; reason = reason }

abbrev pub asked : HostApprovalPrompt → String → Decision → Decision
asked p reason d = record d {
  verdict = require_hitl;
  risk_band = p.risk_band;
  reason = reason;
  prompt = some p;
}

-- Steps 6 to 8: what the band alone decides.
abbrev pub by_band : Gate → GateOp → RiskBand → Decision → Decision
by_band g op safe_risk d = allowed safe_risk "command matches safe_patterns" d
by_band g op caution_risk d =
    if matches (policy_of g).safe (normalise_command (target_of op))
    then allowed caution_risk "caution overridden by learned safe pattern" d
    else asked
        (ask op caution_risk "Caution-band command requires explicit approval." approval_choices)
        "command matches caution_patterns" d
by_band g op _ d =
    asked (ask op unknown_risk "Command not in any policy bucket." approval_choices)
      "command not in any pattern (default deny)" d

abbrev pub is_dangerous : RiskBand → Bool
is_dangerous dangerous_risk = true
is_dangerous _ = false

abbrev pub is_forbidden : RiskBand → Bool
is_forbidden forbidden_risk = true
is_forbidden _ = false

abbrev pub by_ledger : Gate → GateOp → RiskBand → Decision → Decision
by_ledger g op band d = elim (unapproved g op) [
  | none ↦ by_band g op band d
  | some sum ↦
      record (asked
        (ask op band ("Binary first-seen on this host (sha256=" ^ trunc_sha sum ^ "...).")
          approval_choices)
        "first_run_unapproved" d) { first_run = true }
]

-- Steps 4 to 8.
abbrev pub by_danger : Gate → GateOp → RiskBand → Decision → Decision
by_danger g op band d =
    if is_dangerous band
    then asked (ask op dangerous_risk "Dangerous pattern — approval does not stick." [])
        "command matches dangerous_patterns" d
    else by_ledger g op band d

abbrev pub wants_sandbox : String → Bool
wants_sandbox profile = not (profile == "none") && not (profile == "")

-- The profile that the operation runs under can be had, or it needs no sandbox.
unfoldable pub sandbox_ready : Gate → GateOp → Bool
unfolding resolve_sandbox sandbox_available
sandbox_ready g op =
    let profile = resolve_sandbox op (policy_of g) in
    not (wants_sandbox profile) || sandbox_available g.available profile (policy_of g)

-- Steps 3 to 8.
abbrev pub by_sandbox : Gate → GateOp → RiskBand → Decision → Decision
by_sandbox g op band d =
    if sandbox_ready g op then by_danger g op band d else denied band "sandbox_unavailable" d

unfoldable pub over_budget : Gate → String → GateOp → Option String
over_budget g session op =
    check_estimate session (policy_of g).defaults (estimate_of g op) g.budgets

-- Steps 2 to 8.
abbrev pub by_budget : Gate → GateOp → RiskBand → Option String → Decision → Decision
by_budget g op band over d = elim over [
  | none ↦ by_sandbox g op band d
  | some reason ↦
      asked
        (ask op band ("Session budget exhausted: " ^ reason)
          ("raise-budget" ∷ "terminate-task" ∷ []))
        reason d
]

unfoldable pub band_of : Gate → GateOp → RiskBand
band_of g op = classify (policy_of g) (target_of op)

-- What Evaluate decides, by the budget's objection.
abbrev pub decide : Gate → String → GateOp → Option String → Decision
decide g session op over =
    let d = start g session op in
    let band = band_of g op in
    if awakening_denies g session op
    then denied forbidden_risk "awakening mode: command outside introspection allow-list" d
    else if op.kind == "kill"
    then allowed safe_risk "kill allowed" d
    else if is_forbidden band
    then denied forbidden_risk "command matches forbidden_patterns" d
    else by_budget g op band over (record d { risk_band = band; budget = estimate_of g op })

-- Evaluate.
unfoldable pub evaluate : Gate → (resolved : String) → GateOp → Decision
unfolding session_of
evaluate g resolved op =
    let session = session_of resolved in decide g session op (over_budget g session op)

-- What Check returns: nothing, a refusal, or the decision to put to the user.
pub data Checked : Type 0 where
  passed : Checked
  refused : GateError → Checked
  requires_hitl : Decision → Checked

-- Check, with what it hands to the audit before it answers.
unfoldable pub check : Gate → String → GateOp → Checked × List Effect
check g resolved op = let d = evaluate g resolved op in (of_verdict d, audit_async g d op)
  where
    of_verdict : Decision → Checked
    of_verdict d = elim (d.verdict) [
      | allow ↦ passed
      | deny ↦ refused gate_denied
      | require_hitl ↦ requires_hitl d
    ]

-- RecordActual, for a gate with its tracker.
unfoldable pub record_usage : GateOp → Budget → Gate → Gate
record_usage op actual g =
    let session = if op.session == "" then "unknown" else op.session in
    record g { budgets = record_actual session actual g.budgets }
