-- ===== src/Gate/Audit.antt =====
-- back/go-assistant/infra/host/gate/policy_gate.go: newAuditRecord, auditAsync and AuditDecision. The
-- record's id and time are left out, and the command stands for its checksum.
use liwaisi_assistant.Base.{String, List, [], ◌∷◌, if◌then◌else◌}
use liwaisi_assistant.Gate.Matcher.{normalise_command}
use liwaisi_assistant.Gate.Policy.{RiskBand}
use liwaisi_assistant.Gate.Decisions.{Verdict, GateOp, Decision, Gate}

-- A GateDecisionRecord, with the command that the checksum is taken of.
pub record DecisionRecord : Type 0 where
  pub session : String
  pub op_kind : String
  pub command_key : String
  pub path : String
  pub sandbox : String
  pub decision : Verdict
  pub reason : String
  pub risk_band : RiskBand
  pub response_id : String

-- What the calls hand over, in order: a record to the audit's queue, whose workers write it or drop it,
-- a record that is written, and an approved row of the first-run ledger.
pub data Effect : Type 0 where
  submitted audited : DecisionRecord → Effect
  approved_binary : (host sum user : String) → Effect

unfoldable pub audit_record : Decision → GateOp → String → DecisionRecord
audit_record d op response_id = record {
  session = d.session;
  op_kind = op.kind;
  command_key = normalise_command op.command;
  path = op.path;
  sandbox = d.sandbox;
  decision = d.verdict;
  reason = d.reason;
  risk_band = d.risk_band;
  response_id = response_id;
}

-- auditAsync, up to the call of Submit: nothing for a gate without a store of decisions.
unfoldable pub audit_async : Gate → Decision → GateOp → List Effect
audit_async g d op = if g.audits then submitted (audit_record d op "") ∷ [] else []

-- AuditDecision; its error is dropped by the callers.
unfoldable pub audit_decision : Gate → Decision → GateOp → (response_id : String) → List Effect
audit_decision g d op response_id =
    if g.audits then audited (audit_record d op response_id) ∷ [] else []
