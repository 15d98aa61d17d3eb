-- ===== src/Gate/Decisions.antt =====
-- back/go-assistant/infra/host/gate/types.go and policy_gate.go, with GateOp of cpn/host.go: the
-- decision on one operation of the host. The lookup of the first-run ledger, the capability that finds
-- sandbox runtimes and the estimator are parameters of the gate.
use Prim.Native.String.{◌++◌ as ◌^◌}
use liwaisi_assistant.Base.{
  ℕ, zero, suc, String, Bool, false, ◌&&◌, ◌||◌, not, Option, none, some, List, [], ◌∷◌, lookup,
  is_some, if◌then◌else◌, ◌==◌,
}
use liwaisi_assistant.Gate.Policy.{
  Compile, SandboxMapping, HostPolicy, empty_policy, finalize, RiskBand, unknown_risk,
}
use liwaisi_assistant.Gate.Budget.{Budget, no_budget, Budgets, default_estimate}
use liwaisi_assistant.Gate.Introspection.{Awakening, is_awakening, is_introspection}

pub data Verdict : Type 0 where
  allow deny require_hitl : Verdict

pub record GateOp : Type 0 where
  pub kind : String
  pub command : String
  pub path : String
  pub sandbox : String
  pub session : String

pub record HostApprovalPrompt : Type 0 where
  pub schema : String
  pub operation : String
  pub command : String
  pub risk_band : RiskBand
  pub rationale : String
  pub alternatives : List String

pub record Decision : Type 0 where
  pub verdict : Verdict
  pub risk_band : RiskBand
  pub reason : String
  pub sandbox : String
  pub budget : Budget
  pub prompt : Option HostApprovalPrompt
  pub first_run : Bool
  pub session : String

pub record LedgerEntry : Type 0 where
  pub revoked : Bool
  pub first_approved_at : Option ℕ

-- firstRunLookup: an error, or the binary's checksum with its entry.
pub data Lookup : Type 0 where
  lookup_failed : Lookup
  looked_up : (sum : String) → Option LedgerEntry → Lookup

-- A PolicyHostGate: a holder or a ledger that is nil is none.
pub record Gate : Type 0 where
  pub compile : Compile
  pub policies : Option HostPolicy
  pub first_run : Option (String → Lookup)
  pub budgets : Budgets
  pub available : String → Bool
  pub estimator : Option (GateOp → Budget)
  pub awakening : Awakening
  pub host : String
  -- `Decisions` is there.
  pub audits : Bool

unfoldable pub policy_of : Gate → HostPolicy
policy_of g = elim g.policies [ none ↦ (finalize g.compile empty_policy).1 | some p ↦ p ]

-- The session that the context's resolver gives, "" where it has none.
unfoldable pub session_of : (resolved : String) → String
session_of resolved = if resolved == "" then "default" else resolved

unfoldable pub resolve_sandbox : GateOp → HostPolicy → String
resolve_sandbox op p = if op.sandbox == "" then p.defaults.sandbox else op.sandbox

abbrev pub default_mapping : SandboxMapping
default_mapping = record { preferred = "bwrap"; fallback = "firejail" }

abbrev pub mapping_of : String → HostPolicy → SandboxMapping
mapping_of profile p = elim (lookup profile p.sandbox_mappings) [
  | none ↦ default_mapping
  | some mapping ↦ mapping
]

unfoldable pub sandbox_available : (available : String → Bool) → String → HostPolicy → Bool
sandbox_available available profile p =
    let mapping = mapping_of profile p in
    available mapping.preferred || (not (mapping.fallback == "") && available mapping.fallback)

unfoldable pub display_command : GateOp → String
display_command op =
    if not (op.command == "")
    then op.command
    else if not (op.path == "")
    then op.kind ^ " " ^ op.path
    else op.kind

abbrev pub take_text : ℕ → String → String
take_text zero s = String.[]
take_text (suc n) String.[] = String.[]
take_text (suc n) (String.◌∷◌ c s) = String.◌∷◌ c (take_text n s)

abbrev pub trunc_sha : String → String
trunc_sha sum = take_text 12 sum

-- exec and spawn_pty, the operations that run a binary.
abbrev pub runs_binary : GateOp → Bool
runs_binary op = op.kind == "exec" || op.kind == "spawn_pty"

unfoldable pub target_of : GateOp → String
target_of op =
    if op.kind == "write_file" || op.kind == "read_file"
    then op.kind ^ ": " ^ op.path
    else op.command

unfoldable pub estimate_of : Gate → GateOp → Budget
estimate_of g op = elim g.estimator [ none ↦ default_estimate | some estimate ↦ estimate op ]

unfoldable pub entry_approved : Option LedgerEntry → Bool
entry_approved none = false
entry_approved (some e) = not e.revoked && is_some e.first_approved_at

-- The checksum of a binary that the ledger does not approve; nothing where the gate goes on.
unfoldable pub unapproved : Gate → GateOp → Option String
unfolding entry_approved
unapproved g op = elim g.first_run [
  | none ↦ none
  | some find ↦
      if runs_binary op && not (op.command == "") then of_lookup (find op.command) else none
]
  where
    of_lookup : Lookup → Option String
    of_lookup lookup_failed = none
    of_lookup (looked_up sum entry) = if entry_approved entry then none else some sum

-- The session runs brae-awakens, and the command is not one for looking around.
unfoldable pub awakening_denies : Gate → String → GateOp → Bool
awakening_denies g session op =
    is_awakening session g.awakening && runs_binary op && not (is_introspection op.command)

abbrev pub approval_choices : List String
approval_choices = "approve-once" ∷ "approve-and-remember" ∷ "deny" ∷ []

abbrev pub ask : GateOp → RiskBand → String → List String → HostApprovalPrompt
ask op band rationale alternatives = record {
  schema = "host.approval";
  operation = op.kind;
  command = display_command op;
  risk_band = band;
  rationale = rationale;
  alternatives = alternatives;
}

abbrev pub start : Gate → String → GateOp → Decision
start g session op = record {
  verdict = deny;
  risk_band = unknown_risk;
  reason = "";
  sandbox = resolve_sandbox op (policy_of g);
  budget = no_budget;
  prompt = none;
  first_run = false;
  session = session;
}
