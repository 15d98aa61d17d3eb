-- ===== src/Scenarios/Gateway.antt =====
-- A gate with a small policy, and its theorems at it: back/go-assistant/infra/host/gate.
use Prim.Native.String.{◌++◌ as ◌^◌}
use liwaisi_assistant.Base.{
  String, true, false, Option, none, some, [], ◌∷◌, ◌≡◌, ◌≢◌, refl, ◌↔◌, ◌⊎◌, ok, ◌==◌,
}
use liwaisi_assistant.Base.Text.{cut_at_space, trim_space}
use liwaisi_assistant.Gate.Matcher.{matched_text}
use liwaisi_assistant.Gate.Policy.{
  finalize, compile_all, classify, matches, Compile, Pattern, HostPolicy, empty_policy,
  compile_band, forbidden_risk,
}
use liwaisi_assistant.Gate.Budget.{Budget}
use liwaisi_assistant.Gate.Decisions.{
  allow, deny, require_hitl, GateOp, Gate, session_of, target_of, policy_of, awakening_denies,
}
use liwaisi_assistant.Gate.Audit.{audit_async}
use liwaisi_assistant.Gate.Evaluate.{evaluate, band_of, record_usage}
use liwaisi_assistant.Gate.Approval.{Router, pattern_of, blacklist, guard_op}
use liwaisi_assistant.Gate.Allows.{Cleared, evaluate-allow_iff}
use liwaisi_assistant.Gate.Blacklist.{blacklist-forbidden_iff}
use liwaisi_assistant.Gate.Passing.{Approved, denied_with, guard_op-passes_iff, guard_op-forbidden}
use liwaisi_assistant.Gate.Charges.{charged, evaluate-record_usage}

-- A regular expression that stands for one command, as the gate writes it.
unfoldable literal : String → Pattern
literal s x = s == "^" ^ x ^ "($|\\s)"

abbrev literals : Compile
literals s = some (literal s)

abbrev exec_op : String → GateOp
exec_op command = record {
  kind = "exec";
  command = command;
  path = "";
  sandbox = "none";
  session = "";
}

abbrev test_policy : HostPolicy
test_policy = record empty_policy {
  defaults = record {
    sandbox = "none";
    cpu_seconds_budget = 10;
    bytes_written_budget = 100;
    outbound_requests_budget = 5;
  };
  forbidden_pat = "^halt($|\\s)" ∷ [];
  forbidden = some (record { raw = "^halt($|\\s)" ∷ []; compiled = literal "^halt($|\\s)" ∷ [] });
  caution = some (record { raw = "^apt($|\\s)" ∷ []; compiled = literal "^apt($|\\s)" ∷ [] });
}

abbrev test_gate : Gate
test_gate = record {
  compile = literals;
  policies = some test_policy;
  first_run = none;
  budgets = [];
  available = λ runtime. false;
  estimator = none;
  awakening = none;
  host = "host";
  audits = true;
}

abbrev yes_router : Option Router
yes_router = some (record {
  publish = λ p. none;
  await = ok (record { action = "approve-once"; response_id = "r1" });
})

abbrev usage : Budget
usage = record { cpu_seconds = 7; bytes_written = 0; outbound_requests = 0 }

evaluate-allow_iff_example : ((evaluate test_gate "s1" (exec_op "apt")).verdict ≡ allow) ↔ (
    (awakening_denies test_gate (session_of "s1") (exec_op "apt") ≡ false)
    × (((("exec" == "kill")) ≡ true) ⊎ Cleared test_gate (session_of "s1") (exec_op "apt")))
evaluate-allow_iff_example = evaluate-allow_iff test_gate "s1" (exec_op "apt")

blacklist-forbidden_iff_example :
    (band_of (blacklist (exec_op "apt") test_gate).1 (exec_op "apt") ≡ forbidden_risk) ↔ (
      (band_of test_gate (exec_op "apt") ≡ forbidden_risk)
      ⊎ (literal (pattern_of (exec_op "apt")) (matched_text (target_of (exec_op "apt"))) ≡ true))
unfolding blacklist finalize compile_band compile_all
blacklist-forbidden_iff_example =
    blacklist-forbidden_iff test_policy (literal (pattern_of (exec_op "apt"))) (exec_op "apt")
      test_gate refl refl refl refl (exec_op "apt")

guard_op-passes_iff_example :
    ((guard_op "s1" (exec_op "apt") yes_router test_gate).result ≡ none) ↔ (
      ((evaluate test_gate "s1" (exec_op "apt")).verdict ≡ allow)
      ⊎ (((evaluate test_gate "s1" (exec_op "apt")).verdict ≡ require_hitl)
          × Approved (evaluate test_gate "s1" (exec_op "apt")) yes_router))
guard_op-passes_iff_example = guard_op-passes_iff "s1" (exec_op "apt") yes_router test_gate

halt_forbidden : band_of test_gate (exec_op "halt") ≡ forbidden_risk
unfolding band_of classify matches matched_text policy_of literal cut_at_space trim_space target_of
halt_forbidden = refl

guard_op-forbidden_example :
    ((evaluate test_gate "s1" (exec_op "halt")).verdict ≡ deny)
    × (guard_op "s1" (exec_op "halt") yes_router test_gate
        ≡ denied_with
            (audit_async test_gate (evaluate test_gate "s1" (exec_op "halt")) (exec_op "halt"))
            test_gate)
guard_op-forbidden_example =
    guard_op-forbidden "s1" (exec_op "halt") yes_router test_gate refl halt_forbidden

charged_other : charged (exec_op "apt") ≢ session_of "s1"
unfolding session_of
charged_other h = cc

evaluate-record_usage_example :
    evaluate (record_usage (exec_op "apt") usage test_gate) "s1" (exec_op "apt")
    ≡ evaluate test_gate "s1" (exec_op "apt")
evaluate-record_usage_example =
    evaluate-record_usage (exec_op "apt") usage test_gate "s1" (exec_op "apt") charged_other
