-- ===== src/Gate/Charges.antt =====
-- What RecordActual of back/go-assistant/infra/host/gate/policy_gate.go changes in later decisions.
use liwaisi_assistant.Base.{
  String, none, some, ◌≡◌, ap, ◌∙◌, ◌≢◌, ◌==◌, lookup, lookup-insert, ==-of_ne, if◌then◌else◌,
}
use liwaisi_assistant.Gate.Budget.{
  Budget, no_budget, exceeded, plus_usage, Budgets, current, check_estimate, record_actual,
}
use liwaisi_assistant.Gate.Decisions.{
  GateOp, Gate, session_of, estimate_of, policy_of, awakening_denies, unapproved,
}
use liwaisi_assistant.Gate.Evaluate.{
  evaluate, decide, record_usage, over_budget, band_of, sandbox_ready,
}

-- The session that RecordActual charges.
abbrev pub charged : GateOp → String
charged op = if op.session == "" then "unknown" else op.session

current-record_actual :
    (session other : String) (actual : Budget) (m : Budgets)
    → session ≢ other
    → current other (record_actual session actual m) ≡ current other m
unfolding current record_actual
current-record_actual session other actual m distinct =
    ap (λ o. elim o [ none ↦ no_budget | some b ↦ b ])
      (lookup-insert session other (plus_usage (current session m) actual) m
        ∙ ap (λ same. if same then some (plus_usage (current session m) actual) else lookup other m)
            (==-of_ne session other distinct))

over_budget-record_usage :
    (op : GateOp) (actual : Budget) (g : Gate) (session : String) (other : GateOp)
    → charged op ≢ session
    → over_budget (record_usage op actual g) session other ≡ over_budget g session other
unfolding record_usage over_budget check_estimate policy_of estimate_of
over_budget-record_usage op actual g session other distinct =
    ap (exceeded (policy_of g).defaults (estimate_of g other))
      (current-record_actual (charged op) session actual g.budgets distinct)

-- The usage of one operation changes no decision for a session other than the one that it is charged
-- to: the operation's own, or "unknown" where it names none.
pub evaluate-record_usage :
    (op : GateOp) (actual : Budget) (g : Gate) (resolved : String) (other : GateOp)
    → charged op ≢ session_of resolved
    → evaluate (record_usage op actual g) resolved other ≡ evaluate g resolved other
unfolding evaluate record_usage policy_of estimate_of awakening_denies band_of sandbox_ready
    unapproved
evaluate-record_usage op actual g resolved other distinct =
    ap (decide g (session_of resolved) other)
      (over_budget-record_usage op actual g (session_of resolved) other distinct)
