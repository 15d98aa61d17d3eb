-- ===== src/Gate/Allows.antt =====
-- When Evaluate of back/go-assistant/infra/host/gate/policy_gate.go allows an operation.
use liwaisi_assistant.Base.{
  String, true, false, none, ◌≡◌, ◌↔◌, ◌⊎◌, inl, inr, arith, ◌==◌, Bool-cases, Option-cases,
}
use liwaisi_assistant.Gate.Matcher.{normalise_command}
use liwaisi_assistant.Gate.Policy.{
  RiskBand, safe_risk, caution_risk, dangerous_risk, forbidden_risk, unknown_risk, matches,
}
use liwaisi_assistant.Gate.Decisions.{
  allow, Decision, GateOp, Gate, policy_of, session_of, target_of, unapproved, awakening_denies,
  start, estimate_of,
}
use liwaisi_assistant.Gate.Evaluate.{
  evaluate, by_budget, by_band, by_ledger, by_danger, over_budget, sandbox_ready, band_of,
  is_forbidden,
}

-- The last stage lets the band pass: safe, or caution with a safe pattern that matches.
unfoldable pub BandPasses : Gate → GateOp → RiskBand → Type 0
BandPasses g op band =
    (band ≡ safe_risk)
    ⊎ ((band ≡ caution_risk)
        × (matches (policy_of g).safe (normalise_command (target_of op)) ≡ true))

-- Budget, sandbox and first-run ledger do not stand in the way, and the band passes.
unfoldable pub Cleared : Gate → String → GateOp → Type 0
Cleared g session op =
    (over_budget g session op ≡ none)
    × (sandbox_ready g op ≡ true)
    × (unapproved g op ≡ none)
    × BandPasses g op (band_of g op)

by_band-allow :
    (g : Gate) (op : GateOp) (band : RiskBand) (d : Decision)
    → ((by_band g op band d).verdict ≡ allow) ↔ BandPasses g op band
unfolding BandPasses
by_band-allow g op safe_risk d = ground arith
by_band-allow g op caution_risk d = ground arith
by_band-allow g op dangerous_risk d = ground arith
by_band-allow g op forbidden_risk d = ground arith
by_band-allow g op unknown_risk d = ground arith

by_ledger-allow :
    (g : Gate) (op : GateOp) (band : RiskBand) (d : Decision)
    → ((by_ledger g op band d).verdict ≡ allow) ↔ ((unapproved g op ≡ none) × BandPasses g op band)
by_ledger-allow g op band d = elim (Option-cases (unapproved g op)) [
  | inl e ↦ rw (e) ground (arith, by_band-allow g op band d)
  | inr (sum, e) ↦ rw (e) ground arith
]

by_danger-allow :
    (g : Gate) (op : GateOp) (band : RiskBand) (d : Decision)
    → ((by_danger g op band d).verdict ≡ allow) ↔ ((unapproved g op ≡ none) × BandPasses g op band)
unfolding BandPasses
by_danger-allow g op safe_risk d = by_ledger-allow g op safe_risk d
by_danger-allow g op caution_risk d = by_ledger-allow g op caution_risk d
by_danger-allow g op dangerous_risk d = ground arith
by_danger-allow g op forbidden_risk d = by_ledger-allow g op forbidden_risk d
by_danger-allow g op unknown_risk d = by_ledger-allow g op unknown_risk d

by_budget-allow :
    (g : Gate) (session : String) (op : GateOp) (band : RiskBand) (d : Decision)
    → ((by_budget g op band (over_budget g session op) d).verdict ≡ allow) ↔ (
        (over_budget g session op ≡ none)
        × (sandbox_ready g op ≡ true)
        × (unapproved g op ≡ none)
        × BandPasses g op band)
by_budget-allow g session op band d = elim (Option-cases (over_budget g session op)) [
  | inl e ↦ elim (Bool-cases (sandbox_ready g op)) [
    | inl b ↦ rw (e, b) ground (arith, by_danger-allow g op band d)
    | inr b ↦ rw (e, b) ground arith
  ]
  | inr (reason, e) ↦ rw (e) ground arith
]

forbidden_stops :
    (g : Gate) (op : GateOp) (band : RiskBand) → is_forbidden band ≡ true → BandPasses g op band → ⊥
unfolding BandPasses
forbidden_stops g op band h p = ground arith

-- Evaluate allows an operation exactly if its session does not run brae-awakens or it only looks
-- around, and it is a kill, or the budget has room, the sandbox can be had, the first-run ledger does
-- not object and the risk band passes.
pub evaluate-allow_iff :
    (g : Gate) (resolved : String) (op : GateOp)
    → ((evaluate g resolved op).verdict ≡ allow) ↔ (
        (awakening_denies g (session_of resolved) op ≡ false)
        × (((op.kind == "kill") ≡ true) ⊎ Cleared g (session_of resolved) op))
unfolding evaluate Cleared
evaluate-allow_iff g resolved op = elim (Bool-cases (awakening_denies g (session_of resolved) op)) [
  | inl a ↦ rw (a) ground arith
  | inr a ↦ rw (a) ground (
    arith,
    forbidden_stops g op (band_of g op),
    by_budget-allow g (session_of resolved) op (band_of g op)
        (record (start g (session_of resolved) op) {
          risk_band = band_of g op;
          budget = estimate_of g op;
        }),
  )
]
