-- ===== src/Gate/Remember.antt =====
-- What "approve and remember" of back/go-assistant/infra/host/gate/hitl.go changes in the decisions of
-- policy_gate.go.
use liwaisi_assistant.Base.{String, true, none, some, ◌≡◌, refl, ◌⊎◌}
use liwaisi_assistant.Gate.Matcher.{matched_text, normalise_command}
use liwaisi_assistant.Gate.Policy.{Pattern, HostPolicy, caution_risk, unknown_risk}
use liwaisi_assistant.Gate.Decisions.{GateOp, Gate, policy_of, target_of, estimate_of, unapproved}
use liwaisi_assistant.Gate.Evaluate.{over_budget, sandbox_ready, band_of}
use liwaisi_assistant.Gate.Learning.{learned}

abbrev pub with_policy : HostPolicy → Gate → Gate
with_policy p g = record g { policies = some p }

-- The pattern brings this operation's band to pass: it was unknown, or caution.
unfoldable pub Learned : Gate → Pattern → GateOp → Type 0
Learned g t op =
    ((band_of g op ≡ unknown_risk) × (t (matched_text (target_of op)) ≡ true))
    ⊎ ((band_of g op ≡ caution_risk) × (t (normalise_command (target_of op)) ≡ true))

-- What is asked besides the band, and by every operation but a kill.
abbrev pub Unhindered : Gate → String → GateOp → Type 0
Unhindered g session op =
    (over_budget g session op ≡ none) × (sandbox_ready g op ≡ true) × (unapproved g op ≡ none)

Unhindered-learned :
    (s : String) (t : Pattern) (p : HostPolicy) (g : Gate) (session : String) (op : GateOp)
    → Unhindered (with_policy (learned s t p) g) session op
      ≡ Unhindered (with_policy p g) session op
unfolding over_budget sandbox_ready unapproved policy_of estimate_of
Unhindered-learned s t p g session op = refl
