-- ===== src/Gate/Passing.antt =====
-- Which operations of the host pass the gate and the user: back/go-assistant/infra/host/gate/hitl.go,
-- session_router.go and policy_gate.go.
use liwaisi_assistant.Base.{
  ℕ, String, true, false, Option, none, some, List, ◌≡◌, refl, ap, ok, err, ◌↔◌, ◌⊎◌, inl, inr,
  arith, ◌==◌, Option-cases, Bool-cases, Result, append_nil,
}
use liwaisi_assistant.Gate.Policy.{forbidden_risk, gate_denied}
use liwaisi_assistant.Gate.Decisions.{
  Verdict, allow, deny, require_hitl, Decision, GateOp, Gate, session_of, awakening_denies,
}
use liwaisi_assistant.Gate.Audit.{Effect, audit_async}
use liwaisi_assistant.Gate.Evaluate.{evaluate, check, band_of}
use liwaisi_assistant.Gate.Approval.{
  Outcome, Response, Router, take_response, await_response, handle_requires_hitl, handle_hitl,
  guard_op, prompt_of,
}

-- The user approved: once, or to be remembered.
unfoldable pub Approves : Response → Type 0
Approves resp =
    ((resp.action == "approve-once") ≡ true) ⊎ ((resp.action == "approve-and-remember") ≡ true)

-- The decision's prompt was published, and the answer that came approves.
unfoldable pub Approved : Decision → Option Router → Type 0
Approved d none = ⊥
Approved d (some r) =
    (r.publish (prompt_of d) ≡ none) × ((resp : Response) × (r.await ≡ ok resp) × Approves resp)

take_response-passes :
    (d : Decision) (op : GateOp) (resp : Response) (g : Gate)
    → ((take_response d op resp g).result ≡ none) ↔ Approves resp
unfolding take_response Approves
take_response-passes d op resp g = ground arith

handle_requires_hitl-passes :
    (d : Decision) (op : GateOp) (r : Option Router) (g : Gate)
    → ((handle_requires_hitl d op r g).result ≡ none) ↔ Approved d r
unfolding handle_requires_hitl Approved
handle_requires_hitl-passes d op none g = ground arith
handle_requires_hitl-passes d op (some r) g = elim (Option-cases (r.publish (prompt_of d))) [
  | inr (n, e) ↦ rw (e, handle_requires_hitl) ground arith
  | inl e ↦ rw (e, handle_requires_hitl) ground (arith, answered r.await)
]
  where
    same :
        (resp other : Response)
        → ◌≡◌ {A = Result ℕ Response} (ok resp) (ok other)
        → Approves other
        → Approves resp
    same resp other e approved = let eq : other ≡ resp = cc in rw (← eq) approved

    answered :
        (a : Result ℕ Response)
        → ((await_response d op a g).result ≡ none)
          ↔ (((resp : Response) × (a ≡ ok resp) × Approves resp))
    answered (err n) = ground arith
    answered (ok resp) = (
      λ h. (resp, refl, (take_response-passes d op resp g).0 h),
      λ approved. (take_response-passes d op resp g).1 (same resp approved.0 approved.1 approved.2),
    )

-- An operation of the host passes exactly if the gate allows it, or the gate puts it to the user, the
-- prompt gets out and the answer that comes approves it: never without an answer, and never where the
-- gate denies.
pub guard_op-passes_iff :
    (resolved : String) (op : GateOp) (r : Option Router) (g : Gate)
    → ((guard_op resolved op r g).result ≡ none) ↔ (
        ((evaluate g resolved op).verdict ≡ allow)
        ⊎ (((evaluate g resolved op).verdict ≡ require_hitl) × Approved (evaluate g resolved op) r))
unfolding guard_op handle_hitl check
guard_op-passes_iff resolved op r g = by_verdict (evaluate g resolved op).verdict refl
  where
    by_verdict :
        (v : Verdict)
        → (evaluate g resolved op).verdict ≡ v
        → ((guard_op resolved op r g).result ≡ none) ↔ (
            ((evaluate g resolved op).verdict ≡ allow)
            ⊎ (((evaluate g resolved op).verdict ≡ require_hitl)
                × Approved (evaluate g resolved op) r))
    by_verdict allow h = rw (h) ground arith
    by_verdict deny h = rw (h) ground arith
    by_verdict require_hitl h =
        rw (h) ground (arith, handle_requires_hitl-passes (evaluate g resolved op) op r g)

-- A refusal by the gate, with what was handed over before it.
abbrev pub denied_with : List Effect → Gate → Outcome
denied_with es g = record { result = some gate_denied; gate = g; effects = es }

-- An operation in the forbidden band that is no kill is refused whatever the user would answer: the
-- decision is a denial, nothing is handed over but its record to the audit's queue, and that only by a
-- gate with a store of decisions, and the gate stays as it is.
pub guard_op-forbidden :
    (resolved : String) (op : GateOp) (r : Option Router) (g : Gate)
    → (op.kind == "kill") ≡ false
    → band_of g op ≡ forbidden_risk
    → ((evaluate g resolved op).verdict ≡ deny)
      × (guard_op resolved op r g ≡ denied_with (audit_async g (evaluate g resolved op) op) g)
unfolding guard_op handle_hitl check evaluate
guard_op-forbidden resolved op r g alive band =
    elim (Bool-cases (awakening_denies g (session_of resolved) op)) [
      | inl a ↦ rw (a) (refl, ap (λ es. denied_with es g) (append_nil _))
      | inr a ↦ rw (a, alive, band) (refl, ap (λ es. denied_with es g) (append_nil _))
    ]
