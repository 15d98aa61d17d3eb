-- ===== src/Runs/SameEnd.antt =====
-- A failed net has an error on record, and the calls that leave both alone (cpn/executor.go).
use liwaisi_assistant.Base.{
  ℕ, String, ◌≡◌, ◌≢◌, refl, sym, ap, ◌∙◌, inl, inr, not, ◌&&◌, none, List, [], ◌∷◌, Dict, lookup,
  modify, arith, Bool-cases, Option-cases, is_empty, is_some,
}
use liwaisi_assistant.Errors.{mutation_not_permitted}
use liwaisi_assistant.Token.{
  Event, Mode, mas, centaurian, mode_switch, switched, topology_mutated, topology_mutation_rejected,
  failed, EventPayload,
}
use liwaisi_assistant.Net.{
  Cpn, State, bare, emit, set_mode, check_mode_switch, hitl_firable, effective_can_fire,
}
use liwaisi_assistant.Behaviour.Delivery.{emit-frame}
use liwaisi_assistant.Mutate.{
  Mutation, AuditLog, snapshot_of, apply_mutation, rolled_back, committed, mutate,
}
use liwaisi_assistant.Validate.{validate as validate_net}
use liwaisi_assistant.Observer.{drain_observers, observers}
use liwaisi_assistant.Executor.{consume_all, Firing, with_breaker, launch, emit_started}

abbrev pub Reported : Cpn → Type 0
Reported c = c.state ≡ State.failed → c.error ≢ none

-- The state and the error stay.
abbrev pub SameEnd : Cpn → Cpn → Type 0
SameEnd c d = (d.state ≡ c.state) × (d.error ≡ c.error)

pub of-Reported : (c d : Cpn) → SameEnd c d → Reported c → Reported d
of-Reported c d same h fails without = h (sym same.0 ∙ fails) (sym same.1 ∙ without)

pub emit-SameEnd : (now : ℕ) (e : Event) (c : Cpn) → SameEnd c (emit now e c)
emit-SameEnd now e c =
    (ap (λ d. d.state) (emit-frame now e c), ap (λ d. d.error) (emit-frame now e c))

pub drain_observers-SameEnd : (now : ℕ) (c : Cpn) → SameEnd c (drain_observers now c)
unfolding drain_observers
drain_observers-SameEnd now c =
    elim (Bool-cases (is_empty c.sub_net_buses && not (is_some c.self_bus))) [
      | inl quiet ↦ rw (drain_observers, quiet) (refl, refl)
      | inr noisy ↦ elim (Bool-cases (is_empty (observers c))) [
        | inl idle ↦ rw (drain_observers, noisy, idle) (refl, refl)
        | inr busy ↦ rw (drain_observers, noisy, busy) (refl, refl)
      ]
    ]

pub launch-SameEnd : (now : ℕ) (es : Dict String) (c : Cpn) → SameEnd c (launch now es c).1
unfolding launch
launch-SameEnd now [] c = (refl, refl)
launch-SameEnd now (e ∷ es) c = elim (Option-cases (lookup e.1 c.transitions)) [
  | inl absent ↦ rw (absent, launch) (launch-SameEnd now es c)
  | inr (t, there) ↦
      let checked = effective_can_fire now c t in
      let c' = record c {
        transitions = modify e.1 (with_breaker checked.1.cb_state) c.transitions;
      } in
      elim (Bool-cases checked.0) [
        | inr skipped ↦ rw (there, launch) (rw skipped (launch-SameEnd now es c'))
        | inl fires ↦
            let taken = consume_all t.input_places c.places in
            rw (there, launch) (rw fires (launch-SameEnd now es (record c' { places = taken.1 })))
      ]
]

set_mode-SameEnd : (now : ℕ) (m : Mode) (c : Cpn) → SameEnd c (set_mode now m c)
unfolding set_mode
set_mode-SameEnd now m c =
    ground (arith, emit-SameEnd now (bare mode_switch (switched c.mode m)) (record c { mode = m }))

pub check_mode_switch-SameEnd : (now : ℕ) (c : Cpn) → SameEnd c (check_mode_switch now c)
unfolding check_mode_switch
check_mode_switch-SameEnd now c =
    let ts = (hitl_firable now c.places c.transitions).1 in
    ground (
      arith,
      set_mode-SameEnd now centaurian c,
      set_mode-SameEnd now mas (record c { transitions = ts }),
    )

pub emit_started-SameEnd :
    (now : ℕ) (fs : List Firing) (c : Cpn) → SameEnd c (emit_started now fs c)
unfolding emit_started
emit_started-SameEnd now [] c = (refl, refl)
emit_started-SameEnd now (f ∷ fs) c = (
  (emit_started-SameEnd now fs _).0 ∙ (emit-SameEnd now _ c).0,
  (emit_started-SameEnd now fs _).1 ∙ (emit-SameEnd now _ c).1,
)

pub mutate-SameEnd :
    (now : ℕ) (mut : Mutation) (c : Cpn) (log : AuditLog) → SameEnd c (mutate now mut c log).1
unfolding mutate
mutate-SameEnd now mut c log = elim (Bool-cases c.mutable_after_start) [
  | inr fixed ↦
      ground (
        arith,
        emit-SameEnd now (bare topology_mutation_rejected (failed mutation_not_permitted)) c,
      )
  | inl hot ↦
      let applied = apply_mutation mut (snapshot_of c) in
      let back = rolled_back applied.1 c in
      elim (Option-cases applied.0) [
        | inr (e, fails) ↦
            ground (arith, emit-SameEnd now (bare topology_mutation_rejected (failed e)) back)
        | inl fine ↦ elim (Option-cases (validate_net applied.1.places applied.1.transitions)) [
          | inr (e, fails) ↦
              ground (arith, emit-SameEnd now (bare topology_mutation_rejected (failed e)) back)
          | inl valid ↦ ground (
            arith,
            emit-SameEnd now (bare topology_mutated EventPayload.nil) (committed applied.1 c),
          )
        ]
      ]
]
