-- ===== src/Runs/Agrees.antt =====
-- The answers of `Run` (cpn/executor.go) against the net: completion, deadlock and failed firings.
use liwaisi_assistant.Base.{
  ℕ, String, ◌≡◌, refl, sym, subst, ◌∙◌, ◌⊎◌, inl, inr, true, Option, none, some, [], ◌∷◌, Dict,
  lookup, arith, Bool-cases, Option-cases, Result-cases, ltb,
}
use liwaisi_assistant.Errors.{Error, children_completed}
use liwaisi_assistant.Place.{deposit}
use liwaisi_assistant.Net.{Cpn, State, is_complete, set_state, terminal_places}
use liwaisi_assistant.Runs.SameEnd.{Reported}
use liwaisi_assistant.Executor.{
  Flow, go_on, returned, panicked, check_completion_or_deadlock, route_error, process_errors,
  is_failed, error_route, error_token,
}

-- The answer of `Run` against the net that it leaves.
abbrev pub Agrees : Option Error → Cpn → Type 0
Agrees none c = (c.state ≡ State.completed) × (is_complete c ≡ true)
Agrees (some e) c = (c.state ≡ State.failed) × (c.error ≡ some e)

pub is_complete-set_state : (s : State) (c : Cpn) → is_complete (set_state s c) ≡ is_complete c
unfolding is_complete terminal_places
is_complete-set_state s c = refl

pub completed_Agrees : (c : Cpn) → is_complete c ≡ true → Agrees none (set_state State.completed c)
completed_Agrees c h = (refl, is_complete-set_state State.completed c ∙ h)

pub failed_cases : (s : State) → (is_failed s ≡ true) → s ≡ State.failed
failed_cases s h = ground arith

pub check-Agrees :
    (await : Cpn → Cpn) (c : Cpn)
    → Reported (await c)
    → ((check_completion_or_deadlock await c).0 ≡ some children_completed)
      ⊎ Agrees (check_completion_or_deadlock await c).0 (check_completion_or_deadlock await c).1
unfolding check_completion_or_deadlock
check-Agrees await c honest = elim (Bool-cases (is_complete c)) [
  | inl whole ↦ rw whole (inr (completed_Agrees c whole))
  | inr part ↦ elim (Bool-cases (ltb 0 c.active_children)) [
    | inr idle ↦ rw part (rw idle (inr (refl, refl)))
    | inl busy ↦ elim (Bool-cases (is_complete (await c))) [
      | inl whole ↦ rw part (rw busy (rw whole (inr (completed_Agrees (await c) whole))))
      | inr part' ↦ elim (Bool-cases (is_failed (await c).state)) [
        | inr fine ↦ rw part (rw busy (rw part' (rw fine (inl refl))))
        | inl fails ↦
            let state = failed_cases (await c).state fails in
            elim (Option-cases (await c).error) [
              | inl e ↦ absurd (honest state e)
              | inr (x, e) ↦ rw part (
                  rw busy (
                    rw part' (rw fails (inr (subst (λ o. Agrees o (await c)) (sym e) (state, e))))))
            ]
      ]
    ]
  ]
]

pub check-Reported :
    (await : Cpn → Cpn) (c : Cpn)
    → Reported (await c)
    → Reported (check_completion_or_deadlock await c).1
unfolding check_completion_or_deadlock
check-Reported await c waited = elim (Bool-cases (is_complete c)) [
  | inl whole ↦ rw (check_completion_or_deadlock, whole) (λ f n. cc)
  | inr part ↦ elim (Bool-cases (ltb 0 c.active_children)) [
    | inr idle ↦ rw (check_completion_or_deadlock, part) (rw idle (λ f n. cc))
    | inl busy ↦ elim (Bool-cases (is_complete (await c))) [
      | inl whole ↦ rw (check_completion_or_deadlock, part) (rw busy (rw whole (λ f n. cc)))
      | inr part' ↦ elim (Bool-cases (is_failed (await c).state)) [
        | inr fine ↦ rw (check_completion_or_deadlock, part) (rw busy (rw part' (rw fine waited)))
        | inl fails ↦ rw (check_completion_or_deadlock, part) (rw busy (rw part' (rw fails waited)))
      ]
    ]
  ]
]

-- A flow that returns agrees with its net, and one that goes on has not lost an error.
abbrev pub FlowAgrees : {A : Type 0} → (A → Cpn) → Flow A → Type 0
FlowAgrees net (go_on a) = Reported (net a)
FlowAgrees net (returned r a) = Agrees r (net a)
FlowAgrees net (panicked a) = Unit

pub route_error-FlowAgrees :
    (now : ℕ) (tid : String) (e : Error) (c : Cpn)
    → Reported c
    → FlowAgrees (λ d. d) (route_error now tid e c)
unfolding route_error
route_error-FlowAgrees now tid e c h = elim (Option-cases (lookup tid c.transitions)) [
  | inl x ↦ rw (x, route_error) tt
  | inr (t, x) ↦ elim (Option-cases (error_route t c.places)) [
    | inl y ↦ rw (x, route_error) (rw y (refl, refl))
    | inr (ep, y) ↦ elim (Result-cases (deposit (error_token now t ep e c) ep)) [
      | inl (q, z) ↦ rw (x, route_error) (rw y (rw z h))
      | inr (f, z) ↦ rw (x, route_error) (rw y (rw z (refl, refl)))
    ]
  ]
]

pub process_errors-FlowAgrees :
    (now : ℕ) (es : Dict Error) (c : Cpn)
    → Reported c
    → FlowAgrees (λ d. d) (process_errors now es c)
unfolding process_errors
process_errors-FlowAgrees now [] c h = h
process_errors-FlowAgrees now (e ∷ es) c h =
    go (route_error now e.0 e.1 c) (route_error-FlowAgrees now e.0 e.1 c h)
      (λ d k. process_errors-FlowAgrees now es d k)
  where
    go :
        (f : Flow Cpn)
        → FlowAgrees (λ d. d) f
        → ((d : Cpn) → Reported d → FlowAgrees (λ d. d) (process_errors now es d))
        → FlowAgrees
            (λ d. d)
            (elim f [
              | go_on d ↦ process_errors now es d
              | returned r d ↦ returned r d
              | panicked d ↦ panicked d
            ])
    go (go_on d) h ih = ih d h
    go (returned r d) h ih = h
    go (panicked d) h ih = tt
