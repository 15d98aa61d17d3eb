-- ===== src/Runs/Exits.antt =====
-- How `Run` (cpn/executor.go) ends: what the state of the net says, and that it ends when the
-- context is cancelled.
use liwaisi_assistant.Base.{
  ℕ, zero, suc, String, ◌+◌, ◌≤◌, ◌≡◌, refl, ap, subst, ◌⊎◌, inl, inr, true, false, Option, none,
  some, List, [], ◌∷◌, Dict, arith, ◌<◌, Bool-cases, Option-cases,
}
use native.Mathlib.Decide.{ℕ_discrete}
use liwaisi_assistant.Errors.{Error, timeout, children_completed}
use liwaisi_assistant.Net.{Cpn, check_mode_switch, set_state, running, set_failed}
use liwaisi_assistant.Validate.{validate, sort_by_key}
use liwaisi_assistant.Observer.{drain_observers}
use liwaisi_assistant.Executor.{
  World, Env, Schedule, Flow, go_on, returned, panicked, with_net, check_completion_or_deadlock,
  settle, process_errors, fire_round, round, run_loop, run, Firing, launch, collect_firable, clock,
  emit_started, run_firings,
}
use liwaisi_assistant.Runs.SameEnd.{
  Reported, of-Reported, drain_observers-SameEnd, launch-SameEnd, check_mode_switch-SameEnd,
  emit_started-SameEnd,
}
use liwaisi_assistant.Runs.Reported.{EnvReports, run_firings-Reported}
use liwaisi_assistant.Runs.Agrees.{
  Agrees, check-Agrees, check-Reported, FlowAgrees, process_errors-FlowAgrees,
}

module _ (env : Env) (schedule : Schedule) (reports : EnvReports env) where
  settle-FlowAgrees : (w : World) → Reported w.net → FlowAgrees (λ v. v.net) (settle env schedule w)
  unfolding settle
  settle-FlowAgrees w h =
      let waited = reports.children w.net h in
      go (check_completion_or_deadlock env.await_children w.net).0
        (check-Agrees env.await_children w.net waited)
        (check-Reported env.await_children w.net waited)
    where
      go :
          (e : Option Error)
          → (e ≡ some children_completed)
            ⊎ Agrees e (check_completion_or_deadlock env.await_children w.net).1
          → Reported (check_completion_or_deadlock env.await_children w.net).1
          → FlowAgrees
              (λ v. v.net)
              (elim e [
                | some children_completed ↦
                    go_on (with_net w (check_completion_or_deadlock env.await_children w.net).1)
                | other ↦
                    returned other
                      (with_net w (check_completion_or_deadlock env.await_children w.net).1)
              ])
      go (some children_completed) h k = k
      go none (inr h) k = h
      go none (inl h) k = cc
      go (some e) (inr h) k = h
      go (some e) (inl h) k = cc

  fire_round-FlowAgrees :
      (fs : List Firing) (w : World)
      → Reported w.net
      → FlowAgrees (λ v. v.net) (fire_round env schedule fs w)
  unfolding fire_round
  fire_round-FlowAgrees fs w h =
      let started = with_net w (emit_started (clock env w) fs w.net) in
      let starts : Reported started.net =
        of-Reported w.net started.net (emit_started-SameEnd (clock env w) fs w.net) h in
      let w' = (run_firings env (schedule fs) started).1 in
      let errs = (run_firings env (schedule fs) started).0 in
      go w' (process_errors (clock env w') errs w'.net) (
        process_errors-FlowAgrees (clock env w') errs w'.net
          (run_firings-Reported env reports (schedule fs) started starts))
    where
      go :
          (w' : World) (f : Flow Cpn)
          → FlowAgrees (λ d. d) f
          → FlowAgrees
              (λ v. v.net)
              (elim f [
                | go_on c ↦ go_on (with_net w' (check_mode_switch (clock env w') c))
                | returned r c ↦ returned r (with_net w' c)
                | panicked c ↦ panicked (with_net w' c)
              ])
      go w' (go_on d) h =
          of-Reported d (check_mode_switch (clock env w') d)
            (check_mode_switch-SameEnd (clock env w') d) h
      go w' (returned r d) h = h
      go w' (panicked d) h = tt

  round-FlowAgrees : (w : World) → Reported w.net → FlowAgrees (λ v. v.net) (round env schedule w)
  unfolding round
  round-FlowAgrees w h =
      let now = clock env w in
      let c = drain_observers now w.net in
      let w' = with_net w (record c { transitions = (collect_firable now c c.transitions).1 }) in
      go w' (collect_firable now c c.transitions).0
        (of-Reported w.net c (drain_observers-SameEnd now w.net) h)
    where
      on_firings :
          (firings : List Firing) (d : World)
          → Reported d.net
          → FlowAgrees
              (λ v. v.net)
              (elim firings [
                | [] ↦ settle env schedule d
                | (g ∷ gs) ↦ fire_round env schedule (g ∷ gs) d
              ])
      on_firings [] d h = settle-FlowAgrees d h
      on_firings (g ∷ gs) d h = fire_round-FlowAgrees (g ∷ gs) d h

      go :
          (w' : World) (firable : Dict String)
          → Reported w'.net
          → FlowAgrees
              (λ v. v.net)
              (elim firable [
                | [] ↦ settle env schedule w'
                | (f ∷ fs) ↦
                    let (firings, d) = launch (clock env w) (sort_by_key (f ∷ fs)) w'.net in
                    elim firings [
                      | [] ↦ settle env schedule (with_net w' d)
                      | (g ∷ gs) ↦ fire_round env schedule (g ∷ gs) (with_net w' d)
                    ]
              ])
      go w' [] h = settle-FlowAgrees w' h
      go w' (f ∷ fs) h =
          let es = sort_by_key (f ∷ fs) in
          let l = launch (clock env w) es w'.net in
          on_firings l.0 (with_net w' l.1)
            (of-Reported w'.net l.1 (launch-SameEnd (clock env w) es w'.net) h)

  abbrev OptionAgrees : Option (Flow World) → Type 0
  OptionAgrees none = Unit
  OptionAgrees (some f) = FlowAgrees (λ v. v.net) f

  run_loop-OptionAgrees :
      (fuel n : ℕ) (w : World) → Reported w.net → OptionAgrees (run_loop env schedule fuel n w)
  unfolding run_loop
  run_loop-OptionAgrees zero n w h = tt
  run_loop-OptionAgrees (suc fuel) n w h = elim (Bool-cases (env.cancelled n)) [
    | inl stop ↦ rw (stop, run_loop) (refl, refl)
    | inr on ↦
        rw (on, run_loop)
          (go (round env schedule w) (round-FlowAgrees w h)
            (λ v k. run_loop-OptionAgrees fuel (n + 1) v k))
  ]
    where
      go :
          (f : Flow World)
          → FlowAgrees (λ v. v.net) f
          → ((v : World) → Reported v.net → OptionAgrees (run_loop env schedule fuel (n + 1) v))
          → OptionAgrees (elim f [
            | go_on w' ↦ run_loop env schedule fuel (n + 1) w'
            | returned r w' ↦ some (returned r w')
            | panicked w' ↦ some (panicked w')
          ])
      go (go_on v) h ih = ih v h
      go (returned r v) h ih = h
      go (panicked v) h ih = tt

  -- If the fire functions, the sleep and the children that are not modelled leave no failed net without
  -- an error, then whenever a run returns, in any order of the firings, it answers nil with a completed
  -- net that is complete, or an error with a failed net that records that error.
  pub run-Agrees :
      (fuel : ℕ) (w w' : World) (r : Option Error)
      → run env schedule fuel w ≡ some (returned r w')
      → Agrees r w'.net
  unfolding run
  run-Agrees fuel w w' r h = elim (Option-cases (validate w.net.places w.net.transitions)) [
    | inr (e, x) ↦ subst OptionAgrees h (rw (x, run) (refl, refl))
    | inl x ↦ subst OptionAgrees h (
        rw (x, run)
          (run_loop-OptionAgrees fuel 0 (with_net w (set_state running w.net)) (λ f n. cc)))
  ]

loop_returns :
    (env : Env) (schedule : Schedule) (fuel n : ℕ) (w : World) (k : ℕ)
    → env.cancelled k ≡ true
    → (n ≤ k) × (k < n + fuel)
    → (f : Flow World) × (run_loop env schedule fuel n w ≡ some f)
unfolding run_loop
loop_returns env schedule zero n w k h (le, lt) = absurd (omega arith)
loop_returns env schedule (suc fuel) n w k h (le, lt) = elim (Bool-cases (env.cancelled n)) [
  | inl stop ↦
      (returned (some timeout) (with_net w (set_failed timeout w.net)), rw (stop, run_loop))
  | inr on ↦
      let later : (n + 1 ≤ k) × (k < n + 1 + fuel) = (before n k h on le, omega arith) in
      let (f, e) =
        go (round env schedule w) (λ v. loop_returns env schedule fuel (n + 1) v k h later) in
      (f, rw (on, run_loop) e)
]
  where
    before : (n k : ℕ) → env.cancelled k ≡ true → env.cancelled n ≡ false → n ≤ k → n + 1 ≤ k
    before n k h on le = elim (ℕ_discrete n k) [
      | yes p ↦ cc (ap env.cancelled p)
      | no ne ↦ omega arith
    ]

    go :
        (f : Flow World)
        → ((v : World) → (g : Flow World) × (run_loop env schedule fuel (n + 1) v ≡ some g))
        → (g : Flow World) × ((elim f [
          | go_on w' ↦ run_loop env schedule fuel (n + 1) w'
          | returned r w' ↦ some (returned r w')
          | panicked w' ↦ some (panicked w')
        ])
            ≡ some g)
    go (go_on v) ih = ih v
    go (returned r v) ih = (returned r v, refl)
    go (panicked v) ih = (panicked v, refl)

-- If the context is cancelled at round k, then a run that is given fuel for k + 1 rounds ends.
pub run_returns :
    (env : Env) (schedule : Schedule) (w : World) (k : ℕ)
    → env.cancelled k ≡ true
    → (f : Flow World) × (run env schedule (k + 1) w ≡ some f)
unfolding run
run_returns env schedule w k h = elim (Option-cases (validate w.net.places w.net.transitions)) [
  | inr (e, x) ↦ (returned (some e) (with_net w (set_failed e w.net)), rw (x, run))
  | inl x ↦
      let (f, e) =
        loop_returns env schedule (k + 1) 0 (with_net w (set_state running w.net)) k h
          (omega arith) in
      (f, rw (x, run) e)
]
