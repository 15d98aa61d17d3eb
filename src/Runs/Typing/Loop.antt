-- ===== src/Runs/Typing/Loop.antt =====
-- Typing through the rounds of `Run` (cpn/executor.go).
use liwaisi_assistant.Base.{
  ℕ, zero, suc, ◌+◌, String, ◌≡◌, sym, subst, inl, inr, Option, none, some, List, [], ◌∷◌, Dict,
  Bool-cases, Option-cases, ltb,
}
use liwaisi_assistant.Errors.{Error, children_completed}
use liwaisi_assistant.Net.{Cpn, running, set_state, is_complete, check_mode_switch}
use liwaisi_assistant.Behaviour.Switching.{check_mode_switch-places}
use liwaisi_assistant.Validate.{validate, sort_by_key}
use liwaisi_assistant.Observer.{drain_observers}
use liwaisi_assistant.Executor.{
  World, Env, Firing, launch, emit_started, clock, run_firings, collect_firable, is_failed,
  check_completion_or_deadlock, Flow, go_on, returned, panicked, process_errors, with_net, Schedule,
  settle, fire_round, round, run_loop, run,
}
use liwaisi_assistant.Runs.Typing.Deposits.{AllTyped, drain_observers-AllTyped}
use liwaisi_assistant.Runs.Typing.Firing.{
  WorldTyped, EnvKeeps, run_firings-WorldTyped, emit_started-places,
}
use liwaisi_assistant.Runs.Typing.Rounds.{launch-AllTyped, left_in, process_errors-AllTyped}

module _ (env : Env) (schedule : Schedule) (keeps : EnvKeeps env) where
  check-AllTyped :
      (c : Cpn)
      → AllTyped c.places
      → AllTyped (check_completion_or_deadlock env.await_children c).1.places
  unfolding check_completion_or_deadlock
  check-AllTyped c all =
      let waited = keeps.children c all in
      let d = env.await_children c in
      elim (Bool-cases (is_complete c)) [
        | inl whole ↦ rw (check_completion_or_deadlock, whole) all
        | inr part ↦ elim (Bool-cases (ltb 0 c.active_children)) [
          | inr alone ↦ rw (check_completion_or_deadlock, part) (rw alone all)
          | inl busy ↦ elim (Bool-cases (is_complete d)) [
            | inl whole ↦ rw (check_completion_or_deadlock, part) (rw busy (rw whole waited))
            | inr still ↦ elim (Bool-cases (is_failed d.state)) [
              | inl lost ↦
                  rw (check_completion_or_deadlock, part) (rw busy (rw still (rw lost waited)))
              | inr fine ↦
                  rw (check_completion_or_deadlock, part) (rw busy (rw still (rw fine waited)))
            ]
          ]
        ]
      ]

  settle-WorldTyped : (w : World) → WorldTyped w → WorldTyped (left_in (settle env schedule w))
  unfolding settle
  settle-WorldTyped w all =
      go (check_completion_or_deadlock env.await_children w.net).0 (check-AllTyped w.net all)
    where
      go :
          (e : Option Error)
          → AllTyped (check_completion_or_deadlock env.await_children w.net).1.places
          → WorldTyped (
              left_in (elim e as (λ x. Flow World) [
                | some children_completed ↦
                    go_on (with_net w (check_completion_or_deadlock env.await_children w.net).1)
                | other ↦
                    returned other
                      (with_net w (check_completion_or_deadlock env.await_children w.net).1)
              ]))
      go (some children_completed) h = h
      go none h = h
      go (some e) h = h

  fire_round-WorldTyped :
      (fs : List Firing) (w : World)
      → WorldTyped w
      → WorldTyped (left_in (fire_round env schedule fs w))
  unfolding fire_round
  fire_round-WorldTyped fs w all =
      let started = with_net w (emit_started (clock env w) fs w.net) in
      let starts : WorldTyped started =
        subst AllTyped (sym (emit_started-places (clock env w) fs w.net)) all in
      let w' = (run_firings env (schedule fs) started).1 in
      let errs = (run_firings env (schedule fs) started).0 in
      go w' (process_errors (clock env w') errs w'.net) (
        process_errors-AllTyped (clock env w') errs w'.net
          (run_firings-WorldTyped env keeps (schedule fs) started starts))
    where
      go :
          (w' : World) (f : Flow Cpn)
          → AllTyped (left_in f).places
          → WorldTyped (
              left_in (elim f as (λ x. Flow World) [
                | go_on c ↦ go_on (with_net w' (check_mode_switch (clock env w') c))
                | returned r c ↦ returned r (with_net w' c)
                | panicked c ↦ panicked (with_net w' c)
              ]))
      go w' (go_on c) h = subst AllTyped (sym (check_mode_switch-places (clock env w') c)) h
      go w' (returned r c) h = h
      go w' (panicked c) h = h

  round-WorldTyped : (w : World) → WorldTyped w → WorldTyped (left_in (round env schedule w))
  unfolding round
  round-WorldTyped w all =
      let now = clock env w in
      let c = drain_observers now w.net in
      let w' = with_net w (record c { transitions = (collect_firable now c c.transitions).1 }) in
      go w' (collect_firable now c c.transitions).0 (drain_observers-AllTyped now w.net all)
    where
      on_firings :
          (firings : List Firing) (d : World)
          → WorldTyped d
          → WorldTyped (
              left_in (elim firings as (λ x. Flow World) [
                | [] ↦ settle env schedule d
                | (g ∷ gs) ↦ fire_round env schedule (g ∷ gs) d
              ]))
      on_firings [] d h = settle-WorldTyped d h
      on_firings (g ∷ gs) d h = fire_round-WorldTyped (g ∷ gs) d h

      go :
          (w' : World) (firable : Dict String)
          → WorldTyped w'
          → WorldTyped (
              left_in (elim firable as (λ x. Flow World) [
                | [] ↦ settle env schedule w'
                | (f ∷ fs) ↦
                    let (firings, d) = launch (clock env w) (sort_by_key (f ∷ fs)) w'.net in
                    elim firings as (λ x. Flow World) [
                      | [] ↦ settle env schedule (with_net w' d)
                      | (g ∷ gs) ↦ fire_round env schedule (g ∷ gs) (with_net w' d)
                    ]
              ]))
      go w' [] h = settle-WorldTyped w' h
      go w' (f ∷ fs) h =
          let l = launch (clock env w) (sort_by_key (f ∷ fs)) w'.net in
          on_firings l.0 (with_net w' l.1)
            (launch-AllTyped (clock env w) (sort_by_key (f ∷ fs)) w'.net h)

  abbrev OptionTyped : Option (Flow World) → Type 0
  OptionTyped none = Unit
  OptionTyped (some f) = WorldTyped (left_in f)

  run_loop-OptionTyped :
      (fuel n : ℕ) (w : World) → WorldTyped w → OptionTyped (run_loop env schedule fuel n w)
  unfolding run_loop
  run_loop-OptionTyped zero n w all = tt
  run_loop-OptionTyped (suc fuel) n w all = elim (Bool-cases (env.cancelled n)) [
    | inl stop ↦ rw (stop, run_loop) all
    | inr on ↦
        rw (on, run_loop)
          (go (round env schedule w) (round-WorldTyped w all)
            (λ v h. run_loop-OptionTyped fuel (n + 1) v h))
  ]
    where
      go :
          (f : Flow World)
          → WorldTyped (left_in f)
          → ((v : World) → WorldTyped v → OptionTyped (run_loop env schedule fuel (n + 1) v))
          → OptionTyped (elim f as (λ x. Option (Flow World)) [
            | go_on w' ↦ run_loop env schedule fuel (n + 1) w'
            | returned r w' ↦ some (returned r w')
            | panicked w' ↦ some (panicked w')
          ])
      go (go_on v) h ih = ih v h
      go (returned r v) h ih = h
      go (panicked v) h ih = h

  -- If the fire functions, the sleep and the children that are not modelled leave every token of a net
  -- in a place of its colour and space, then so does a whole run, in any order of the firings and
  -- however it ends: mutations, observers, tools and errors included.
  pub run-WorldTyped :
      (fuel : ℕ) (w : World) (f : Flow World)
      → WorldTyped w
      → run env schedule fuel w ≡ some f
      → WorldTyped (left_in f)
  unfolding run
  run-WorldTyped fuel w f all h = elim (Option-cases (validate w.net.places w.net.transitions)) [
    | inr (e, x) ↦ subst OptionTyped h (rw (x, run) all)
    | inl x ↦
        subst OptionTyped h
          (rw (x, run) (run_loop-OptionTyped fuel 0 (with_net w (set_state running w.net)) all))
  ]
