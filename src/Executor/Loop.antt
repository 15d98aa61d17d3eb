-- ===== src/Executor/Loop.antt =====
-- back/go-assistant/cpn/executor.go: the error routing after a round, and the loop of `Run`.
use liwaisi_assistant.Base.{
  ℕ, zero, suc, ◌+◌, String, true, false, Option, none, some, List, [], ◌∷◌, Dict, lookup, insert,
  if◌then◌else◌, ◌==◌, ok, err,
}
use liwaisi_assistant.Errors.{Error, timeout, children_completed, error_place_deposit_failed}
use liwaisi_assistant.Token.{Token, failure, error}
use liwaisi_assistant.Place.{Place, deposit}
use liwaisi_assistant.Transition.{Transition}
use liwaisi_assistant.Net.{Cpn, running, set_state, set_failed, check_mode_switch}
use liwaisi_assistant.Validate.{validate, sort_by_key}
use liwaisi_assistant.Observer.{drain_observers}
use liwaisi_assistant.Executor.Tools.{World, Env}
use liwaisi_assistant.Executor.Rounds.{
  check_completion_or_deadlock, collect_firable, Firing, launch, emit_started, clock, run_firings,
}

-- How a part of the loop ends: it goes on, `Run` returns, or a nil pointer is followed.
pub data Flow (A : Type 0) : Type 0 where
  go_on : A → Flow A
  returned : Option Error → A → Flow A
  panicked : A → Flow A

unfoldable pub error_token : ℕ → Transition → Place → Error → Cpn → Token
error_token now t ep e c = record {
  color = error;
  payload = failure e;
  origin_id = c.id;
  origin_depth = c.depth;
  origin_kind = t.kind;
  space = ep.space;
  session_id = c.session_id;
  trace_id = "";
  timestamp = now;
}

-- The place that takes the errors of a transition, if it names one that exists.
unfoldable pub error_route : Transition → Dict Place → Option Place
error_route t places = if t.error_place == "" then none else lookup t.error_place places

-- The error of one firing: it becomes a token, or the failure of the net.
unfoldable pub route_error : ℕ → String → Error → Cpn → Flow Cpn
route_error now tid e c = elim (lookup tid c.transitions) [
  | none ↦ panicked c
  | some t ↦ elim (error_route t c.places) [
    | none ↦ returned (some e) (set_failed e c)
    | some ep ↦ elim (deposit (error_token now t ep e c) ep) [
      | ok q ↦ go_on (record c { places = insert t.error_place q c.places })
      | err x ↦
          returned (some (error_place_deposit_failed x))
            (set_failed (error_place_deposit_failed x) c)
    ]
  ]
]

-- The loop over `errCh`, which stops where the net fails.
unfoldable pub process_errors : ℕ → Dict Error → Cpn → Flow Cpn
process_errors now [] c = go_on c
process_errors now ((tid, e) ∷ es) c = elim (route_error now tid e c) [
  | go_on d ↦ process_errors now es d
  | returned r d ↦ returned r d
  | panicked d ↦ panicked d
]

abbrev pub with_net : World → Cpn → World
with_net w c = record w { net = c }

-- The order in which the goroutines of a round run.
abbrev pub Schedule : Type 0
Schedule = List Firing → List Firing

module _ (env : Env) (schedule : Schedule) where
  -- No transition can fire.
  unfoldable pub settle : World → Flow World
  settle w =
      let (e, c) = check_completion_or_deadlock env.await_children w.net in
      elim e [
        | some children_completed ↦ go_on (with_net w c)
        | other ↦ returned other (with_net w c)
      ]

  -- The second half of a round: the goroutines, their errors, and the mode.
  unfoldable pub fire_round : List Firing → World → Flow World
  fire_round firings w =
      let started = with_net w (emit_started (clock env w) firings w.net) in
      let (errs, w') = run_firings env (schedule firings) started in
      elim (process_errors (clock env w') errs w'.net) [
        | go_on c ↦ go_on (with_net w' (check_mode_switch (clock env w') c))
        | returned r c ↦ returned r (with_net w' c)
        | panicked c ↦ panicked (with_net w' c)
      ]

  -- The body of the loop, after the check of the context.
  unfoldable pub round : World → Flow World
  round w =
      let now = clock env w in
      let c = drain_observers now w.net in
      let (firable, ts) = collect_firable now c c.transitions in
      let w' = with_net w (record c { transitions = ts }) in
      elim firable [
        | [] ↦ settle w'
        | (f ∷ fs) ↦
            let (firings, d) = launch now (sort_by_key (f ∷ fs)) w'.net in
            elim firings [
              | [] ↦ settle (with_net w' d)
              | (g ∷ gs) ↦ fire_round (g ∷ gs) (with_net w' d)
            ]
      ]

  -- The loop from round `n` on, with fuel: `none` means that the fuel ran out.
  unfoldable pub run_loop : (fuel n : ℕ) → World → Option (Flow World)
  run_loop zero n w = none
  run_loop (suc fuel) n w = elim (env.cancelled n) [
    | true ↦ some (returned (some timeout) (with_net w (set_failed timeout w.net)))
    | false ↦ elim (round w) [
      | go_on w' ↦ run_loop fuel (n + 1) w'
      | returned r w' ↦ some (returned r w')
      | panicked w' ↦ some (panicked w')
    ]
  ]

  unfoldable pub run : (fuel : ℕ) → World → Option (Flow World)
  run fuel w = elim (validate w.net.places w.net.transitions) [
    | some e ↦ some (returned (some e) (with_net w (set_failed e w.net)))
    | none ↦ run_loop fuel 0 (with_net w (set_state running w.net))
  ]
