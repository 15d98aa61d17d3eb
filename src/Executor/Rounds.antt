-- ===== src/Executor/Rounds.antt =====
-- back/go-assistant/cpn/executor.go: one round of `Run`, and the loop.
use liwaisi_assistant.Base.{
  ℕ, String, Bool, true, false, Option, none, some, List, [], ◌∷◌, Dict, lookup, modify, map, ltb,
  if◌then◌else◌,
}
use liwaisi_assistant.Errors.{Error, deadlock, children_completed}
use liwaisi_assistant.Token.{
  Token, transition_started, transition_completed, started, completed, snapshot,
}
use liwaisi_assistant.Retry.{CircuitBreakerState, do_retry}
use liwaisi_assistant.Transition.{Transition, is_observer}
use liwaisi_assistant.Net.{
  Cpn, State, set_state, set_failed, is_complete, effective_can_fire, emit, bare,
}
use liwaisi_assistant.Executor.Tools.{World, Env, consume_all}
use liwaisi_assistant.Executor.Dispatch.{dispatch}

abbrev pub is_failed : State → Bool
is_failed State.failed = true
is_failed _ = false

-- `checkCompletionOrDeadlock`: nil, `errChildrenCompleted`, or the error of the net.
unfoldable pub check_completion_or_deadlock : (Cpn → Cpn) → Cpn → Option Error × Cpn
check_completion_or_deadlock await c =
    if is_complete c
    then (none, set_state State.completed c)
    else if ltb 0 c.active_children
    then (let d = await c in
        if is_complete d
        then (none, set_state State.completed d)
        else if is_failed d.state
        then (d.error, d)
        else (some children_completed, d))
    else (some deadlock, set_failed deadlock c)

-- `collectFirable`: the id and the key of each transition that can fire, and the transitions with
-- their breakers after the checks.
unfoldable pub collect_firable : ℕ → Cpn → Dict Transition → Dict String × Dict Transition
collect_firable now c [] = ([], [])
collect_firable now c ((k, t) ∷ ts) =
    let rest = collect_firable now c ts in
    let checked = effective_can_fire now c t in
    if is_observer t.kind
    then (rest.0, (k, t) ∷ rest.1)
    else if checked.0
    then ((t.id, k) ∷ rest.0, (k, checked.1) ∷ rest.1)
    else (rest.0, (k, checked.1) ∷ rest.1)

pub record Firing : Type 0 where
  pub key : String
  pub transition : Transition
  pub consumed : List Token

abbrev pub with_breaker : Option CircuitBreakerState → Transition → Transition
with_breaker cb t = record t { cb_state = cb }

-- Consume before launch: a transition is checked again, since an earlier one may have taken its
-- tokens.
unfoldable pub launch : ℕ → Dict String → Cpn → List Firing × Cpn
launch now [] c = ([], c)
launch now ((tid, k) ∷ es) c = elim (lookup k c.transitions) [
  | none ↦ launch now es c
  | some t ↦
      let checked = effective_can_fire now c t in
      let c' = record c {
        transitions = modify k (with_breaker checked.1.cb_state) c.transitions;
      } in
      elim checked.0 [
        | false ↦ launch now es c'
        | true ↦
            let taken = consume_all t.input_places c'.places in
            let rest = launch now es (record c' { places = taken.1 }) in
            (record { key = k; transition = checked.1; consumed = taken.0 } ∷ rest.0, rest.1)
      ]
]

-- An event of the loop about a transition.
unfoldable pub emit_started : ℕ → List Firing → Cpn → Cpn
emit_started now [] c = c
emit_started now (f ∷ fs) c =
    let e = record (bare transition_started (started (map snapshot f.consumed))) {
      transition_id = f.transition.id;
      transition_kind = f.transition.kind;
    } in
    emit_started now fs (emit now e c)

module _ (env : Env) where
  abbrev pub clock : World → ℕ
  clock w = env.time w.calls

  -- The goroutine of one firing: the error that it sends, if any.
  unfoldable pub run_firing : Firing → World → Option (String × Error) × World
  run_firing f w =
      let t = f.transition in
      let r = do_retry clock env.plus (dispatch env t f.consumed) env.sleep t.retry t.cb_state w in
      let c = r.world.net in
      let c' = record c { transitions = modify f.key (with_breaker r.breaker) c.transitions } in
      let e = record (bare transition_completed (completed r.fired.snaps)) {
        transition_id = t.id;
        transition_kind = t.kind;
      } in
      let w' = record r.world { net = emit (clock r.world) e c' } in
      elim r.fired.error [ none ↦ (none, w') | some x ↦ (some (t.id, x), w') ]

  abbrev pub with_error : Option (String × Error) → Dict Error → Dict Error
  with_error none es = es
  with_error (some e) es = e ∷ es

  unfoldable pub run_firings : List Firing → World → Dict Error × World
  run_firings [] w = ([], w)
  run_firings (f ∷ fs) w =
      let (e, w') = run_firing f w in let rest = run_firings fs w' in (with_error e rest.0, rest.1)
