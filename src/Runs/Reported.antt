-- ===== src/Runs/Reported.antt =====
-- A failed net has an error on record, through the firings of a round (cpn/executor.go).
use liwaisi_assistant.Base.{
  ℕ, refl, inl, inr, Option, none, some, List, [], ◌∷◌, Result, Bool-cases, Option-cases,
  Result-cases,
}
use liwaisi_assistant.Errors.{Error}
use liwaisi_assistant.Token.{
  Token, NodeKind, tool, llm, validate, subnet, hitl, bash, register_tool, synthesize, instantiate,
  topology_mutate, observer, unknown,
}
use liwaisi_assistant.Transition.{Transition}
use liwaisi_assistant.Net.{Cpn}
use liwaisi_assistant.Retry.{do_retry}
use liwaisi_assistant.Retry.Keeps.{do_retry-keeps}
use liwaisi_assistant.Executor.{
  World, Env, Fire, fire_tool_handler, run_executor, fire_executor, fire_tool, fire_topology_mutate,
  dispatch_kind, dispatch, wants_revision, Firing, clock, run_firing, run_firings,
}
use liwaisi_assistant.Runs.SameEnd.{Reported, SameEnd, of-Reported, emit-SameEnd, mutate-SameEnd}

-- A fire function that leaves no failed net without an error.
abbrev pub KeepsReports : Fire → Type 0
KeepsReports fire =
    (t : Transition) (consumed : List Token) (w : World)
    → Reported w.net
    → Reported (fire t consumed w).1.net

-- What the code outside the model does with a failed net: it never drops the error.
pub record EnvReports (env : Env) : Type 0 where
  pub llm : KeepsReports env.fire_llm
  pub validate : KeepsReports env.fire_validate
  pub sub_net : KeepsReports env.fire_sub_net
  pub hitl : KeepsReports env.fire_hitl
  pub hitl_with_revision : KeepsReports env.fire_hitl_with_revision
  pub bash : KeepsReports env.fire_bash
  pub register_tool : KeepsReports env.fire_register_tool
  pub synthesize : KeepsReports env.fire_synthesize
  pub instantiate : KeepsReports env.fire_instantiate
  pub sleep : (d : ℕ) (w : World) → Reported w.net → Reported (env.sleep d w).1.net
  pub children : (c : Cpn) → Reported c → Reported (env.await_children c)

module _ (env : Env) where
  fire_tool-SameEnd :
      (t : Transition) (consumed : List Token) (w : World)
      → SameEnd w.net (fire_tool env t consumed w).1.net
  unfolding fire_tool fire_tool_handler
  fire_tool-SameEnd t consumed w = elim (Option-cases t.tool_handler) [
    | inr (handler, has_one) ↦ elim (Result-cases (handler w.calls consumed)) [
      | inr (e, fails) ↦ rw (fire_tool, has_one) (rw (fire_tool_handler, fails) (refl, refl))
      | inl (results, answers) ↦
          rw (fire_tool, has_one) (rw (fire_tool_handler, answers) (refl, refl))
    ]
    | inl no_handler ↦ rw (fire_tool, no_handler) (go t.executor consumed)
  ]
    where
      go :
          (executor : Option (ℕ → Token → Result Error Token)) (consumed : List Token)
          → SameEnd w.net (fire_executor env executor t consumed w).1.net
      go none consumed = (refl, refl)
      go (some executor) [] = (refl, refl)
      go (some executor) (first ∷ rest) = elim (Result-cases (executor w.calls first)) [
        | inr (e, fails) ↦ rw (run_executor, fails) (refl, refl)
        | inl (r, answers) ↦ rw (run_executor, answers) (refl, refl)
      ]

  fire_topology_mutate-SameEnd :
      (t : Transition) (consumed : List Token) (w : World)
      → SameEnd w.net (fire_topology_mutate env t consumed w).1.net
  unfolding fire_topology_mutate
  fire_topology_mutate-SameEnd t [] w = (refl, refl)
  fire_topology_mutate-SameEnd t (first ∷ rest) w = elim (Result-cases (env.decode first.payload)) [
    | inr (e, garbled) ↦ rw (fire_topology_mutate, garbled) (refl, refl)
    | inl (mut, read) ↦
        rw (fire_topology_mutate, read) (mutate-SameEnd (env.time w.calls) mut w.net w.audit)
  ]

  module _ (reports : EnvReports env) where
    dispatch-KeepsReports : KeepsReports (dispatch env)
    unfolding dispatch dispatch_kind
    dispatch-KeepsReports t consumed w h = go t.kind
      where
        go : (kind : NodeKind) → Reported (dispatch_kind env kind t consumed w).1.net
        go tool =
            of-Reported w.net (fire_tool env t consumed w).1.net (fire_tool-SameEnd t consumed w) h
        go llm = reports.llm t consumed w h
        go validate = reports.validate t consumed w h
        go subnet = reports.sub_net t consumed w h
        go hitl = elim (Bool-cases (wants_revision env t.hitl_config)) [
          | inl revises ↦ rw revises (reports.hitl_with_revision t consumed w h)
          | inr asks_once ↦ rw asks_once (reports.hitl t consumed w h)
        ]
        go bash = reports.bash t consumed w h
        go register_tool = reports.register_tool t consumed w h
        go synthesize = reports.synthesize t consumed w h
        go instantiate = reports.instantiate t consumed w h
        go topology_mutate =
            of-Reported w.net (fire_topology_mutate env t consumed w).1.net
              (fire_topology_mutate-SameEnd t consumed w) h
        go observer = h
        go (unknown k) = h

    run_firing-Reported :
        (f : Firing) (w : World) → Reported w.net → Reported (run_firing env f w).1.net
    unfolding run_firing
    run_firing-Reported f w h =
        let t = f.transition in
        let fire = dispatch env t f.consumed in
        let r = do_retry (clock env) env.plus fire env.sleep t.retry t.cb_state w in
        let kept : Reported r.world.net =
          do_retry-keeps (clock env) env.plus fire env.sleep (λ v. Reported v.net)
            (dispatch-KeepsReports t f.consumed) reports.sleep t.retry t.cb_state w h in
        let same : SameEnd r.world.net (run_firing env f w).1.net =
          (elim (Option-cases r.fired.error) [
            | inl fine ↦ rw (run_firing, fine) (emit-SameEnd _ _ _)
            | inr (e, fails) ↦ rw (run_firing, fails) (emit-SameEnd _ _ _)
          ]) in
        of-Reported r.world.net (run_firing env f w).1.net same kept

    pub run_firings-Reported :
        (fs : List Firing) (w : World) → Reported w.net → Reported (run_firings env fs w).1.net
    unfolding run_firings
    run_firings-Reported [] w h = h
    run_firings-Reported (f ∷ fs) w h =
        run_firings-Reported fs (run_firing env f w).1 (run_firing-Reported f w h)
