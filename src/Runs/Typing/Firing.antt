-- ===== src/Runs/Typing/Firing.antt =====
-- Typing through the firing of transitions: mutations, the fire functions and the retry loop
-- (cpn/cpn_mutate.go, fire_topology_mutate.go, executor.go).
use liwaisi_assistant.Base.{
  ℕ, ◌≡◌, refl, sym, subst, ◌∙◌, inl, inr, true, false, Bool, Option, none, some, List, [], ◌∷◌,
  Result, arith, Bool-cases, Option-cases, Result-cases, ◌==◌, has,
}
use liwaisi_assistant.Errors.{Error}
use liwaisi_assistant.Token.{
  Token, NodeKind, tool, llm, validate, subnet, hitl, bash, register_tool, synthesize, instantiate,
  topology_mutate, observer, unknown,
}
use liwaisi_assistant.Place.{new_place}
use liwaisi_assistant.Transition.{Transition}
use liwaisi_assistant.Net.{Cpn}
use liwaisi_assistant.Behaviour.Delivery.{emit-places}
use liwaisi_assistant.Retry.{do_retry}
use liwaisi_assistant.Retry.Keeps.{do_retry-keeps}
use liwaisi_assistant.Mutate.{
  Mutation, add_place, add_transition, deprecate_transition, other, AuditLog, snapshot_of,
  apply_add_place, apply_add_transition, apply_deprecate_transition, apply_mutation, mutate,
}
use liwaisi_assistant.Mutate.Rollback.{not_permitted, rollback, commit, mutate-Exit}
use liwaisi_assistant.Executor.{
  World, Env, Fire, stamped, fire_tool_handler, run_executor, fire_executor, fire_tool,
  mutation_token, fire_topology_mutate, dispatch_kind, dispatch, wants_revision, Firing, clock,
  run_firing, run_firings, emit_started,
}
use liwaisi_assistant.Runs.Typing.Deposits.{
  AllTyped, AllTyped-insert, deposit_each-AllTyped, deposit_results-AllTyped,
  deposit_mutated-AllTyped,
}

abbrev adds_place : Mutation → Bool
adds_place (add_place d) = true
adds_place _ = false

-- Only an added place touches the places.
apply_mutation-places :
    (mut : Mutation) (c : Cpn)
    → adds_place mut ≡ false
    → ((apply_mutation mut (snapshot_of c)).1.places ≡ c.places)
      × ((apply_mutation mut (snapshot_of c)).1.kept_places ≡ c.places)
unfolding apply_mutation apply_add_transition apply_deprecate_transition
apply_mutation-places (add_place d) c h = cc
apply_mutation-places (add_transition none) c h = (refl, refl)
apply_mutation-places (add_transition (some d)) c h = ground arith
apply_mutation-places (deprecate_transition id reason) c h = ground arith
apply_mutation-places other c h = (refl, refl)

other_AllTyped :
    (mut : Mutation) (c : Cpn)
    → adds_place mut ≡ false
    → AllTyped c.places
    → AllTyped (apply_mutation mut (snapshot_of c)).1.places
      × AllTyped (apply_mutation mut (snapshot_of c)).1.kept_places
other_AllTyped mut c h all =
    let (same, kept) = apply_mutation-places mut c h in
    (subst AllTyped (sym same) all, subst AllTyped (sym kept) all)

apply_mutation-AllTyped :
    (mut : Mutation) (c : Cpn)
    → AllTyped c.places
    → AllTyped (apply_mutation mut (snapshot_of c)).1.places
      × AllTyped (apply_mutation mut (snapshot_of c)).1.kept_places
unfolding apply_mutation apply_add_place apply_add_transition apply_deprecate_transition new_place
apply_mutation-AllTyped (add_place none) c all = (all, all)
apply_mutation-AllTyped (add_place (some d)) c all = elim (Bool-cases (d.id == "")) [
  | inl unnamed ↦ rw (apply_mutation, apply_add_place, unnamed) (all, all)
  | inr named ↦ elim (Bool-cases (has d.id c.places)) [
    | inl taken ↦ rw (apply_mutation, apply_add_place, named) (rw taken (all, all))
    | inr free ↦
        let grown = AllTyped-insert d.id (new_place d.id d.color d.space) c.places all tt in
        rw (apply_mutation, apply_add_place, named) (rw free (grown, all))
  ]
]
apply_mutation-AllTyped (add_transition d) c all = other_AllTyped (add_transition d) c refl all
apply_mutation-AllTyped (deprecate_transition id reason) c all =
    other_AllTyped (deprecate_transition id reason) c refl all
apply_mutation-AllTyped other c all = other_AllTyped other c refl all

mutate-AllTyped :
    (now : ℕ) (mut : Mutation) (c : Cpn) (log : AuditLog)
    → AllTyped c.places
    → AllTyped (mutate now mut c log).1.places
mutate-AllTyped now mut c log all =
    let (applied, kept) = apply_mutation-AllTyped mut c all in
    elim (mutate-Exit now mut c log) [
      | not_permitted _ _ same _ ↦ rw same all
      | rollback _ _ same _ ↦ rw same kept
      | commit _ _ _ _ same _ ↦ rw same applied
    ]

abbrev pub WorldTyped : World → Type 0
WorldTyped w = AllTyped w.net.places

-- A fire function leaves a typed net typed.
abbrev pub KeepsTyping : Fire → Type 0
KeepsTyping fire =
    (t : Transition) (consumed : List Token) (w : World)
    → WorldTyped w
    → WorldTyped (fire t consumed w).1

-- What the code outside the model must keep: the other fire functions, the sleep and the children.
pub record EnvKeeps (env : Env) : Type 0 where
  pub llm : KeepsTyping env.fire_llm
  pub validate : KeepsTyping env.fire_validate
  pub sub_net : KeepsTyping env.fire_sub_net
  pub hitl : KeepsTyping env.fire_hitl
  pub hitl_with_revision : KeepsTyping env.fire_hitl_with_revision
  pub bash : KeepsTyping env.fire_bash
  pub register_tool : KeepsTyping env.fire_register_tool
  pub synthesize : KeepsTyping env.fire_synthesize
  pub instantiate : KeepsTyping env.fire_instantiate
  pub sleep : (d : ℕ) (w : World) → WorldTyped w → WorldTyped (env.sleep d w).1
  pub children : (c : Cpn) → AllTyped c.places → AllTyped (env.await_children c).places

module _ (env : Env) where
  fire_tool-KeepsTyping : KeepsTyping (fire_tool env)
  unfolding fire_tool fire_tool_handler
  fire_tool-KeepsTyping t consumed w all = elim (Option-cases t.tool_handler) [
    | inr (handler, has_one) ↦ elim (Result-cases (handler w.calls consumed)) [
      | inr (e, fails) ↦ rw (fire_tool, has_one) (rw (fire_tool_handler, fails) all)
      | inl (results, answers) ↦
          rw (fire_tool, has_one)
            (rw (fire_tool_handler, answers)
              (deposit_results-AllTyped (env.time w.calls) t w.net results t.output_places
                w.net.places all))
    ]
    | inl no_handler ↦ rw (fire_tool, no_handler) (go t.executor consumed)
  ]
    where
      go :
          (executor : Option (ℕ → Token → Result Error Token)) (consumed : List Token)
          → WorldTyped (fire_executor env executor t consumed w).1
      go none consumed = all
      go (some executor) [] = all
      go (some executor) (first ∷ rest) = elim (Result-cases (executor w.calls first)) [
        | inr (e, fails) ↦ rw (run_executor, fails) all
        | inl (r, answers) ↦
            let tok = stamped (env.time w.calls) tool w.net r in
            rw (run_executor, answers)
              (deposit_each-AllTyped t.id tok t.output_places w.net.places all)
      ]

  fire_topology_mutate-KeepsTyping : KeepsTyping (fire_topology_mutate env)
  unfolding fire_topology_mutate
  fire_topology_mutate-KeepsTyping t [] w all = all
  fire_topology_mutate-KeepsTyping t (first ∷ rest) w all =
      elim (Result-cases (env.decode first.payload)) [
        | inr (e, garbled) ↦ rw (fire_topology_mutate, garbled) all
        | inl (mut, read) ↦
            let m = mutate (env.time w.calls) mut w.net w.audit in
            rw (fire_topology_mutate, read)
              (deposit_mutated-AllTyped env t.id (mutation_token env m.0 m.1) t.output_places
                m.1.places (mutate-AllTyped (env.time w.calls) mut w.net w.audit all))
      ]

  module _ (keeps : EnvKeeps env) where
    dispatch-KeepsTyping : KeepsTyping (dispatch env)
    unfolding dispatch dispatch_kind
    dispatch-KeepsTyping t consumed w all = go t.kind
      where
        go : (kind : NodeKind) → WorldTyped (dispatch_kind env kind t consumed w).1
        go tool = fire_tool-KeepsTyping t consumed w all
        go llm = keeps.llm t consumed w all
        go validate = keeps.validate t consumed w all
        go subnet = keeps.sub_net t consumed w all
        go hitl = elim (Bool-cases (wants_revision env t.hitl_config)) [
          | inl revises ↦ rw revises (keeps.hitl_with_revision t consumed w all)
          | inr asks_once ↦ rw asks_once (keeps.hitl t consumed w all)
        ]
        go bash = keeps.bash t consumed w all
        go register_tool = keeps.register_tool t consumed w all
        go synthesize = keeps.synthesize t consumed w all
        go instantiate = keeps.instantiate t consumed w all
        go topology_mutate = fire_topology_mutate-KeepsTyping t consumed w all
        go observer = all
        go (unknown k) = all

    run_firing-WorldTyped :
        (f : Firing) (w : World) → WorldTyped w → WorldTyped (run_firing env f w).1
    unfolding run_firing
    run_firing-WorldTyped f w all =
        let t = f.transition in
        let fire = dispatch env t f.consumed in
        let r = do_retry (clock env) env.plus fire env.sleep t.retry t.cb_state w in
        let kept : WorldTyped r.world =
          do_retry-keeps (clock env) env.plus fire env.sleep WorldTyped
            (dispatch-KeepsTyping t f.consumed) keeps.sleep t.retry t.cb_state w all in
        let same : (run_firing env f w).1.net.places ≡ r.world.net.places =
          (elim (Option-cases r.fired.error) [
            | inl fine ↦ rw (run_firing, fine) (emit-places _ _ _)
            | inr (e, fails) ↦ rw (run_firing, fails) (emit-places _ _ _)
          ]) in
        subst AllTyped (sym same) kept

    pub run_firings-WorldTyped :
        (fs : List Firing) (w : World) → WorldTyped w → WorldTyped (run_firings env fs w).1
    unfolding run_firings
    run_firings-WorldTyped [] w all = all
    run_firings-WorldTyped (f ∷ fs) w all =
        run_firings-WorldTyped fs (run_firing env f w).1 (run_firing-WorldTyped f w all)

pub emit_started-places :
    (now : ℕ) (fs : List Firing) (c : Cpn) → (emit_started now fs c).places ≡ c.places
unfolding emit_started
emit_started-places now [] c = refl
emit_started-places now (f ∷ fs) c = emit_started-places now fs _ ∙ emit-places now _ c
