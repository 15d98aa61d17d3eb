-- ===== src/Executor/Dispatch.antt =====
-- back/go-assistant/cpn/executor.go: `dispatch`, and back/go-assistant/cpn/fire_topology_mutate.go.
use liwaisi_assistant.Base.{
  ◌+◌, String, Bool, false, Option, none, some, List, [], ◌∷◌, Dict, lookup, insert, if◌then◌else◌,
  Result, ok, err,
}
use liwaisi_assistant.Errors.{
  Error, no_consumed, output_not_found, deposit_failed, invalid_node_kind,
}
use liwaisi_assistant.Token.{
  error, artifact, observation, NodeKind, tool, llm, validate, subnet, observer, hitl, bash,
  register_tool, synthesize, instantiate, topology_mutate, unknown, failure, opaque, Token,
  TokenSnapshot, snapshot,
}
use liwaisi_assistant.Place.{Place, deposit}
use liwaisi_assistant.Retry.{Fired, failure_of}
use liwaisi_assistant.Transition.{HitlConfig}
use liwaisi_assistant.Net.{Cpn}
use liwaisi_assistant.Mutate.{mutate}
use liwaisi_assistant.Executor.Tools.{Env, Fire, fire_tool}

module _ (env : Env) where
  -- The result token of a mutation, its space that of the output place.
  abbrev pub mutation_token : Option Error → Cpn → Token
  mutation_token e c = record {
    color = elim e [ none ↦ artifact | some x ↦ error ];
    payload = elim e [ none ↦ opaque 0 | some x ↦ failure x ];
    origin_id = c.id;
    origin_depth = c.depth;
    origin_kind = topology_mutate;
    space = observation;
    session_id = c.session_id;
    trace_id = "";
    timestamp = 0;
  }

  -- The loop of `fireTopologyMutate`: the snapshots so far, and the first error.
  unfoldable pub deposit_mutated :
      (tid : String)
      → Token
      → List String
      → Dict Place
      → Result Error (List TokenSnapshot) × Dict Place
  deposit_mutated tid t [] places = (ok [], places)
  deposit_mutated tid t (pid ∷ pids) places = elim (lookup pid places) [
    | none ↦ (err (output_not_found tid pid), places)
    | some p ↦
        let tok = record t { space = p.space } in
        elim (deposit tok p) [
          | err e ↦ (err (deposit_failed tid pid e), places)
          | ok q ↦
              let rest = deposit_mutated tid t pids (insert pid q places) in
              elim rest.0 [
                | err e ↦ (err e, rest.1)
                | ok snaps ↦ (ok (snapshot tok ∷ snaps), rest.1)
              ]
        ]
  ]

  -- A rejected mutation is the error of the firing, with the snapshots of what was deposited.
  abbrev pub mutation_result : Option Error → Result Error (List TokenSnapshot) → Fired
  mutation_result rejected (err e) = failure_of 0 e
  mutation_result rejected (ok snaps) = record { snaps = snaps; cost = 0; error = rejected }

  unfoldable pub fire_topology_mutate : Fire
  fire_topology_mutate t [] w = (failure_of 0 (no_consumed t.id), w)
  fire_topology_mutate t (first ∷ rest) w = elim (env.decode first.payload) [
    | err e ↦ (failure_of 0 e, w)
    | ok mut ↦
        let (rejected, c, audit) = mutate (env.time w.calls) mut w.net w.audit in
        let (r, places) =
          deposit_mutated t.id (mutation_token rejected c) t.output_places c.places in
        (
          mutation_result rejected r,
          record { net = record c { places = places }; calls = w.calls + 1; audit = audit },
        )
  ]

  abbrev pub wants_revision : Option HitlConfig → Bool
  wants_revision none = false
  wants_revision (some h) = h.revision_loop

  unfoldable pub dispatch_kind : NodeKind → Fire
  dispatch_kind tool = fire_tool env
  dispatch_kind llm = env.fire_llm
  dispatch_kind validate = env.fire_validate
  dispatch_kind subnet = env.fire_sub_net
  dispatch_kind hitl = λ t consumed w.
      if wants_revision t.hitl_config
      then env.fire_hitl_with_revision t consumed w
      else env.fire_hitl t consumed w
  dispatch_kind bash = env.fire_bash
  dispatch_kind register_tool = env.fire_register_tool
  dispatch_kind synthesize = env.fire_synthesize
  dispatch_kind instantiate = env.fire_instantiate
  dispatch_kind topology_mutate = fire_topology_mutate
  dispatch_kind observer = λ t consumed w. (failure_of 0 invalid_node_kind, w)
  dispatch_kind (unknown k) = λ t consumed w. (failure_of 0 invalid_node_kind, w)

  unfoldable pub dispatch : Fire
  unfolding dispatch_kind
  dispatch t = dispatch_kind t.kind t
