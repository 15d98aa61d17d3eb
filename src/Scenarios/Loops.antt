-- ===== src/Scenarios/Loops.antt =====
-- The theorems on the firing loop, on runs of the review net.
use liwaisi_assistant.Base.{
  ◌+◌, ℤ, String, ◌≡◌, refl, Bool, true, false, none, some, [], ◌∷◌, Dict, lookup, length, arith,
  eq_iff,
}
use liwaisi_assistant.Errors.{Error, external}
use liwaisi_assistant.Token.{Token, error, json, computation, Mode, NodeKind}
use liwaisi_assistant.Transition.{new_transition}
use liwaisi_assistant.Net.{Cpn, new_cpn, State, set_state}
use liwaisi_assistant.Executor.{
  consume_all, launch, Flow, go_on, returned, process_errors, route_error, run, World, with_net,
}
use liwaisi_assistant.Runs.Conservation.{total, tally, handed_out, launch-tally}
use liwaisi_assistant.Runs.Launch.{Distinct, DistinctInputs, Launched, launch-Launched}
use liwaisi_assistant.Runs.Agrees.{Agrees}
use liwaisi_assistant.Runs.Reported.{EnvReports}
use liwaisi_assistant.Runs.Exits.{run-Agrees, run_returns}
use liwaisi_assistant.Runs.Routing.{Routable, process_errors-routed}
use liwaisi_assistant.Scenarios.Data.{
  places, place_of, draft, merge, watcher, net, env, as_launched, world,
}
use liwaisi_assistant.Place.{deposit, consume, peek}
use liwaisi_assistant.Token.{same_space, same_color, is_human_origin, snapshot}
use liwaisi_assistant.Retry.{
  allow, record_success, gate, note_success, wants_retry, backoff_duration, max_attempts, fire_once,
  retry_loop, do_retry,
}
use liwaisi_assistant.Transition.{
  new_transition, available, gather, enabled, can_fire_with, can_fire,
}
use liwaisi_assistant.Net.{
  new_cpn, is_process_event, try_send, self_event_bus, stamp, to_sink, to_emitter, to_self_bus,
  emit, both_origins, centaurian_guard, set_mode, in_computation, is_computation_transition,
  effective_guard, effective_can_fire, has_human_in_computation, hitl_firable, check_mode_switch,
  is_input, terminal_places, is_complete,
}
use liwaisi_assistant.Validate.{
  sort_by_key, insert_by_key, missing, check_error_place, check_arc_references, check_hitl_config,
  is_bash_output, check_bash_outputs, check_bash_config, bypasses, check_space_violations,
  check_transition, check_all, validate,
}
use liwaisi_assistant.Observer.{
  bus_events, pending_events, observers, accepts, event_token, deposit_silently, deposit_copies,
  drain_observers,
}
use liwaisi_assistant.Executor.{
  consume_all, deposit_at, deposit_each, deposit_results, fire_tool_handler, fire_tool,
  dispatch_kind, dispatch, check_completion_or_deadlock, collect_firable, launch, emit_started,
  run_firing, run_firings, error_token, error_route, route_error, process_errors, settle,
  fire_round, round, run_loop, run,
}
use liwaisi_assistant.Base.{lookup, insert, modify}
use liwaisi_assistant.Runs.Typing.Firing.{WorldTyped, EnvKeeps}
use liwaisi_assistant.Runs.Typing.Rounds.{left_in}
use liwaisi_assistant.Runs.Typing.Loop.{run-WorldTyped}

abbrev firable : Dict String
firable = ("merge", "merge") ∷ ("watcher", "watcher") ∷ []

abbrev is_json : Token → Bool
is_json t = elim t.color [ json ↦ true | _ ↦ false ]

launch-tally_example :
    handed_out is_json (launch 7 firable net).0 + tally is_json (launch 7 firable net).1.places
    ≡ tally is_json places
unfolding new_cpn
launch-tally_example = launch-tally is_json 7 firable net

inputs_differ : Distinct ("drafts" ∷ "approvals" ∷ [])
inputs_differ = ((ground (arith, eq_iff "drafts" "approvals"), tt), (tt, tt))

all_differ : DistinctInputs net.transitions
unfolding new_cpn new_transition
all_differ = (inputs_differ, ((tt, tt), tt))

launch-Launched_example :
    Launched net.places (launch 7 firable net).0 (launch 7 firable net).1.places
launch-Launched_example = launch-Launched 7 firable net all_differ

abbrev failures : Dict Error
failures = ("merge", external 1) ∷ ("merge", external 2) ∷ []

merge-Routable : Routable net.transitions net.places "merge"
unfolding lookup new_cpn new_transition
merge-Routable = record {
  transition = merge;
  found = refl;
  named = ground (arith, eq_iff "errors" "");
  place = place_of "errors" error computation [];
  there = refl;
  colored = refl;
}

process_errors-routed_example :
    (d : Cpn) × (process_errors 9 failures net ≡ go_on d)
    × (total d.places ≡ total net.places + length failures)
    × (d.state ≡ net.state)
    × (d.error ≡ net.error)
process_errors-routed_example =
    process_errors-routed 9 failures net (merge-Routable, (merge-Routable, tt))

watcher_there : lookup "watcher" net.transitions ≡ some watcher
unfolding lookup new_cpn
watcher_there = refl

watcher_silent : watcher.error_place ≡ ""
unfolding new_transition
watcher_silent = refl

-- A net whose work is done: its last place holds a token, and nothing can fire.
abbrev finished : Cpn
finished =
    new_cpn "root" "reviewer" (ℤ.pos 0) Mode.mas "s1"
      (("drafts", place_of "drafts" json computation [])
        ∷ ("done", place_of "done" json computation (draft ∷ []))
        ∷ [])
      (("finish", new_transition "finish" NodeKind.tool ("drafts" ∷ []) ("done" ∷ [])) ∷ [])

abbrev finished_world : World
finished_world = with_net world finished

completes :
    run env as_launched 1 finished_world
    ≡ some (returned none (with_net world (set_state State.completed finished)))
unfolding deposit consume peek same_color is_human_origin snapshot allow record_success gate
    note_success wants_retry backoff_duration max_attempts fire_once retry_loop do_retry
    new_transition available gather enabled can_fire_with can_fire new_cpn is_process_event try_send
    self_event_bus stamp to_sink to_emitter to_self_bus emit both_origins centaurian_guard set_mode
    in_computation is_computation_transition effective_guard effective_can_fire
    has_human_in_computation hitl_firable check_mode_switch is_input terminal_places is_complete
    missing check_error_place check_arc_references check_hitl_config is_bash_output
    check_bash_outputs check_bash_config bypasses check_space_violations check_transition check_all
    validate bus_events pending_events observers accepts event_token deposit_silently deposit_copies
    drain_observers consume_all deposit_at deposit_each deposit_results fire_tool_handler fire_tool
    dispatch_kind dispatch check_completion_or_deadlock collect_firable launch emit_started
    run_firing run_firings error_token error_route route_error process_errors settle fire_round
    round run_loop run lookup insert modify sort_by_key insert_by_key same_space
completes = refl

env_reports : EnvReports env
env_reports = record {
  llm = λ t ts w h. h;
  validate = λ t ts w h. h;
  sub_net = λ t ts w h. h;
  hitl = λ t ts w h. h;
  hitl_with_revision = λ t ts w h. h;
  bash = λ t ts w h. h;
  register_tool = λ t ts w h. h;
  synthesize = λ t ts w h. h;
  instantiate = λ t ts w h. h;
  sleep = λ d w h. h;
  children = λ c h f n. cc;
}

run-Agrees_example : Agrees none (set_state State.completed finished)
run-Agrees_example =
    run-Agrees env as_launched env_reports 1 finished_world
      (with_net world (set_state State.completed finished)) none completes

run_returns_example : (f : Flow World) × (run env as_launched (5 + 1) world ≡ some f)
run_returns_example = run_returns env as_launched world 5 refl

env_keeps : EnvKeeps env
env_keeps = record {
  llm = λ t ts w h. h;
  validate = λ t ts w h. h;
  sub_net = λ t ts w h. h;
  hitl = λ t ts w h. h;
  hitl_with_revision = λ t ts w h. h;
  bash = λ t ts w h. h;
  register_tool = λ t ts w h. h;
  synthesize = λ t ts w h. h;
  instantiate = λ t ts w h. h;
  sleep = λ d w h. h;
  children = λ c h. h;
}

world_typed : WorldTyped finished_world
unfolding new_cpn
world_typed = (tt, (((refl, refl), tt), tt))

run-WorldTyped_example :
    WorldTyped (left_in (returned none (with_net world (set_state State.completed finished))))
run-WorldTyped_example =
    run-WorldTyped env as_launched env_keeps 1 finished_world
      (returned none (with_net world (set_state State.completed finished))) world_typed completes
