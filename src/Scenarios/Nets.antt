-- ===== src/Scenarios/Nets.antt =====
-- The theorems on the modes, the events and the checks of a net, on the review net.
use liwaisi_assistant.Base.{
  ◌+◌, ◌≡◌, refl, ◌↔◌, ◌⊎◌, true, none, some, [], ◌∷◌, ◌++◌, lookup, All, length, values,
}
use liwaisi_assistant.Token.{Mode, is_human_origin}
use liwaisi_assistant.Transition.{passes, gather, available, enabled, can_fire_with, new_transition}
use liwaisi_assistant.Transition.Firing.{IsMarked, tokens_of}
use liwaisi_assistant.Net.{
  Cpn, centaurian_guard, is_computation_transition, effective_can_fire, effective_guard,
  in_computation, both_origins, emit, stamp, is_process_event, self_event_bus_capacity,
  has_human_in_computation, check_mode_switch, new_cpn,
}
use liwaisi_assistant.Place.{peek}
use liwaisi_assistant.Retry.{gate}
use liwaisi_assistant.Behaviour.Guards.{HasBoth, effective_can_fire-HasBoth}
use liwaisi_assistant.Behaviour.Delivery.{emit-queued_or_dropped, waiting_events}
use liwaisi_assistant.Behaviour.Switching.{some_hitl, check_mode_switch_iff}
use liwaisi_assistant.Validate.{validate}
use liwaisi_assistant.Validate.Soundness.{IsWellFormed, validate_iff}
use liwaisi_assistant.Scenarios.Data.{places, transitions, merge, net, net_in, output_event}

abbrev shared : Cpn
shared = net_in Mode.centaurian

shared_computes : is_computation_transition shared merge ≡ true
unfolding is_computation_transition in_computation lookup new_cpn new_transition
shared_computes = refl

shared_fires : (effective_can_fire 7 shared merge).0 ≡ true
unfolding effective_can_fire effective_guard can_fire_with gate enabled gather available lookup peek
    is_computation_transition in_computation centaurian_guard both_origins is_human_origin new_cpn
    new_transition
shared_fires = refl

effective_can_fire-HasBoth_example :
    All (IsMarked places) merge.input_places
    × HasBoth (tokens_of places merge.input_places)
    × (passes merge.guard (tokens_of places merge.input_places) ≡ true)
unfolding new_cpn new_transition
effective_can_fire-HasBoth_example =
    effective_can_fire-HasBoth 7 shared merge refl refl shared_computes shared_fires

abbrev metered : Cpn
metered = record net { drops = some 2 }

emit-queued_or_dropped_example :
    (waiting_events (emit 9 output_event metered)
        ≡ waiting_events metered ++ stamp 9 output_event metered ∷ [])
      × ((emit 9 output_event metered).drops ≡ some 2)
    ⊎ (length (waiting_events metered) ≡ self_event_bus_capacity)
      × (waiting_events (emit 9 output_event metered) ≡ waiting_events metered)
      × ((emit 9 output_event metered).drops ≡ some (2 + 1))
unfolding new_cpn is_process_event
emit-queued_or_dropped_example = emit-queued_or_dropped 9 output_event metered 2 tt refl refl

check_mode_switch_iff_example : ((check_mode_switch 9 net).mode ≡ Mode.centaurian) ↔ (
    (has_human_in_computation (values net.places) ≡ true)
    ⊎ (net.mode ≡ Mode.centaurian) × (some_hitl 9 net.places net.transitions ≡ true))
check_mode_switch_iff_example = check_mode_switch_iff 9 net

validate_iff_example :
    (validate places transitions ≡ none) ↔ All (λ e. IsWellFormed places e.1) transitions
validate_iff_example = validate_iff places transitions
