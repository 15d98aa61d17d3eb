-- ===== src/Observer.antt =====
-- back/go-assistant/cpn/observer.go: the events of the children's buses and of the net's own bus are
-- drained, and each is handed to every observer transition. Receiving from a closed channel ends the
-- drain of that channel, as an empty one does, so that a channel is its buffer here too.
pub mod Dispatch
use liwaisi_assistant.Base.{
  ℕ, String, Bool, true, false, not, ◌&&◌, Option, none, some, List, [], ◌∷◌, ◌++◌, Dict, lookup,
  insert, keep, values, map, is_empty, is_some, if◌then◌else◌, ◌==◌, Result, ok, err,
}
use liwaisi_assistant.Token.{Token, Event, NodeKind, event, observation, observed}
use liwaisi_assistant.Place.{Place, deposit}
use liwaisi_assistant.Transition.{Transition, is_observer}
use liwaisi_assistant.Net.{Cpn, Channel}

abbrev pub drained : Channel → Channel
drained ch = record ch { queue = [] }

abbrev pub queue_of : Option Channel → List Event
queue_of none = []
queue_of (some ch) = ch.queue

-- Phase 1 on the children's buses: what they held, in the order of the buses.
unfoldable pub bus_events : Dict Channel → List Event
bus_events [] = []
bus_events (e ∷ es) = e.1.queue ++ bus_events es

unfoldable pub pending_events : Cpn → List Event
unfolding bus_events
pending_events c = bus_events c.sub_net_buses ++ queue_of c.self_bus

abbrev pub drained_option : Option Channel → Option Channel
drained_option none = none
drained_option (some ch) = some (drained ch)

abbrev pub drained_buses : Cpn → Cpn
drained_buses c = record c {
  sub_net_buses = map (λ e. (e.0, drained e.1)) c.sub_net_buses;
  self_bus = drained_option c.self_bus;
}

unfoldable pub observers : Cpn → List Transition
observers c = keep (λ t. is_observer t.kind) (values c.transitions)

-- The two filters of an observer, the net's identity first.
unfoldable pub accepts : Transition → Event → Bool
accepts obs e =
    if not (obs.observed_cpn_id == "") && not (e.cpn_id == obs.observed_cpn_id)
    then false
    else elim obs.event_filter [ none ↦ true | some f ↦ f e ]

unfoldable pub event_token : ℕ → Cpn → Event → Token
event_token now c e = record {
  color = event;
  payload = observed e;
  origin_id = e.cpn_id;
  origin_depth = e.cpn_depth;
  origin_kind = NodeKind.observer;
  space = observation;
  session_id = c.session_id;
  trace_id = "";
  timestamp = now;
}

-- A deposit whose error is dropped, like a missing place.
unfoldable pub deposit_silently : Token → String → Dict Place → Dict Place
deposit_silently t pid places = elim (lookup pid places) [
  | none ↦ places
  | some p ↦ elim (deposit t p) [ err e ↦ places | ok q ↦ insert pid q places ]
]

unfoldable pub deposit_copies : Token → List String → Dict Place → Dict Place
deposit_copies t [] places = places
deposit_copies t (pid ∷ pids) places = deposit_copies t pids (deposit_silently t pid places)

-- The inner loop of phase 2, over the observers.
unfoldable pub offer : ℕ → Cpn → Event → List Transition → Dict Place → Dict Place
offer now c e [] places = places
offer now c e (obs ∷ rest) places = offer now c e rest (
    if accepts obs e then deposit_copies (event_token now c e) obs.output_places places else places)

unfoldable pub dispatch_events : ℕ → Cpn → List Transition → List Event → Dict Place → Dict Place
dispatch_events now c obs [] places = places
dispatch_events now c obs (e ∷ es) places = dispatch_events now c obs es (offer now c e obs places)

-- Nothing is drained where no observer would see it.
unfoldable pub drain_observers : ℕ → Cpn → Cpn
drain_observers now c =
    if is_empty c.sub_net_buses && not (is_some c.self_bus)
    then c
    else if is_empty (observers c)
    then c
    else record (drained_buses c) {
      places = dispatch_events now c (observers c) (pending_events c) c.places;
    }
