-- ===== src/Transition.antt =====
-- back/go-assistant/cpn/transition.go: a transition and its firing rule. The callbacks are functions:
-- the number that an executor or a handler takes first is the number of the call, so that it may
-- answer each call in its own way. `ErrorPlace` and `ObservedCPNID` are texts, the empty one for
-- none. The fields of the configurations that no modelled code reads are left out.
pub mod Firing
use liwaisi_assistant.Base.{
  ℕ, String, Bool, true, false, Option, none, some, List, [], ◌∷◌, ◌++◌, Result, Dict, lookup,
  is_empty, if◌then◌else◌,
}
use liwaisi_assistant.Errors.{Error}
use liwaisi_assistant.Token.{NodeKind, observer, Event, Token}
use liwaisi_assistant.Place.{Place, peek}
use liwaisi_assistant.Retry.{CircuitBreakerState, RetryPolicy, gate}

pub record BashConfig : Type 0 where
  pub command : String

pub record HitlConfig : Type 0 where
  pub has_channel : Bool
  pub revision_loop : Bool

abbrev pub Guard : Type 0
Guard = Option (List Token → Bool)

pub record Transition : Type 0 where
  pub id : String
  pub kind : NodeKind
  pub input_places : List String
  pub output_places : List String
  pub error_place : String
  pub guard : Guard
  pub retry : Option RetryPolicy
  pub cb_state : Option CircuitBreakerState
  pub executor : Option (ℕ → Token → Result Error Token)
  pub tool_handler : Option (ℕ → List Token → Result Error (Dict Token))
  pub hitl_config : Option HitlConfig
  pub bash_config : Option BashConfig
  pub observed_cpn_id : String
  pub event_filter : Option (Event → Bool)
  pub silent : Bool
  pub deprecated : Bool
  pub deprecate_reason : String

abbrev pub is_observer : NodeKind → Bool
is_observer observer = true
is_observer _ = false

unfoldable pub new_transition : String → NodeKind → (inputs outputs : List String) → Transition
new_transition id kind inputs outputs = record {
  id = id;
  kind = kind;
  input_places = inputs;
  output_places = outputs;
  error_place = "";
  guard = none;
  retry = none;
  cb_state = none;
  executor = none;
  tool_handler = none;
  hitl_config = none;
  bash_config = none;
  observed_cpn_id = "";
  event_filter = none;
  silent = is_observer kind;
  deprecated = false;
  deprecate_reason = "";
}

-- The tokens of one place, if it is there and holds any.
unfoldable pub available : Dict Place → String → Option (List Token)
available places pid = elim (lookup pid places) [ none ↦ none | some p ↦ peek p ]

-- The loop over `InputPlaces`: all their tokens, or `none` if a place is missing or empty.
unfoldable pub gather : Dict Place → List String → Option (List Token)
gather places [] = some []
gather places (pid ∷ pids) =
    let rest = gather places pids in
    elim (available places pid) [
      | none ↦ none
      | some ts ↦ elim rest [ none ↦ none | some us ↦ some (ts ++ us) ]
    ]

abbrev pub passes : Guard → List Token → Bool
passes none ts = true
passes (some g) ts = g ts

-- The firing rule behind the deprecation mark and the breaker.
unfoldable pub enabled : Dict Place → Guard → Transition → Bool
enabled places guard t =
    if is_empty t.input_places
    then false
    else elim (gather places t.input_places) [ none ↦ false | some ts ↦ passes guard ts ]

-- `canFireWith` at the time `now`. It may close the breaker of the transition.
unfoldable pub can_fire_with : ℕ → Dict Place → Guard → Transition → Bool × Transition
can_fire_with now places guard t =
    if t.deprecated
    then (false, t)
    else let (allowed, cb) = gate now t.cb_state in
      let t' = record t { cb_state = cb } in
      if allowed then (enabled places guard t', t') else (false, t')

unfoldable pub can_fire : ℕ → Dict Place → Transition → Bool × Transition
unfolding can_fire_with
can_fire now places t = can_fire_with now places t.guard t
