-- ===== src/Net/Record.antt =====
-- The record `CPN` of back/go-assistant/cpn/cpn.go and the methods that set one or two fields.
use liwaisi_assistant.Base.{
  ℕ, ℤ, String, Bool, false, Option, none, some, List, [], Dict, insert, has, map, if◌then◌else◌,
  ◌==◌,
}
use liwaisi_assistant.Errors.{Error}
use liwaisi_assistant.Token.{Mode, Event}
use liwaisi_assistant.Place.{Place, clear}
use liwaisi_assistant.Transition.{Transition}

pub data State : Type 0 where
  idle running waiting completed failed : State

-- A Go channel of events as its buffer: at most `capacity` events are waiting in `queue`.
pub record Channel : Type 0 where
  pub capacity : ℕ
  pub queue : List Event

pub data MessageRole : Type 0 where
  user assistant observer : MessageRole

pub record Message : Type 0 where
  pub id : String
  pub role : MessageRole
  pub content : String
  pub cpn_id : String
  pub cpn_role : String
  pub cpn_depth : ℤ
  pub timestamp : ℕ
  pub parent_message_id : String

pub record Cpn : Type 0 where
  pub id : String
  pub role : String
  pub depth : ℤ
  pub mode : Mode
  pub initial_mode : Mode
  pub state : State
  pub error : Option Error
  pub places : Dict Place
  pub transitions : Dict Transition
  pub session_id : String
  pub history : List Message
  pub event_sink : Bool
  pub sunk : List Event
  pub event_emitter : Option Channel
  pub sub_net_buses : Dict Channel
  pub self_bus : Option Channel
  pub drops : Option ℕ
  pub active_children : ℕ
  pub streamed_output : Bool
  pub seed_func : Option (Dict Place → Dict Place)
  pub approved_flows : Dict (Unit {0})
  pub mutable_after_start : Bool

unfoldable pub new_cpn :
    (id role : String) → ℤ → Mode → (session_id : String) → Dict Place → Dict Transition → Cpn
new_cpn id role depth mode session_id places transitions = record {
  id = id;
  role = role;
  depth = depth;
  mode = mode;
  initial_mode = mode;
  state = idle;
  error = none;
  places = places;
  transitions = transitions;
  session_id = session_id;
  history = [];
  event_sink = false;
  sunk = [];
  event_emitter = none;
  sub_net_buses = [];
  self_bus = none;
  drops = none;
  active_children = 0;
  streamed_output = false;
  seed_func = none;
  approved_flows = [];
  mutable_after_start = false;
}

abbrev pub set_state : State → Cpn → Cpn
set_state s c = record c { state = s }

abbrev pub set_failed : Error → Cpn → Cpn
set_failed e c = record c { state = failed; error = some e }

unfoldable pub register_sub_net_bus : String → Channel → Cpn → Cpn
register_sub_net_bus child bus c = record c { sub_net_buses = insert child bus c.sub_net_buses }

abbrev pub clear_places : Dict Place → Dict Place
clear_places = map (λ e. (e.0, clear e.1))

abbrev pub seeded : Option (Dict Place → Dict Place) → Dict Place → Dict Place
seeded none places = places
seeded (some seed) places = seed places

unfoldable pub reset : Cpn → Cpn
reset c = record c {
  state = idle;
  error = none;
  mode = c.initial_mode;
  history = [];
  streamed_output = false;
  places = seeded c.seed_func (clear_places c.places);
}

unfoldable pub has_approved_flow : String → Cpn → Bool
has_approved_flow flow c = has flow c.approved_flows

unfoldable pub mark_flow_approved : String → Cpn → Cpn
mark_flow_approved flow c =
    if flow == "" then c else record c { approved_flows = insert flow tt c.approved_flows }
