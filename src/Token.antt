-- ===== src/Token.antt =====
-- back/go-assistant/cpn: colors.go, kinds.go, space.go, mode.go's constants, token.go, and the event
-- record of event.go. The named string types are enumerations of their constants:
-- `SpaceKind.unset` is the empty string, which a tool handler may leave in a token, and
-- `NodeKind.unknown` any other kind. A payload (`any`) is told apart as far as the modelled code
-- looks into it, `opaque` being any other value. A snapshot leaves the payload preview out.
use liwaisi_assistant.Base.{
  ℕ, ℤ, String, ◌≡◌, ◌↔◌, Bool, true, false, ◌||◌, List, is_yes, is_yes_iff,
}
use liwaisi_assistant.Errors.{Error}

pub data ColorSet : Type 0 where
  string json artifact score event human cpn schema error identity tool_manifest : ColorSet
  shell_cmd shell_chunk shell_result host_fact process topology flow_ref : ColorSet

ColorSet-discrete : Discrete ColorSet
ColorSet-discrete = hlevel

-- Go's `==` on two colours, and on two spaces.
unfoldable pub same_color : ColorSet → ColorSet → Bool
unfolding ColorSet-discrete
same_color c d = is_yes (ColorSet-discrete c d)

pub same_color_iff : (c d : ColorSet) → (same_color c d ≡ true) ↔ (c ≡ d)
unfolding same_color
same_color_iff c d = is_yes_iff (ColorSet-discrete c d)

pub data SpaceKind : Type 0 where
  surface observation computation unset : SpaceKind

SpaceKind-discrete : Discrete SpaceKind
SpaceKind-discrete = hlevel

unfoldable pub same_space : SpaceKind → SpaceKind → Bool
unfolding SpaceKind-discrete
same_space s t = is_yes (SpaceKind-discrete s t)

pub same_space_iff : (s t : SpaceKind) → (same_space s t ≡ true) ↔ (s ≡ t)
unfolding same_space
same_space_iff s t = is_yes_iff (SpaceKind-discrete s t)

pub data NodeKind : Type 0 where
  tool llm validate subnet observer hitl bash register_tool synthesize instantiate : NodeKind
  topology_mutate : NodeKind
  unknown : String → NodeKind

pub data Mode : Type 0 where
  mas centaurian : Mode

pub data HitlAction : Type 0 where
  approve reject revise submit : HitlAction

pub record HitlResponse : Type 0 where
  pub action : HitlAction
  pub content : String

pub data EventType : Type 0 where
  transition_fired subnet_started subnet_completed subnet_failed hitl_requested : EventType
  hitl_resolved token_deposited mode_switch stream_chunk transition_started : EventType
  transition_completed tool_executed personality_loaded personality_modified : EventType
  conflict_detected tool_registered process_started process_stdout process_stderr : EventType
  process_exit topology_mutated topology_mutation_rejected : EventType

pub record TokenSnapshot : Type 0 where
  pub color : ColorSet
  pub space : SpaceKind
  pub origin_id : String
  pub origin_kind : NodeKind

pub data EventPayload : Type 0 where
  nil : EventPayload
  switched : (from to : Mode) → EventPayload
  started : List TokenSnapshot → EventPayload
  completed : List TokenSnapshot → EventPayload
  failed : Error → EventPayload
  process_output : (session : String) → EventPayload
  opaque : ℕ → EventPayload

pub record Event : Type 0 where
  pub type : EventType
  pub session_id : String
  pub cpn_id : String
  pub cpn_depth : ℤ
  pub cpn_role : String
  pub transition_id : String
  pub transition_kind : NodeKind
  pub payload : EventPayload
  pub timestamp : ℕ

pub data Payload : Type 0 where
  nil : Payload
  text : String → Payload
  failure : Error → Payload
  observed : Event → Payload
  response : HitlResponse → Payload
  opaque : ℕ → Payload

pub record Token : Type 0 where
  pub color : ColorSet
  pub payload : Payload
  pub origin_id : String
  pub origin_depth : ℤ
  pub origin_kind : NodeKind
  pub space : SpaceKind
  pub session_id : String
  pub trace_id : String
  pub timestamp : ℕ

abbrev pub is_hitl : NodeKind → Bool
is_hitl hitl = true
is_hitl _ = false

abbrev pub is_human_color : ColorSet → Bool
is_human_color human = true
is_human_color _ = false

unfoldable pub is_human_origin : Token → Bool
is_human_origin t = is_human_color t.color || is_hitl t.origin_kind

unfoldable pub is_shell_color : ColorSet → Bool
is_shell_color shell_cmd = true
is_shell_color shell_chunk = true
is_shell_color shell_result = true
is_shell_color host_fact = true
is_shell_color process = true
is_shell_color _ = false

unfoldable pub snapshot : Token → TokenSnapshot
snapshot t = record {
  color = t.color;
  space = t.space;
  origin_id = t.origin_id;
  origin_kind = t.origin_kind;
}
