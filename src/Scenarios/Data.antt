-- ===== src/Scenarios/Data.antt =====
-- A net that merges a draft of a model with a human's approval, as test data.
use liwaisi_assistant.Base.{String, true, ◌+◌, none, some, List, [], ◌∷◌, Dict, leb, ok, ℤ}
use liwaisi_assistant.Errors.{external}
use liwaisi_assistant.Token.{
  ColorSet, json, human, error, event, SpaceKind, computation, observation, NodeKind, Mode, Token,
  text, process_stdout, Event, process_output,
}
use liwaisi_assistant.Place.{Place}
use liwaisi_assistant.Retry.{CircuitBreakerConfig, RetryPolicy, failure_of}
use liwaisi_assistant.Transition.{Transition, new_transition}
use liwaisi_assistant.Net.{Cpn, State, new_cpn, bare}
use liwaisi_assistant.Mutate.{other}
use liwaisi_assistant.Executor.{World, Env, Fire, Schedule}

abbrev pub token_of : ColorSet → SpaceKind → NodeKind → Token
token_of color space kind = record {
  color = color;
  payload = text "hello";
  origin_id = "root";
  origin_depth = ℤ.pos 0;
  origin_kind = kind;
  space = space;
  session_id = "s1";
  trace_id = "";
  timestamp = 3;
}

abbrev pub draft : Token
draft = token_of json computation NodeKind.llm

abbrev pub approval : Token
approval = token_of human computation NodeKind.hitl

abbrev pub place_of : String → ColorSet → SpaceKind → List Token → Place
place_of id color space tokens = record { id = id; color = color; space = space; tokens = tokens }

abbrev pub drafts : Place
drafts = place_of "drafts" json computation (draft ∷ draft ∷ [])

abbrev pub places : Dict Place
places =
    ("drafts", drafts)
    ∷ ("approvals", place_of "approvals" human computation (approval ∷ []))
    ∷ ("done", place_of "done" json computation [])
    ∷ ("errors", place_of "errors" error computation [])
    ∷ ("watch", place_of "watch" event observation [])
    ∷ []

abbrev pub merge : Transition
merge = record (new_transition "merge" NodeKind.tool ("drafts" ∷ "approvals" ∷ []) ("done" ∷ [])) {
  error_place = "errors";
  executor = some (λ n t. ok draft);
}

abbrev pub watcher : Transition
watcher = new_transition "watcher" NodeKind.observer ("watch" ∷ []) ("watch" ∷ [])

abbrev pub transitions : Dict Transition
transitions = ("merge", merge) ∷ ("watcher", watcher) ∷ []

abbrev pub net_in : Mode → Cpn
net_in mode = new_cpn "root" "reviewer" (ℤ.pos 0) mode "s1" places transitions

abbrev pub net : Cpn
net = net_in Mode.mas

abbrev pub hot_net : Cpn
hot_net = record net { mutable_after_start = true }

abbrev pub output_event : Event
output_event = bare process_stdout (process_output "shell")

abbrev pub config : CircuitBreakerConfig
config = record { failure_threshold = 2; open_duration = 10 }

abbrev pub policy : RetryPolicy
policy = record {
  max_attempts = 3;
  initial_wait = 1;
  max_wait = 8;
  backoff = λ n. n + 1;
  retry_on = none;
}

abbrev refusing : Fire
refusing t ts w = (failure_of 0 (external 1), w)

-- An environment whose context is cancelled at round 5.
abbrev pub env : Env
env = record {
  time = λ n. n + 7;
  cancelled = λ n. leb 5 n;
  sleep = λ d w. (none, w);
  plus = λ a b. a + b;
  decode = λ p. ok other;
  fire_llm = refusing;
  fire_validate = refusing;
  fire_sub_net = refusing;
  fire_hitl = refusing;
  fire_hitl_with_revision = refusing;
  fire_bash = refusing;
  fire_register_tool = refusing;
  fire_synthesize = refusing;
  fire_instantiate = refusing;
  await_children = λ c. record c { active_children = 0; state = State.running };
}

abbrev pub as_launched : Schedule
as_launched fs = fs

abbrev pub world : World
world = record { net = net; calls = 0; audit = some [] }
