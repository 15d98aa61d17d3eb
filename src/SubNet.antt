-- ===== src/SubNet.antt =====
-- back/go-assistant/cpn/subnet.go: a child net is fed with the tokens that the transition consumed, and
-- reports to its parent when its goroutine is done. A place of the child is named by its key. The
-- start of the goroutine (the clone of the prototype, the random id, the bus, the group) is left out,
-- and the summary, whose text prints payloads, is a parameter. What the goroutine does after the
-- child's `Run` is `child_done`, run whole.
pub mod Inputs
pub mod Outputs
pub mod Places
pub mod Reports
use liwaisi_assistant.Base.{
  ℕ, zero, suc, ◌+◌, ◌-◌, String, Bool, true, false, not, Option, none, some, List, [], ◌∷◌, ◌++◌,
  map, any, keep, Dict, lookup, insert, values, length, nat_eq, if◌then◌else◌, ◌==◌, Result, ok,
  err, ℤ,
}
use liwaisi_assistant.Errors.{Error, sub_net_failed, error_place_deposit_failed, deposits_failed}
use liwaisi_assistant.Token.{
  Token, ColorSet, same_color, error, Payload, failure, NodeKind, subnet, subnet_failed,
  subnet_completed, EventPayload, failed, EventType,
}
use liwaisi_assistant.Place.{Place, new_place, deposit, peek}
use liwaisi_assistant.Transition.{Transition}
use liwaisi_assistant.Net.{Cpn, Message, bare, emit, set_failed, member, terminal_places}
use liwaisi_assistant.Validate.{sort_by_key}

unfoldable pub is_output : List Transition → String → Bool
is_output ts pid = any (λ t. member pid t.output_places) ts

-- The places that no transition writes, with their keys.
unfoldable pub source_places : Cpn → Dict Place
source_places c = keep (λ e. not (is_output (values c.transitions) e.0)) c.places

-- `colorIdx`: a later place of the same colour replaces an earlier one.
unfoldable pub by_color : ColorSet → Dict Place → Option String
by_color color [] = none
by_color color (e ∷ es) =
    let later = by_color color es in
    elim later [ some k ↦ some k | none ↦ if same_color e.1.color color then some e.0 else none ]

-- The source with the least id, by its key.
unfoldable pub fallback : Dict Place → Option String
fallback sources = elim (sort_by_key (map (λ e. (e.1.id, e.0)) sources)) [
  | [] ↦ none
  | (e ∷ es) ↦ some e.1
]

abbrev pub or_else : Option String → String → String
or_else none k = k
or_else (some j) k = j

-- The token as the place takes it.
abbrev pub fitted : Token → Place → Token
fitted t p = record t { color = p.color; space = p.space }

-- A deposit whose error is dropped.
unfoldable pub inject_token : (target : String) → Token → Dict Place → Dict Place
inject_token target t places = elim (lookup target places) [
  | none ↦ places
  | some p ↦ elim (deposit (fitted t p) p) [ ok q ↦ insert target q places | err e ↦ places ]
]

unfoldable pub inject_each : Dict Place → (last : String) → List Token → Dict Place → Dict Place
inject_each sources last [] places = places
inject_each sources last (t ∷ ts) places =
    inject_each sources last ts (inject_token (or_else (by_color t.color sources) last) t places)

unfoldable pub inject_tokens : List Token → Cpn → Cpn
inject_tokens ts child =
    let sources = source_places child in
    elim (fallback sources) [
      | none ↦ child
      | some last ↦ record child { places = inject_each sources last ts child.places }
    ]

-- The tokens of the terminal places, as the child's.
unfoldable pub outputs_of : Cpn → List Place → List Token
outputs_of child [] = []
outputs_of child (p ∷ ps) =
    map {A = Token} (λ t. record t { origin_id = child.id; origin_depth = child.depth }) p.tokens
    ++ outputs_of child ps

-- All tokens into one place, with the number of deposits that fail.
unfoldable pub deposit_into : (pid : String) → List Token → Dict Place → ℕ × Dict Place
deposit_into pid [] places = (0, places)
deposit_into pid (t ∷ ts) places = elim (lookup pid places) [
  | none ↦ (0, places)
  | some p ↦ elim (deposit (fitted t p) p) [
    | err e ↦ let rest = deposit_into pid ts places in (rest.0 + 1, rest.1)
    | ok q ↦ deposit_into pid ts (insert pid q places)
  ]
]

unfoldable pub deposit_outputs : List String → List Token → Dict Place → ℕ × Dict Place
deposit_outputs [] ts places = (0, places)
deposit_outputs (pid ∷ pids) ts places =
    let one = deposit_into pid ts places in
    let rest = deposit_outputs pids ts one.1 in (one.0 + rest.0, rest.1)

-- An event of the child's goroutine about its transition.
unfoldable pub tell : ℕ → Transition → EventType → EventPayload → Cpn → Cpn
tell now t type payload c =
    emit now
      (record (bare type payload) {
        transition_id = t.id;
        transition_kind = subnet;
        timestamp = now;
      })
      c

unfoldable pub child_error_token : ℕ → (child : Cpn) → Place → Error → Cpn → Token
child_error_token now child ep e parent = record {
  color = error;
  payload = failure (sub_net_failed e);
  origin_id = child.id;
  origin_depth = child.depth;
  origin_kind = subnet;
  space = ep.space;
  session_id = parent.session_id;
  trace_id = "";
  timestamp = now;
}

-- The child failed. An error place that is named and missing takes the error away.
unfoldable pub child_failed : ℕ → Transition → (child : Cpn) → Error → Cpn → Cpn
child_failed now t child e parent =
    let told = tell now t subnet_failed (failed e) parent in
    if t.error_place == ""
    then set_failed (sub_net_failed e) told
    else elim (lookup t.error_place told.places) [
      | none ↦ told
      | some ep ↦ elim (deposit (child_error_token now child ep e told) ep) [
        | ok q ↦ record told { places = insert t.error_place q told.places }
        | err x ↦ tell now t subnet_failed (failed (error_place_deposit_failed x)) told
      ]
    ]

unfoldable pub tell_failures : ℕ → Transition → (failures : ℕ) → Cpn → Cpn
tell_failures now t failures c =
    if nat_eq failures 0 then c else tell now t subnet_failed (failed (deposits_failed failures)) c

unfoldable pub note_summary : ℕ → Transition → Result Error Message → Cpn → Cpn
note_summary now t (err e) c = tell now t subnet_failed (failed e) c
note_summary now t (ok m) c = record c { history = c.history ++ m ∷ [] }

-- The child completed: its outputs, the summary of it in the history, and the event.
unfoldable pub child_completed :
    ℕ → Transition → (child : Cpn) → (summary : Result Error Message) → Cpn → Cpn
child_completed now t child summary parent =
    let ts = outputs_of child (terminal_places child) in
    let (failures, places) = deposit_outputs t.output_places ts parent.places in
    let told = tell_failures now t failures (record parent { places = places }) in
    tell now t subnet_completed EventPayload.nil (note_summary now t summary told)

-- The goroutine of the child after its `Run`, which ends with the child no longer active.
unfoldable pub child_done :
    ℕ
    → Transition
    → (child : Cpn) → (answer : Option Error) → (summary : Result Error Message) → Cpn
    → Cpn
child_done now t child answer summary parent =
    let c : Cpn = elim answer [
      | some e ↦ child_failed now t child e parent
      | none ↦ child_completed now t child summary parent
    ] in
    record c { active_children = c.active_children - 1 }
