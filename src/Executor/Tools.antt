-- ===== src/Executor/Tools.antt =====
-- back/go-assistant/cpn/executor.go: `consumeAll`, `fireTool` and `fireToolHandler`.
use liwaisi_assistant.Base.{
  ℕ, ◌+◌, String, Bool, true, false, Option, none, some, List, [], ◌∷◌, Dict, lookup, insert,
  if◌then◌else◌, Result, ok, err,
}
use liwaisi_assistant.Errors.{
  Error, nil_executor, no_consumed, output_not_found, no_result_token, deposit_failed,
}
use liwaisi_assistant.Token.{
  SpaceKind, unset, NodeKind, tool, Payload, Token, TokenSnapshot, snapshot,
}
use liwaisi_assistant.Place.{Place, deposit, consume}
use liwaisi_assistant.Retry.{Fired, failure_of}
use liwaisi_assistant.Transition.{Transition}
use liwaisi_assistant.Net.{Cpn}
use liwaisi_assistant.Mutate.{Mutation, AuditLog}

pub record World : Type 0 where
  pub net : Cpn
  pub calls : ℕ
  pub audit : AuditLog

abbrev pub Fire : Type 0
Fire = Transition → List Token → World → Fired × World

pub record Env : Type 0 where
  -- `time.Now()` after a number of calls.
  pub time : ℕ → ℕ
  -- `ctx.Done()` at the start of a round, and the cancellable sleep.
  pub cancelled : ℕ → Bool
  pub sleep : ℕ → World → Option Error × World
  -- The addition of costs, which are float64 numbers by their bits.
  pub plus : ℕ → ℕ → ℕ
  -- The JSON round trip of a payload into a `Mutation`.
  pub decode : Payload → Result Error Mutation
  pub fire_llm : Fire
  pub fire_validate : Fire
  pub fire_sub_net : Fire
  pub fire_hitl : Fire
  pub fire_hitl_with_revision : Fire
  pub fire_bash : Fire
  pub fire_register_tool : Fire
  pub fire_synthesize : Fire
  pub fire_instantiate : Fire
  -- `childWg.Wait()`: the net after all its children are done.
  pub await_children : Cpn → Cpn

unfoldable pub consume_all : List String → Dict Place → List Token × Dict Place
consume_all [] places = ([], places)
consume_all (pid ∷ pids) places = elim (lookup pid places) [
  | none ↦ consume_all pids places
  | some p ↦ elim (consume p) [
    | err e ↦ consume_all pids places
    | ok (t, q) ↦ let rest = consume_all pids (insert pid q places) in (t ∷ rest.0, rest.1)
  ]
]

abbrev pub with_places : World → Dict Place → World
with_places w places = record w { net = record w.net { places = places } }

-- One deposit of a fire function, with the two errors that it wraps.
unfoldable pub deposit_at : (tid pid : String) → Token → Dict Place → Result Error (Dict Place)
deposit_at tid pid t places = elim (lookup pid places) [
  | none ↦ err (output_not_found tid pid)
  | some p ↦ elim (deposit t p) [
    | err e ↦ err (deposit_failed tid pid e)
    | ok q ↦ ok (insert pid q places)
  ]
]

-- The loop over `OutputPlaces`: it stops at the first error, and what was deposited stays.
unfoldable pub deposit_each :
    (tid : String) → Token → List String → Dict Place → Option Error × Dict Place
deposit_each tid t [] places = (none, places)
deposit_each tid t (pid ∷ pids) places = elim (deposit_at tid pid t places) [
  | err e ↦ (some e, places)
  | ok places' ↦ deposit_each tid t pids places'
]

abbrev pub stamped : ℕ → NodeKind → Cpn → Token → Token
stamped now kind c t = record t {
  origin_id = c.id;
  origin_depth = c.depth;
  origin_kind = kind;
  session_id = c.session_id;
  timestamp = now;
}

abbrev pub fired : List TokenSnapshot → Option Error → Fired
fired snaps none = record { snaps = snaps; cost = 0; error = none }
fired snaps (some e) = failure_of 0 e

abbrev pub is_unset : SpaceKind → Bool
is_unset unset = true
is_unset _ = false

abbrev pub default_space : SpaceKind → Token → Token
default_space space t = if is_unset t.space then record t { space = space } else t

-- The loop of `fireToolHandler`: a token of its own for each output place.
unfoldable pub deposit_results :
    ℕ
    → Transition
    → Cpn
    → Dict Token
    → List String
    → Dict Place
    → Result Error (List TokenSnapshot) × Dict Place
deposit_results now t c results [] places = (ok [], places)
deposit_results now t c results (pid ∷ pids) places = elim (lookup pid places) [
  | none ↦ (err (output_not_found t.id pid), places)
  | some p ↦ elim (lookup pid results) [
    | none ↦ (err (no_result_token t.id pid), places)
    | some r ↦
        let tok = default_space p.space (stamped now tool c r) in
        elim (deposit tok p) [
          | err e ↦ (err (deposit_failed t.id pid e), places)
          | ok q ↦
              let rest = deposit_results now t c results pids (insert pid q places) in
              elim rest.0 [
                | err e ↦ (err e, rest.1)
                | ok snaps ↦ (ok (snapshot tok ∷ snaps), rest.1)
              ]
        ]
  ]
]

abbrev pub fired_result : Result Error (List TokenSnapshot) → Fired
fired_result (ok snaps) = fired snaps none
fired_result (err e) = failure_of 0 e

abbrev pub called : World → World
called w = record w { calls = w.calls + 1 }

module _ (env : Env) where
  unfoldable pub fire_tool_handler : (ℕ → List Token → Result Error (Dict Token)) → Fire
  fire_tool_handler handler t consumed w = elim (handler w.calls consumed) [
    | err e ↦ (failure_of 0 e, called w)
    | ok results ↦
        let (r, places) =
          deposit_results (env.time w.calls) t w.net results t.output_places w.net.places in
        (fired_result r, with_places (called w) places)
  ]

  abbrev pub run_executor :
      (ℕ → Token → Result Error Token) → Token → Transition → World → Fired × World
  run_executor executor first t w = elim (executor w.calls first) [
    | err e ↦ (failure_of 0 e, called w)
    | ok r ↦
        let tok = stamped (env.time w.calls) tool w.net r in
        let (e, places) = deposit_each t.id tok t.output_places w.net.places in
        (fired (snapshot tok ∷ []) e, with_places (called w) places)
  ]

  abbrev pub fire_executor : Option (ℕ → Token → Result Error Token) → Fire
  fire_executor none t consumed w = (failure_of 0 (nil_executor t.id), w)
  fire_executor (some executor) t [] w = (failure_of 0 (no_consumed t.id), w)
  fire_executor (some executor) t (first ∷ rest) w = run_executor executor first t w

  unfoldable pub fire_tool : Fire
  fire_tool t consumed w = elim t.tool_handler [
    | none ↦ fire_executor t.executor t consumed w
    | some handler ↦ fire_tool_handler handler t consumed w
  ]
