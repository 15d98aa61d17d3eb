-- ===== src/Human.antt =====
-- back/go-assistant/cpn/hitl.go: a transition that waits for a person, once or in rounds of revision.
-- The notice to the group and the flush of the history are left out; so are the texts of events. The
-- surface, the builder of an output, JSON and the model that revises are parameters.
-- A negative number of revisions is written 0.
pub mod Revision
pub mod Approved
use Prim.Native.String.{◌++◌ as ◌^◌}
use liwaisi_assistant.Base.{
  ℕ, zero, suc, ◌+◌, String, Bool, true, false, ◌||◌, not, Option, none, some, List, [], ◌∷◌, ◌++◌,
  Dict, lookup, insert, has, Result, ok, err, if◌then◌else◌, ◌==◌,
}
use liwaisi_assistant.Base.Decimal.{itoa}
use liwaisi_assistant.Errors.{
  Error, timeout, output_not_found, deposit_failed, hitl_misconfigured, hitl_channel_closed,
  hitl_closed, hitl_unsupported, not_human, hitl_rejected, hitl_max_revisions, correction_missing,
  unknown_action, revision_failed, output_failed,
}
use liwaisi_assistant.Token.{
  EventType, EventPayload, hitl_requested, hitl_resolved, stream_chunk, NodeKind, hitl, centaurian,
  Token, snapshot, HitlAction, HitlResponse, approve, reject, revise, submit, text, response,
  is_human_color,
}
use liwaisi_assistant.Place.{Place, deposit, is_computation}
use liwaisi_assistant.Retry.{Fired, failure_of}
use liwaisi_assistant.Transition.{Transition}
use liwaisi_assistant.Net.{
  Cpn, State, running, waiting, Message, MessageRole, user, assistant, set_state, set_failed,
}
use liwaisi_assistant.Net.{emit, bare}
use liwaisi_assistant.Net.{set_mode}
use liwaisi_assistant.Executor.{stamped, fired}

-- The fields of a HITLConfig that the two functions read; the builders with the JSON of what they give.
pub record HumanConfig : Type 0 where
  pub has_channel : Bool
  pub max_revisions : ℕ
  pub correction_llm_id : String
  pub surface : Option (List Token → Option String)
  pub output_builder : Option (List Token → HitlResponse → Result Error Token)

-- What ends one wait.
pub data Answer : Type 0 where
  answered : Token → Answer
  channel_closed : Answer
  context_done : Answer

abbrev pub tell_hitl : ℕ → Transition → EventType → Cpn → Cpn
tell_hitl now t type c =
    emit now
      (record (bare type (EventPayload.opaque 0)) { transition_id = t.id; transition_kind = hitl })
      c

-- The loop over the output places: the token gets the space of each. Says whether a place of
-- computation got it.
unfoldable pub deposit_bridged :
    (tid : String) → Token → List String → Dict Place → Option Error × Bool × Dict Place
deposit_bridged tid t [] places = (none, false, places)
deposit_bridged tid t (pid ∷ pids) places = elim (lookup pid places) [
  | none ↦ (some (output_not_found tid pid), false, places)
  | some p ↦ elim (deposit (record t { space = p.space }) p) [
    | err e ↦ (some (deposit_failed tid pid e), false, places)
    | ok q ↦
        let rest = deposit_bridged tid t pids (insert pid q places) in
        (rest.0, is_computation p.space || rest.1, rest.2)
  ]
]

-- What the loop gives: an error stops it before the switch to Centaurian mode.
abbrev pub deposited : (now cost : ℕ) → Token → Cpn → Option Error × Bool × Dict Place → Fired × Cpn
deposited now cost out c (some e, bridged, places) =
    (failure_of cost e, record c { places = places })
deposited now cost out c (none, bridged, places) =
    let c' = record c { places = places } in
    (
      record { snaps = snapshot out ∷ []; cost = cost; error = none },
      if bridged then set_mode now centaurian c' else c',
    )

unfoldable pub deposit_answer : (now cost : ℕ) → Transition → Token → Cpn → Fired × Cpn
unfolding deposit_bridged
deposit_answer now cost t tok c =
    let out = stamped now hitl c tok in
    deposited now cost out c (deposit_bridged t.id out t.output_places c.places)

abbrev pub row : ℕ → String → MessageRole → String → (parent : String) → Cpn → Message
row now id role content parent c = record {
  id = id;
  role = role;
  content = content;
  cpn_id = c.id;
  cpn_role = c.role;
  cpn_depth = c.depth;
  timestamp = now;
  parent_message_id = parent;
}

abbrev pub surface_id : ℕ → Cpn → String
surface_id now c = c.session_id ^ "-a2ui-" ^ itoa now

-- The surface, two chunks and a row of the history, with the row's id; nothing if there is none.
unfoldable pub show_surface : ℕ → HumanConfig → Transition → List Token → Cpn → Option String × Cpn
show_surface now cfg t consumed c = elim (surface_of cfg.surface) [
  | none ↦ (none, c)
  | some json ↦
      let c' =
        tell_hitl now t stream_chunk
          (tell_hitl now t stream_chunk (record c { streamed_output = true })) in
      (
        some (surface_id now c),
        record c' {
          history = c'.history ++ row now (surface_id now c) assistant ("$$a2ui:" ^ json) "" c ∷ [];
        },
      )
]
  where
    surface_of : Option (List Token → Option String) → Option String
    surface_of none = none
    surface_of (some build) = build consumed

-- The request, and the state in which the net waits.
unfoldable pub ask_person : ℕ → Transition → Cpn → Cpn
ask_person now t c = set_state waiting (tell_hitl now t hitl_requested c)

unfoldable pub resume : ℕ → Transition → Cpn → Cpn
resume now t c = tell_hitl now t hitl_resolved (set_state running c)

module _ (encode : HitlResponse → Option String) where
  abbrev pub response_text : HitlResponse → Option String
  response_text r = elim (r.action) [
    | submit ↦ some r.content
    | revise ↦ encode r
    | approve ↦ encode r
    | reject ↦ none
  ]

  -- appendHITLResponseToHistory, where a surface was shown.
  unfoldable pub append_response : ℕ → HitlResponse → Option String → Cpn → Cpn
  append_response now r none c = c
  append_response now r (some parent) c = elim (response_text r) [
    | none ↦ c
    | some content ↦ record c {
      history =
          c.history ++ row now (c.session_id ^ "-hitlresp-" ^ itoa now) user content parent c ∷ [];
    }
  ]

  -- The token of a person, deposited as it is.
  unfoldable pub deposit_raw : ℕ → Transition → Token → Option String → Cpn → Fired × Cpn
  unfolding deposit_answer
  deposit_raw now t tok parent c = elim tok.payload [
    | response r ↦ deposit_answer now 0 t tok (append_response now r parent (resume now t c))
    | _ ↦ deposit_answer now 0 t tok (resume now t c)
  ]

  -- A token built from the answer.
  unfoldable pub deposit_built :
      ℕ
      → (List Token → HitlResponse → Result Error Token)
      → Transition
      → List Token
      → Token
      → Option String
      → Cpn
      → Fired × Cpn
  deposit_built now build t consumed tok parent c = elim tok.payload [
    | response r ↦ elim (build consumed r) [
      | err e ↦ (failure_of 0 (output_failed t.id e), c)
      | ok built ↦ deposit_answer now 0 t built (append_response now r parent (resume now t c))
    ]
    | _ ↦ (failure_of 0 (hitl_unsupported t.id), c)
  ]

  abbrev pub is_rejection : Token → Bool
  is_rejection t = elim t.payload [
    | response r ↦ elim (r.action) [ reject ↦ true | _ ↦ false ]
    | _ ↦ false
  ]

  unfoldable pub take_answer :
      ℕ → HumanConfig → Transition → List Token → Option String → Answer → Cpn → Fired × Cpn
  take_answer now cfg t consumed parent channel_closed c =
      (failure_of 0 (hitl_channel_closed t.id), set_failed hitl_closed c)
  take_answer now cfg t consumed parent context_done c =
      (failure_of 0 timeout, set_failed timeout c)
  take_answer now cfg t consumed parent (answered tok) c =
      if not (is_human_color tok.color)
      then (failure_of 0 not_human, c)
      else if is_rejection tok
      then (failure_of 0 hitl_rejected, c)
      else elim cfg.output_builder [
        | none ↦ deposit_raw now t tok parent c
        | some build ↦ deposit_built now build t consumed tok parent c
      ]

  -- fireHITL.
  unfoldable pub fire_hitl : ℕ → HumanConfig → Answer → Transition → List Token → Cpn → Fired × Cpn
  unfolding show_surface
  fire_hitl now cfg answer t consumed c =
      let shown = show_surface now cfg t consumed c in
      if not cfg.has_channel
      then (failure_of 0 (hitl_misconfigured t.id), c)
      else take_answer now cfg t consumed shown.0 answer (ask_person now t shown.1)
