-- ===== src/Net/Events.antt =====
-- back/go-assistant/cpn/cpn.go: `emit`, the self bus, and the publishing helpers over it.
use liwaisi_assistant.Base.{
  ℕ, ℤ, String, Bool, true, false, none, some, [], ◌∷◌, ◌++◌, ◌+◌, length, ltb, nat_eq,
  if◌then◌else◌,
}
use liwaisi_assistant.Token.{
  Event, EventType, EventPayload, process_output, process_started, process_stdout, process_stderr,
  process_exit, stream_chunk, hitl_requested, NodeKind, bash,
}
use liwaisi_assistant.Net.Record.{Cpn, Channel}

abbrev pub self_event_bus_capacity : ℕ
self_event_bus_capacity = 256

unfoldable pub is_process_event : EventType → Bool
is_process_event process_started = true
is_process_event process_stdout = true
is_process_event process_stderr = true
is_process_event process_exit = true
is_process_event _ = false

-- `select` with a default: the event is sent if the buffer has room. Says whether it was.
unfoldable pub try_send : Event → Channel → Bool × Channel
try_send e ch =
    if ltb (length ch.queue) ch.capacity
    then (true, record ch { queue = ch.queue ++ e ∷ [] })
    else (false, ch)

unfoldable pub self_event_bus : Cpn → Channel
self_event_bus c = elim c.self_bus [
  | none ↦ record { capacity = self_event_bus_capacity; queue = [] }
  | some bus ↦ bus
]

-- The identity of the net, and the time if the event has none yet (0 is Go's zero time).
unfoldable pub stamp : ℕ → Event → Cpn → Event
stamp now e c = record e {
  cpn_id = c.id;
  cpn_depth = c.depth;
  cpn_role = c.role;
  session_id = c.session_id;
  timestamp = if nat_eq e.timestamp 0 then now else e.timestamp;
}

unfoldable pub to_sink : Event → Cpn → Cpn
to_sink e c = if c.event_sink then record c { sunk = c.sunk ++ e ∷ [] } else c

unfoldable pub to_emitter : Event → Cpn → Cpn
to_emitter e c = elim c.event_emitter [
  | none ↦ c
  | some ch ↦ record c { event_emitter = some (try_send e ch).1 }
]

-- `OnDrop` of the metrics port, which is there or not.
abbrev pub count_drop : Cpn → Cpn
count_drop c = elim c.drops [ none ↦ c | some n ↦ record c { drops = some (n + 1) } ]

unfoldable pub to_self_bus : Event → Cpn → Cpn
to_self_bus e c =
    let (sent, bus) = try_send e (self_event_bus c) in
    let c' = record c { self_bus = some bus } in if sent then c' else count_drop c'

unfoldable pub emit : ℕ → Event → Cpn → Cpn
emit now e c =
    let e' = stamp now e c in
    let c' = to_emitter e' (to_sink e' c) in
    if is_process_event e'.type then to_self_bus e' c' else c'

-- An event with the fields that `emit` stamps left empty.
abbrev pub bare : EventType → EventPayload → Event
bare type payload = record {
  type = type;
  session_id = "";
  cpn_id = "";
  cpn_depth = ℤ.pos 0;
  cpn_role = "";
  transition_id = "";
  transition_kind = NodeKind.unknown "";
  payload = payload;
  timestamp = 0;
}

-- `PublishProcessEvent`: `allowed` is the vote of the rate limiter. The result says whether the
-- event was handed to `emit`, which is what `OnEmit` counts.
unfoldable pub publish_process_event :
    ℕ → (allowed : Bool) → EventType → (session : String) → Cpn → Bool × Cpn
publish_process_event now allowed kind session c =
    if allowed
    then (true, emit now (record (bare kind (process_output session)) { transition_kind = bash }) c)
    else (false, count_drop c)

unfoldable pub publish_host_approval_surface : ℕ → (transition : String) → EventPayload → Cpn → Cpn
publish_host_approval_surface now transition payload c =
    emit now
      (record (bare stream_chunk payload) { transition_id = transition; transition_kind = bash }) c

unfoldable pub publish_hitl_requested : ℕ → (transition : String) → EventPayload → Cpn → Cpn
publish_hitl_requested now transition payload c =
    emit now
      (record (bare hitl_requested payload) { transition_id = transition; transition_kind = bash })
      c
