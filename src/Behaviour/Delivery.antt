-- ===== src/Behaviour/Delivery.antt =====
-- Where an emitted event goes (`emit` of cpn/cpn.go), and that the channels stay bounded.
use liwaisi_assistant.Base.{
  ℕ, ◌+◌, ◌≤◌, ◌≡◌, refl, sym, ap, subst, ◌⊎◌, ◌∙◌, Bool-cases, inl, inr, true, false, Option, none,
  some, List, [], ◌∷◌, ◌++◌, length, length-append, arith,
}
use liwaisi_assistant.Token.{Event}
use liwaisi_assistant.Net.{
  Cpn, Channel, is_process_event, self_event_bus_capacity, try_send, self_event_bus, stamp, to_sink,
  to_emitter, to_self_bus, emit,
}

abbrev pub FitsIn : ℕ → Option Channel → Type 0
FitsIn cap none = Unit
FitsIn cap (some ch) = (ch.capacity ≡ cap) × (length ch.queue ≤ cap)

-- The self bus never holds more than its capacity.
abbrev pub BusFits : Cpn → Type 0
BusFits c = FitsIn self_event_bus_capacity c.self_bus

-- Only the event fields change.
pub emit-frame :
    (now : ℕ) (e : Event) (c : Cpn)
    → emit now e c ≡ record c {
      sunk = (emit now e c).sunk;
      event_emitter = (emit now e c).event_emitter;
      self_bus = (emit now e c).self_bus;
      drops = (emit now e c).drops;
    }
unfolding emit to_sink to_emitter to_self_bus
emit-frame now e c = ground arith

pub emit-mode : (now : ℕ) (e : Event) (c : Cpn) → (emit now e c).mode ≡ c.mode
emit-mode now e c = ap (λ d. d.mode) (emit-frame now e c)

pub emit-places : (now : ℕ) (e : Event) (c : Cpn) → (emit now e c).places ≡ c.places
emit-places now e c = ap (λ d. d.places) (emit-frame now e c)

pub emit-transitions : (now : ℕ) (e : Event) (c : Cpn) → (emit now e c).transitions ≡ c.transitions
emit-transitions now e c = ap (λ d. d.transitions) (emit-frame now e c)

try_send-length :
    (e : Event) (ch : Channel)
    → ((try_send e ch).0 ≡ true)
        × (length (try_send e ch).1.queue ≡ length ch.queue + 1)
        × (length ch.queue + 1 ≤ ch.capacity)
      ⊎ ((try_send e ch).0 ≡ false) × ((try_send e ch).1 ≡ ch) × (ch.capacity ≤ length ch.queue)
unfolding try_send
try_send-length e ch = ground (arith, length-append ch.queue (e ∷ []))

try_send-capacity : (e : Event) (ch : Channel) → (try_send e ch).1.capacity ≡ ch.capacity
unfolding try_send
try_send-capacity e ch = ground arith

abbrev pub waiting_in : Option Channel → ℕ
waiting_in none = 0
waiting_in (some ch) = length ch.queue

abbrev pub counted : Option ℕ → ℕ
counted none = 0
counted (some n) = n

to_sink-self_bus : (e : Event) (c : Cpn) → (to_sink e c).self_bus ≡ c.self_bus
unfolding to_sink
to_sink-self_bus e c = ground arith

to_emitter-self_bus : (e : Event) (c : Cpn) → (to_emitter e c).self_bus ≡ c.self_bus
unfolding to_emitter
to_emitter-self_bus e c = ground arith

to_self_bus-self_bus :
    (e : Event) (c : Cpn) → (to_self_bus e c).self_bus ≡ some (try_send e (self_event_bus c)).1
unfolding to_self_bus
to_self_bus-self_bus e c = ground arith

self_event_bus-fits :
    (c : Cpn)
    → BusFits c
    → ((self_event_bus c).capacity ≡ self_event_bus_capacity)
      × (length (self_event_bus c).queue ≤ self_event_bus_capacity)
      × (length (self_event_bus c).queue ≡ waiting_in c.self_bus)
unfolding self_event_bus
self_event_bus-fits c h = go c.self_bus h
  where
    go :
        (o : Option Channel)
        → FitsIn self_event_bus_capacity o
        → let ch : Channel = elim o [
          | none ↦ record { capacity = self_event_bus_capacity; queue = [] }
          | some bus ↦ bus
        ] in
          (ch.capacity ≡ self_event_bus_capacity)
          × (length ch.queue ≤ self_event_bus_capacity)
          × (length ch.queue ≡ waiting_in o)
    go none h = (refl, omega arith, refl)
    go (some ch) h = (h.0, h.1, refl)

to_self_bus-BusFits : (e : Event) (c : Cpn) → BusFits c → BusFits (to_self_bus e c)
to_self_bus-BusFits e c h =
    let bus = self_event_bus c in
    let fits = self_event_bus-fits c h in
    rw (to_self_bus-self_bus e c)
      (try_send-capacity e bus ∙ fits.0, ground (arith, try_send-length e bus))

-- If the self bus has its capacity and holds no more than that, so it is after an event is emitted.
pub emit-BusFits : (now : ℕ) (e : Event) (c : Cpn) → BusFits c → BusFits (emit now e c)
unfolding emit
emit-BusFits now e c h =
    let e' = stamp now e c in
    let same = to_emitter-self_bus e' (to_sink e' c) ∙ to_sink-self_bus e' c in
    let h' : BusFits (to_emitter e' (to_sink e' c)) = rw same h in
    elim (Bool-cases (is_process_event e'.type)) [
      | inl p ↦ rw p (to_self_bus-BusFits e' (to_emitter e' (to_sink e' c)) h')
      | inr p ↦ rw p h'
    ]

-- The events that wait on the self bus.
abbrev pub events_in : Option Channel → List Event
events_in none = []
events_in (some ch) = ch.queue

abbrev pub waiting_events : Cpn → List Event
waiting_events c = events_in c.self_bus

before_self_bus :
    (e : Event) (c : Cpn)
    → ((to_emitter e (to_sink e c)).self_bus ≡ c.self_bus)
      × ((to_emitter e (to_sink e c)).drops ≡ c.drops)
unfolding to_emitter to_sink
before_self_bus e c = ground arith

stamp-type : (now : ℕ) (e : Event) (c : Cpn) → (stamp now e c).type ≡ e.type
unfolding stamp
stamp-type now e c = refl

emit_process :
    (now : ℕ) (e : Event) (c : Cpn)
    → is_process_event e.type ≡ true
    → emit now e c
      ≡ to_self_bus (stamp now e c) (to_emitter (stamp now e c) (to_sink (stamp now e c) c))
unfolding emit
emit_process now e c p = let e' = stamp now e c in rw (ap is_process_event (stamp-type now e c) ∙ p)

self_event_bus-queue : (c : Cpn) → (self_event_bus c).queue ≡ waiting_events c
unfolding self_event_bus
self_event_bus-queue c = ground arith

to_self_bus_cases :
    (e : Event) (c : Cpn) (n : ℕ)
    → BusFits c
    → c.drops ≡ some n
    → (waiting_events (to_self_bus e c) ≡ waiting_events c ++ e ∷ [])
        × ((to_self_bus e c).drops ≡ some n)
      ⊎ (length (waiting_events c) ≡ self_event_bus_capacity)
        × (waiting_events (to_self_bus e c) ≡ waiting_events c)
        × ((to_self_bus e c).drops ≡ some (n + 1))
unfolding to_self_bus try_send
to_self_bus_cases e c n h d = ground (arith, self_event_bus-fits c h, self_event_bus-queue c)

-- If the self bus holds no more than its capacity, the event is one of a process and there is a counter
-- of drops, then the stamped event waits last on the self bus and the counter stays, or the bus was
-- full, stays as it was and the counter grows by one. This holds with and without a sink.
pub emit-queued_or_dropped :
    (now : ℕ) (e : Event) (c : Cpn) (n : ℕ)
    → BusFits c
    → c.drops ≡ some n
    → is_process_event e.type ≡ true
    → (waiting_events (emit now e c) ≡ waiting_events c ++ stamp now e c ∷ [])
        × ((emit now e c).drops ≡ some n)
      ⊎ (length (waiting_events c) ≡ self_event_bus_capacity)
        × (waiting_events (emit now e c) ≡ waiting_events c)
        × ((emit now e c).drops ≡ some (n + 1))
emit-queued_or_dropped now e c n h d p =
    let e' = stamp now e c in
    let c' = to_emitter e' (to_sink e' c) in
    let (same, kept) = before_self_bus e' c in
    let h' : BusFits c' = subst (FitsIn self_event_bus_capacity) (sym same) h in
    let result = to_self_bus_cases e' c' n h' (kept ∙ d) in
    rw (emit_process now e c p) (
      subst
        (λ (o : Option Channel).
          (waiting_events (to_self_bus e' c') ≡ events_in o ++ e' ∷ [])
            × ((to_self_bus e' c').drops ≡ some n)
          ⊎ (length (events_in o) ≡ self_event_bus_capacity)
            × (waiting_events (to_self_bus e' c') ≡ events_in o)
            × ((to_self_bus e' c').drops ≡ some (n + 1)))
        same result)
