-- ===== src/Observer/Dispatch.antt =====
-- What an observation round (cpn/observer.go) leaves in each place.
use liwaisi_assistant.Base.{
  ℕ, String, ◌≡◌, refl, sym, ◌∙◌, ap, Bool, true, false, not, ◌&&◌, Option, none, some, List, [],
  ◌∷◌, ◌++◌, if◌then◌else◌, ◌==◌, Dict, lookup, lookup-insert, is_empty, is_some, arith, eq_iff,
  Option-cases, Bool-cases, inl, inr, append_assoc, append_nil,
}
use liwaisi_assistant.Token.{Token, event, observation, same_color, same_space, Event}
use liwaisi_assistant.Place.{Place, deposit}
use liwaisi_assistant.Transition.{Transition}
use liwaisi_assistant.Net.{Cpn, Channel}
use liwaisi_assistant.Observer.{
  accepts, event_token, deposit_silently, deposit_copies, offer, dispatch_events, observers,
  pending_events, bus_events, queue_of, drain_observers,
}

-- The copies of a token for a place, one for each mention of it.
abbrev copies : String → Token → List String → List Token
copies pid t [] = []
copies pid t (k ∷ ks) = (if k == pid then t ∷ [] else []) ++ copies pid t ks

abbrev offered : String → ℕ → Cpn → Event → List Transition → List Token
offered pid now c e [] = []
offered pid now c e (obs ∷ rest) =
    (if accepts obs e then copies pid (event_token now c e) obs.output_places else [])
    ++ offered pid now c e rest

-- The tokens that a list of events is worth to a place, by the filters of the observers.
abbrev pub delivered : String → ℕ → Cpn → List Transition → List Event → List Token
delivered pid now c obs [] = []
delivered pid now c obs (e ∷ es) = offered pid now c e obs ++ delivered pid now c obs es

-- A place takes events if it has their colour and is in the space of observation.
abbrev pub observes : Place → Bool
observes p = same_color event p.color && same_space observation p.space

abbrev pub received : Place → List Token → Place
received p ts = record p { tokens = p.tokens ++ (if observes p then ts else []) }

received_nil : (p : Place) → received p [] ≡ p
received_nil p = ground (arith, append_nil p.tokens)

received_twice : (p : Place) (a b : List Token) → received (received p a) b ≡ received p (a ++ b)
received_twice p a b = ap (λ ts. record p { tokens = ts }) (go (observes p))
  where
    go :
        (y : Bool)
        → (p.tokens ++ (if y then a else [])) ++ (if y then b else [])
          ≡ p.tokens ++ (if y then a ++ b else [])
    go true = append_assoc p.tokens a b
    go false = append_nil (p.tokens ++ [])

-- The place at a key has received some tokens.
abbrev Has : String → Place → List Token → Dict Place → Type 0
Has pid p ts places = lookup pid places ≡ some (received p ts)

deposit_silently-Has :
    (now : ℕ) (c : Cpn) (e : Event) (k pid : String) (p : Place) (places : Dict Place)
    → lookup pid places ≡ some p
    → Has pid p
        (if k == pid then event_token now c e ∷ [] else [])
        (deposit_silently (event_token now c e) k places)
unfolding deposit_silently deposit event_token
deposit_silently-Has now c e k pid p places h =
    let t = event_token now c e in
    elim (Option-cases (lookup k places)) [
      | inl none_there ↦ ground (arith, eq_iff k pid, append_nil p.tokens)
      | inr (q, there) ↦ ground (
        arith,
        eq_iff k pid,
        append_nil p.tokens,
        lookup-insert k pid (record q { tokens = q.tokens ++ t ∷ [] }) places,
      )
    ]

deposit_copies-Has :
    (now : ℕ) (c : Cpn) (e : Event) (ks : List String) (pid : String) (p : Place)
    (places : Dict Place)
    → lookup pid places ≡ some p
    → Has pid p
        (copies pid (event_token now c e) ks)
        (deposit_copies (event_token now c e) ks places)
unfolding deposit_copies
deposit_copies-Has now c e [] pid p places h = h ∙ ap some (sym (received_nil p))
deposit_copies-Has now c e (k ∷ ks) pid p places h =
    let t = event_token now c e in
    let now_there = deposit_silently-Has now c e k pid p places h in
    deposit_copies-Has now c e ks pid _ (deposit_silently t k places) now_there
    ∙ ap some (received_twice p (if k == pid then t ∷ [] else []) (copies pid t ks))

offer-Has :
    (now : ℕ) (c : Cpn) (e : Event) (obs : List Transition) (pid : String) (p : Place)
    (places : Dict Place)
    → lookup pid places ≡ some p
    → Has pid p (offered pid now c e obs) (offer now c e obs places)
unfolding offer
offer-Has now c e [] pid p places h = h ∙ ap some (sym (received_nil p))
offer-Has now c e (o ∷ obs) pid p places h = elim (Bool-cases (accepts o e)) [
  | inl taken ↦
      let t = event_token now c e in
      rw (offer, taken)
        (offer-Has now c e obs pid _ (deposit_copies t o.output_places places)
            (deposit_copies-Has now c e o.output_places pid p places h)
          ∙ ap some (received_twice p (copies pid t o.output_places) (offered pid now c e obs)))
  | inr refused ↦ rw (offer, refused) (offer-Has now c e obs pid p places h)
]

dispatch_events-Has :
    (now : ℕ) (c : Cpn) (obs : List Transition) (es : List Event) (pid : String) (p : Place)
    (places : Dict Place)
    → lookup pid places ≡ some p
    → Has pid p (delivered pid now c obs es) (dispatch_events now c obs es places)
unfolding dispatch_events
dispatch_events-Has now c obs [] pid p places h = h ∙ ap some (sym (received_nil p))
dispatch_events-Has now c obs (e ∷ es) pid p places h =
    dispatch_events-Has now c obs es pid _ (offer now c e obs places)
      (offer-Has now c e obs pid p places h)
    ∙ ap some (received_twice p (offered pid now c e obs) (delivered pid now c obs es))

delivered_none :
    (pid : String) (now : ℕ) (c : Cpn) (obs : List Transition) (es : List Event)
    → is_empty obs ≡ true
    → delivered pid now c obs es ≡ []
delivered_none pid now c [] [] h = refl
delivered_none pid now c [] (e ∷ es) h = delivered_none pid now c [] es h
delivered_none pid now c (o ∷ obs) es h = ground arith

pending_none :
    (c : Cpn)
    → (is_empty c.sub_net_buses && not (is_some c.self_bus)) ≡ true
    → pending_events c ≡ []
unfolding pending_events bus_events
pending_none c h = go c.sub_net_buses c.self_bus h
  where
    go :
        (buses : Dict Channel) (bus : Option Channel)
        → (is_empty buses && not (is_some bus)) ≡ true
        → bus_events buses ++ queue_of bus ≡ []
    go [] none h = refl
    go [] (some bus) h = ground arith
    go (e ∷ es) bus h = ground arith

-- For every place of the net, a round of observation adds behind its tokens one event token for each
-- waiting event, observer that accepts the event and mention of the place among its outputs, in that
-- order, if the place has the colour of events and is in the space of observation, and else nothing.
pub drain_observers-delivers :
    (now : ℕ) (c : Cpn) (pid : String) (p : Place)
    → lookup pid c.places ≡ some p
    → lookup pid (drain_observers now c).places
      ≡ some (received p (delivered pid now c (observers c) (pending_events c)))
unfolding drain_observers pending_events bus_events
drain_observers-delivers now c pid p h =
    let got = dispatch_events-Has now c (observers c) (pending_events c) pid p c.places h in
    let left = h ∙ ap some (sym (received_nil p)) in
    elim (Bool-cases (is_empty c.sub_net_buses && not (is_some c.self_bus))) [
      | inl quiet ↦ rw (drain_observers, quiet, pending_none c quiet) left
      | inr noisy ↦ elim (Bool-cases (is_empty (observers c))) [
        | inl idle ↦
            rw
              (
                drain_observers,
                noisy,
                idle,
                delivered_none pid now c (observers c) (pending_events c) idle,
              )
              left
        | inr busy ↦ rw (drain_observers, noisy, busy) got
      ]
    ]
