-- ===== src/Scenarios/Places.antt =====
-- The laws of places and of the firing rule, on the places of the review net.
use liwaisi_assistant.Base.{◌≡◌, refl, ◌↔◌, true, false, none, some, List, [], ◌∷◌, lookup, err}
use liwaisi_assistant.Token.{same_color, observation, event}
use liwaisi_assistant.Errors.{color_mismatch}
use liwaisi_assistant.Place.{deposit}
use liwaisi_assistant.Place.Laws.{PlaceOp, deposit_op, consume_op}
use liwaisi_assistant.Retry.{gate}
use liwaisi_assistant.Transition.{can_fire_with, new_transition}
use liwaisi_assistant.Transition.Firing.{IsEnabled, can_fire_with_iff}
use liwaisi_assistant.Observer.{drain_observers, observers, pending_events}
use liwaisi_assistant.Observer.Dispatch.{received, delivered, drain_observers-delivers}
use liwaisi_assistant.Net.{
  Cpn, emit, stamp, to_sink, to_emitter, to_self_bus, self_event_bus, try_send, is_process_event,
  new_cpn,
}
use liwaisi_assistant.Scenarios.Data.{
  draft, approval, drafts, places, merge, place_of, net, output_event,
}

wrong_color : deposit approval drafts ≡ err (color_mismatch "drafts")
unfolding deposit same_color
wrong_color = refl

abbrev ops : List PlaceOp
ops = deposit_op draft ∷ deposit_op approval ∷ consume_op ∷ deposit_op draft ∷ []

can_fire_with_iff_example : ((can_fire_with 7 places none merge).0 ≡ true) ↔ (
    (merge.deprecated ≡ false) × ((gate 7 merge.cb_state).0 ≡ true) × IsEnabled places none merge)
can_fire_with_iff_example = can_fire_with_iff 7 places none merge

-- The net of the review after one line of process output.
abbrev noisy : Cpn
noisy = emit 9 output_event net

noisy_watch : lookup "watch" noisy.places ≡ some (place_of "watch" event observation [])
unfolding lookup emit stamp to_sink to_emitter to_self_bus self_event_bus try_send is_process_event
    new_cpn new_transition
noisy_watch = refl

drain_observers-delivers_example :
    lookup "watch" (drain_observers 9 noisy).places
    ≡ some (
        received
          (place_of "watch" event observation [])
          (delivered "watch" 9 noisy (observers noisy) (pending_events noisy)))
drain_observers-delivers_example =
    drain_observers-delivers 9 noisy "watch" (place_of "watch" event observation []) noisy_watch
