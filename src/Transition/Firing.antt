-- ===== src/Transition/Firing.antt =====
-- The firing rule (cpn/transition.go) as a condition on the marking.
use liwaisi_assistant.Base.{
  ℕ, String, ◌≡◌, refl, ◌≢◌, ◌↔◌, true, false, none, some, List, [], ◌∷◌, ◌++◌, Dict, lookup, All,
  arith, Option-cases, inl, inr,
}
use liwaisi_assistant.Token.{Token}
use liwaisi_assistant.Place.{Place, peek}
use liwaisi_assistant.Retry.{gate}
use liwaisi_assistant.Transition.{
  Transition, Guard, available, gather, passes, enabled, can_fire_with,
}

-- The place is there and holds a token.
abbrev pub IsMarked : Dict Place → String → Type 0
IsMarked places pid = (p : Place) × (lookup pid places ≡ some p) × (p.tokens ≢ [])

-- The tokens of the input places, one place after the other.
abbrev pub tokens_at : Dict Place → String → List Token
tokens_at places pid = elim (lookup pid places) [ none ↦ [] | some p ↦ p.tokens ]

abbrev pub tokens_of : Dict Place → List String → List Token
tokens_of places [] = []
tokens_of places (pid ∷ pids) = tokens_at places pid ++ tokens_of places pids

available-IsMarked :
    (places : Dict Place) (pid : String) {ts : List Token}
    → available places pid ≡ some ts
    → IsMarked places pid × (ts ≡ tokens_at places pid)
unfolding available peek
available-IsMarked places pid h = elim (Option-cases (lookup pid places)) [
  | inl e ↦ ground arith
  | inr (p, e) ↦ ((p, e, ground arith), ground arith)
]

gather-IsMarked :
    (places : Dict Place) (pids : List String) {ts : List Token}
    → gather places pids ≡ some ts
    → All (IsMarked places) pids × (ts ≡ tokens_of places pids)
unfolding gather
gather-IsMarked places [] h = (tt, ground arith)
gather-IsMarked places (pid ∷ pids) h = elim (Option-cases (available places pid)) [
  | inl e ↦ ground arith
  | inr (us, e) ↦ elim (Option-cases (gather places pids)) [
    | inl f ↦ ground arith
    | inr (vs, f) ↦
        let a = available-IsMarked places pid e in
        let b = gather-IsMarked places pids f in ((a.0, b.0), ground arith)
  ]
]

available_of_marked :
    (places : Dict Place) (pid : String)
    → IsMarked places pid
    → available places pid ≡ some (tokens_at places pid)
unfolding available peek
available_of_marked places pid (p, e, h) = ground arith

gather_of_marked :
    (places : Dict Place) (pids : List String)
    → All (IsMarked places) pids
    → gather places pids ≡ some (tokens_of places pids)
unfolding gather
gather_of_marked places [] h = refl
gather_of_marked places (pid ∷ pids) h =
    ground (arith, available_of_marked places pid h.0, gather_of_marked places pids h.1)

-- The condition of the firing rule, beside the deprecation mark and the breaker.
abbrev pub IsEnabled : Dict Place → Guard → Transition → Type 0
IsEnabled places guard t =
    (t.input_places ≢ [])
    × All (IsMarked places) t.input_places
    × (passes guard (tokens_of places t.input_places) ≡ true)

pub enabled-IsEnabled :
    (places : Dict Place) (guard : Guard) (t : Transition)
    → enabled places guard t ≡ true
    → IsEnabled places guard t
unfolding enabled
enabled-IsEnabled places guard t h = elim (Option-cases (gather places t.input_places)) [
  | inl e ↦ ground arith
  | inr (ts, e) ↦
      let marked = gather-IsMarked places t.input_places e in
      (ground arith, marked.0, rw (← marked.1) (ground arith))
]

pub enabled_of_IsEnabled :
    (places : Dict Place) (guard : Guard) (t : Transition)
    → IsEnabled places guard t
    → enabled places guard t ≡ true
unfolding enabled
enabled_of_IsEnabled places guard t (some_input, marked, pass) =
    ground (arith, gather_of_marked places t.input_places marked)

-- A transition can fire exactly if it is not deprecated, its breaker lets the call through, it has an
-- input place, every input place is there and holds a token, and the guard, if any, passes on all the
-- tokens of the input places in their order.
pub can_fire_with_iff :
    (now : ℕ) (places : Dict Place) (guard : Guard) (t : Transition)
    → ((can_fire_with now places guard t).0 ≡ true)
      ↔ ((t.deprecated ≡ false) × ((gate now t.cb_state).0 ≡ true) × IsEnabled places guard t)
unfolding can_fire_with
can_fire_with_iff now places guard t = (to, from)
  where
    to :
        (can_fire_with now places guard t).0 ≡ true
        → (t.deprecated ≡ false) × ((gate now t.cb_state).0 ≡ true) × IsEnabled places guard t
    to h =
        let t' = record t { cb_state = (gate now t.cb_state).1 } in
        (ground arith, ground arith, enabled-IsEnabled places guard t' (ground arith))

    from :
        (t.deprecated ≡ false) × ((gate now t.cb_state).0 ≡ true) × IsEnabled places guard t
        → (can_fire_with now places guard t).0 ≡ true
    from (live, allowed, e) = ground (
      arith,
      enabled_of_IsEnabled places guard (record t { cb_state = (gate now t.cb_state).1 }) e,
    )

-- The firing test changes nothing of the transition but its breaker.
pub can_fire_with-breaker :
    (now : ℕ) (places : Dict Place) (guard : Guard) (t : Transition)
    → (can_fire_with now places guard t).1
      ≡ record t { cb_state = (can_fire_with now places guard t).1.cb_state }
unfolding can_fire_with
can_fire_with-breaker now places guard t = ground arith
