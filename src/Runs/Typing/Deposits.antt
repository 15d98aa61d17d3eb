-- ===== src/Runs/Typing/Deposits.antt =====
-- Typing through the loops that consume and deposit: cpn/executor.go, fire_topology_mutate.go and
-- observer.go.
use liwaisi_assistant.Base.{
  ℕ, String, ◌≡◌, subst, inl, inr, some, List, [], ◌∷◌, Dict, lookup, insert, All, Result, ok, err,
  arith, Bool-cases, Option-cases, Result-cases, ◌==◌, is_empty, is_some, not, ◌&&◌,
}
use liwaisi_assistant.Errors.{Error}
use liwaisi_assistant.Token.{Token, TokenSnapshot, snapshot, Event, tool}
use liwaisi_assistant.Place.{Place, deposit, consume}
use liwaisi_assistant.Place.Laws.{IsTyped, deposit-IsTyped, consume-IsTyped}
use liwaisi_assistant.Transition.{Transition}
use liwaisi_assistant.Net.{Cpn}
use liwaisi_assistant.Observer.{
  accepts, event_token, deposit_silently, deposit_copies, offer, dispatch_events, observers,
  pending_events, drain_observers,
}
use liwaisi_assistant.Executor.{
  Env, consume_all, deposit_at, deposit_each, deposit_results, deposit_mutated, default_space,
  stamped,
}

abbrev pub AllTyped : Dict Place → Type 0
AllTyped = All (λ e. IsTyped e.1)

pub AllTyped-insert :
    (pid : String) (p : Place) (m : Dict Place) → AllTyped m → IsTyped p → AllTyped (insert pid p m)
unfolding insert
AllTyped-insert pid p [] all h = (h, tt)
AllTyped-insert pid p (e ∷ es) all h = elim (Bool-cases (e.0 == pid)) [
  | inl same ↦ rw same (h, all.1)
  | inr other ↦ rw other (all.0, AllTyped-insert pid p es all.1 h)
]

pub AllTyped-lookup :
    (pid : String) (m : Dict Place) {p : Place} → AllTyped m → lookup pid m ≡ some p → IsTyped p
unfolding lookup
AllTyped-lookup pid [] all h = cc
AllTyped-lookup pid (e ∷ es) {p} all h = elim (Bool-cases (e.0 == pid)) [
  | inl same ↦ let found : e.1 ≡ p = ground arith in subst IsTyped found all.0
  | inr other ↦ AllTyped-lookup pid es {p = p} all.1 (ground arith)
]

-- A place of the map after a deposit that succeeded.
pub deposited :
    (t : Token) (pid : String) (m : Dict Place) {p q : Place}
    → AllTyped m
    → lookup pid m ≡ some p
    → deposit t p ≡ ok q
    → AllTyped (insert pid q m)
deposited t pid m {p} {q} all there fits =
    AllTyped-insert pid q m all (deposit-IsTyped t p q fits (AllTyped-lookup pid m all there))

pub consume_all-AllTyped :
    (pids : List String) (m : Dict Place) → AllTyped m → AllTyped (consume_all pids m).1
unfolding consume_all
consume_all-AllTyped [] m all = all
consume_all-AllTyped (pid ∷ pids) m all = elim (Option-cases (lookup pid m)) [
  | inl absent ↦ rw (absent, consume_all) (consume_all-AllTyped pids m all)
  | inr (p, there) ↦ elim (Result-cases (consume p)) [
    | inr (x, fails) ↦ rw (there, consume_all) (rw fails (consume_all-AllTyped pids m all))
    | inl ((t, q), takes) ↦
        let q_typed = consume-IsTyped t p q takes (AllTyped-lookup pid m all there) in
        rw (there, consume_all)
          (rw takes
            (consume_all-AllTyped pids (insert pid q m) (AllTyped-insert pid q m all q_typed)))
  ]
]

pub deposit_each-AllTyped :
    (tid : String) (t : Token) (pids : List String) (m : Dict Place)
    → AllTyped m
    → AllTyped (deposit_each tid t pids m).1
unfolding deposit_each deposit_at
deposit_each-AllTyped tid t [] m all = all
deposit_each-AllTyped tid t (pid ∷ pids) m all = elim (Option-cases (lookup pid m)) [
  | inl absent ↦ rw (absent, deposit_each, deposit_at) all
  | inr (p, there) ↦ elim (Result-cases (deposit t p)) [
    | inr (x, fails) ↦ rw (deposit_each, deposit_at, there) (rw fails all)
    | inl (q, fits) ↦
        rw (deposit_each, deposit_at, there)
          (rw fits
            (deposit_each-AllTyped tid t pids (insert pid q m) (deposited t pid m all there fits)))
  ]
]

-- Both answers of a loop that collects snapshots carry the same places.
whichever :
    (r : Result Error (List TokenSnapshot)) (x : TokenSnapshot) (m : Dict Place)
    → AllTyped m
    → let both : Result Error (List TokenSnapshot) × Dict Place = elim r [
      | err e ↦ (err e, m)
      | ok snaps ↦ (ok (x ∷ snaps), m)
    ] in
      AllTyped both.1
whichever (ok snaps) x m all = all
whichever (err e) x m all = all

pub deposit_results-AllTyped :
    (now : ℕ) (t : Transition) (c : Cpn) (results : Dict Token) (pids : List String)
    (m : Dict Place)
    → AllTyped m
    → AllTyped (deposit_results now t c results pids m).1
unfolding deposit_results
deposit_results-AllTyped now t c results [] m all = all
deposit_results-AllTyped now t c results (pid ∷ pids) m all = elim (Option-cases (lookup pid m)) [
  | inl absent ↦ rw (deposit_results, absent) all
  | inr (p, there) ↦ elim (Option-cases (lookup pid results)) [
    | inl missing ↦ rw (deposit_results, there) (rw missing all)
    | inr (r, made) ↦
        let tok = default_space p.space (stamped now tool c r) in
        elim (Result-cases (deposit tok p)) [
          | inr (x, fails) ↦ rw (deposit_results, there) (rw made (rw fails all))
          | inl (q, fits) ↦
              let later =
                deposit_results-AllTyped now t c results pids (insert pid q m)
                  (deposited tok pid m all there fits) in
              rw (deposit_results, there) (rw made (rw fits (whichever _ (snapshot tok) _ later)))
        ]
  ]
]

pub deposit_mutated-AllTyped :
    (env : Env) (tid : String) (t : Token) (pids : List String) (m : Dict Place)
    → AllTyped m
    → AllTyped (deposit_mutated env tid t pids m).1
unfolding deposit_mutated
deposit_mutated-AllTyped env tid t [] m all = all
deposit_mutated-AllTyped env tid t (pid ∷ pids) m all = elim (Option-cases (lookup pid m)) [
  | inl absent ↦ rw (deposit_mutated, absent) all
  | inr (p, there) ↦
      let tok = record t { space = p.space } in
      elim (Result-cases (deposit tok p)) [
        | inr (x, fails) ↦ rw (deposit_mutated, there) (rw fails all)
        | inl (q, fits) ↦
            let later =
              deposit_mutated-AllTyped env tid t pids (insert pid q m)
                (deposited tok pid m all there fits) in
            rw (deposit_mutated, there) (rw fits (whichever _ (snapshot tok) _ later))
      ]
]

deposit_silently-AllTyped :
    (t : Token) (pid : String) (m : Dict Place) → AllTyped m → AllTyped (deposit_silently t pid m)
unfolding deposit_silently
deposit_silently-AllTyped t pid m all = elim (Option-cases (lookup pid m)) [
  | inl absent ↦ rw (deposit_silently, absent) all
  | inr (p, there) ↦ elim (Result-cases (deposit t p)) [
    | inr (x, fails) ↦ rw (deposit_silently, there) (rw fails all)
    | inl (q, fits) ↦ rw (deposit_silently, there) (rw fits (deposited t pid m all there fits))
  ]
]

deposit_copies-AllTyped :
    (t : Token) (pids : List String) (m : Dict Place)
    → AllTyped m
    → AllTyped (deposit_copies t pids m)
unfolding deposit_copies
deposit_copies-AllTyped t [] m all = all
deposit_copies-AllTyped t (pid ∷ pids) m all =
    deposit_copies-AllTyped t pids (deposit_silently t pid m)
      (deposit_silently-AllTyped t pid m all)

offer-AllTyped :
    (now : ℕ) (c : Cpn) (e : Event) (obs : List Transition) (m : Dict Place)
    → AllTyped m
    → AllTyped (offer now c e obs m)
unfolding offer
offer-AllTyped now c e [] m all = all
offer-AllTyped now c e (o ∷ obs) m all = elim (Bool-cases (accepts o e)) [
  | inl taken ↦
      let t = event_token now c e in
      rw (offer, taken)
        (offer-AllTyped now c e obs (deposit_copies t o.output_places m)
          (deposit_copies-AllTyped t o.output_places m all))
  | inr refused ↦ rw (offer, refused) (offer-AllTyped now c e obs m all)
]

dispatch_events-AllTyped :
    (now : ℕ) (c : Cpn) (obs : List Transition) (es : List Event) (m : Dict Place)
    → AllTyped m
    → AllTyped (dispatch_events now c obs es m)
unfolding dispatch_events
dispatch_events-AllTyped now c obs [] m all = all
dispatch_events-AllTyped now c obs (e ∷ es) m all =
    dispatch_events-AllTyped now c obs es (offer now c e obs m) (offer-AllTyped now c e obs m all)

pub drain_observers-AllTyped :
    (now : ℕ) (c : Cpn) → AllTyped c.places → AllTyped (drain_observers now c).places
unfolding drain_observers
drain_observers-AllTyped now c all =
    let dispatched = dispatch_events-AllTyped now c (observers c) (pending_events c) c.places all in
    elim (Bool-cases (is_empty c.sub_net_buses && not (is_some c.self_bus))) [
      | inl quiet ↦ rw (drain_observers, quiet) all
      | inr noisy ↦ elim (Bool-cases (is_empty (observers c))) [
        | inl idle ↦ rw (drain_observers, noisy, idle) all
        | inr busy ↦ rw (drain_observers, noisy, busy) dispatched
      ]
    ]
