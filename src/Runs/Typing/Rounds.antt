-- ===== src/Runs/Typing/Rounds.antt =====
-- Typing through the launch of a round and the routing of its errors (cpn/executor.go).
use liwaisi_assistant.Base.{
  ℕ, String, inl, inr, [], ◌∷◌, Dict, lookup, modify, Bool-cases, Option-cases, Result-cases, ◌==◌,
}
use liwaisi_assistant.Errors.{Error}
use liwaisi_assistant.Place.{deposit}
use liwaisi_assistant.Place.Laws.{deposit-IsTyped}
use liwaisi_assistant.Net.{Cpn, effective_can_fire}
use liwaisi_assistant.Executor.{
  consume_all, with_breaker, launch, Flow, go_on, returned, panicked, error_token, error_route,
  route_error, process_errors,
}
use liwaisi_assistant.Runs.Typing.Deposits.{
  AllTyped, AllTyped-insert, AllTyped-lookup, consume_all-AllTyped,
}

pub launch-AllTyped :
    (now : ℕ) (es : Dict String) (c : Cpn) → AllTyped c.places → AllTyped (launch now es c).1.places
unfolding launch
launch-AllTyped now [] c all = all
launch-AllTyped now (e ∷ es) c all = elim (Option-cases (lookup e.1 c.transitions)) [
  | inl absent ↦ rw (absent, launch) (launch-AllTyped now es c all)
  | inr (t, there) ↦
      let checked = effective_can_fire now c t in
      let c' = record c {
        transitions = modify e.1 (with_breaker checked.1.cb_state) c.transitions;
      } in
      elim (Bool-cases checked.0) [
        | inr skipped ↦ rw (there, launch) (rw skipped (launch-AllTyped now es c' all))
        | inl fires ↦
            let taken = consume_all t.input_places c.places in
            rw (there, launch)
              (rw fires (
                launch-AllTyped now es (record c' { places = taken.1 })
                  (consume_all-AllTyped t.input_places c.places all)))
      ]
]

-- The state in which a flow leaves the net.
abbrev pub left_in : {A : Type 0} → Flow A → A
left_in (go_on a) = a
left_in (returned r a) = a
left_in (panicked a) = a

pub route_error-AllTyped :
    (now : ℕ) (tid : String) (e : Error) (c : Cpn)
    → AllTyped c.places
    → AllTyped (left_in (route_error now tid e c)).places
unfolding route_error error_route
route_error-AllTyped now tid e c all = elim (Option-cases (lookup tid c.transitions)) [
  | inl absent ↦ rw (absent, route_error) all
  | inr (t, there) ↦ elim (Bool-cases (t.error_place == "")) [
    | inl silent ↦ rw (there, route_error) (rw (error_route, silent) all)
    | inr named ↦ elim (Option-cases (lookup t.error_place c.places)) [
      | inl missing ↦ rw (there, route_error) (rw (error_route, named) (rw missing all))
      | inr (ep, found) ↦
          let token = error_token now t ep e c in
          elim (Result-cases (deposit token ep)) [
            | inr (x, refused) ↦
                rw (there, route_error) (rw (error_route, named) (rw found (rw refused all)))
            | inl (q, fits) ↦
                let typed =
                  deposit-IsTyped token ep q fits
                    (AllTyped-lookup t.error_place c.places all found) in
                rw (there, route_error)
                  (rw (error_route, named)
                    (rw found (rw fits (AllTyped-insert t.error_place q c.places all typed))))
          ]
    ]
  ]
]

pub process_errors-AllTyped :
    (now : ℕ) (es : Dict Error) (c : Cpn)
    → AllTyped c.places
    → AllTyped (left_in (process_errors now es c)).places
unfolding process_errors
process_errors-AllTyped now [] c all = all
process_errors-AllTyped now (e ∷ es) c all =
    go (route_error now e.0 e.1 c) (route_error-AllTyped now e.0 e.1 c all)
      (λ d h. process_errors-AllTyped now es d h)
  where
    go :
        (f : Flow Cpn)
        → AllTyped (left_in f).places
        → ((d : Cpn) → AllTyped d.places → AllTyped (left_in (process_errors now es d)).places)
        → AllTyped
            (left_in (elim f as (λ x. Flow Cpn) [
              | go_on d ↦ process_errors now es d
              | returned r d ↦ returned r d
              | panicked d ↦ panicked d
            ])).places
    go (go_on d) h ih = ih d h
    go (returned r d) h ih = h
    go (panicked d) h ih = h
