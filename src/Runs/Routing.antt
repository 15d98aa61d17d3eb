-- ===== src/Runs/Routing.antt =====
-- Error routing after a round (cpn/executor.go): an error of a transition with an error place
-- becomes a token there, and any other error fails the net.
use liwaisi_assistant.Base.{
  ℕ, String, ◌+◌, ◌≡◌, refl, sym, ap, ◌∙◌, ◌≢◌, ◌⊎◌, inl, inr, none, some, [], ◌∷◌, ◌++◌, Dict,
  lookup, lookup-insert, insert, All, length, length-append, arith, Bool-cases, eq_iff,
  if◌then◌else◌, ◌==◌,
}
use liwaisi_assistant.Errors.{Error}
use liwaisi_assistant.Token.{Token, error}
use liwaisi_assistant.Place.{Place}
use liwaisi_assistant.Place.Laws.{deposit_of_typed}
use liwaisi_assistant.Transition.{Transition}
use liwaisi_assistant.Net.{Cpn, set_failed}
use liwaisi_assistant.Executor.{
  go_on, returned, error_token, error_route, route_error, process_errors,
}
use liwaisi_assistant.Runs.Conservation.{total, total-insert}

-- The transition names an error place that exists and has the colour of errors.
pub record Routable (ts : Dict Transition) (places : Dict Place) (tid : String) : Type 0 where
  pub transition : Transition
  pub found : lookup tid ts ≡ some transition
  pub named : transition.error_place ≢ ""
  pub place : Place
  pub there : lookup transition.error_place places ≡ some place
  pub colored : place.color ≡ error

-- The net with the error as the newest token of the error place.
abbrev pub routed : ℕ → (e : Error) (c : Cpn) (t : Transition) (ep : Place) → Cpn
routed now e c t ep = record c {
  places =
      insert t.error_place (record ep { tokens = ep.tokens ++ error_token now t ep e c ∷ [] })
        c.places;
}

route_error-routed :
    (now : ℕ) (tid : String) (e : Error) (c : Cpn) (r : Routable c.transitions c.places tid)
    → route_error now tid e c ≡ go_on (routed now e c r.transition r.place)
unfolding route_error error_route error_token
route_error-routed now tid e c r =
    let put =
      deposit_of_typed (error_token now r.transition r.place e c) r.place (sym r.colored) refl in
    ground (arith, r.found, r.named, r.there, put, eq_iff r.transition.error_place "")

Routable-insert :
    (ts : Dict Transition) (places : Dict Place) (k tid : String) (p q : Place)
    → lookup k places ≡ some p
    → q.color ≡ p.color
    → Routable ts places tid
    → Routable ts (insert k q places) tid
Routable-insert ts places k tid p q h same r = elim (Bool-cases (k == r.transition.error_place)) [
  | inl here ↦ record {
    transition = r.transition;
    found = r.found;
    named = r.named;
    place = q;
    there =
        lookup-insert k r.transition.error_place q places
        ∙ ap (λ b. if b then some q else lookup r.transition.error_place places) here;
    colored = ground (arith, eq_iff k r.transition.error_place, r.there, r.colored);
  }
  | inr other ↦ record {
    transition = r.transition;
    found = r.found;
    named = r.named;
    place = r.place;
    there =
        lookup-insert k r.transition.error_place q places
        ∙ ap (λ b. if b then some q else lookup r.transition.error_place places) other
        ∙ r.there;
    colored = r.colored;
  }
]

-- A routed error is one token more.
routed-total :
    (now : ℕ) (e : Error) (c : Cpn) {tid : String} (r : Routable c.transitions c.places tid)
    → total (routed now e c r.transition r.place).places ≡ total c.places + 1
routed-total now e c r =
    let t = error_token now r.transition r.place e c in
    let q : Place = record r.place { tokens = r.place.tokens ++ t ∷ [] } in
    ground (
      arith,
      total-insert r.transition.error_place r.place q c.places r.there,
      length-append r.place.tokens (t ∷ []),
    )

-- A token more in the error place leaves the other errors routable.
Routable-still :
    (t : Token) (c : Cpn) {tid : String} (r : Routable c.transitions c.places tid) (es : Dict Error)
    → All (λ e. Routable c.transitions c.places e.0) es
    → All
        (λ e.
          Routable c.transitions
            (insert r.transition.error_place
              (record r.place { tokens = r.place.tokens ++ t ∷ [] })
              c.places)
            e.0)
        es
Routable-still t c r [] rs = rs
Routable-still t c r (e ∷ es) (x, rs) =
    let q : Place = record r.place { tokens = r.place.tokens ++ t ∷ [] } in
    let key = r.transition.error_place in
    (
      Routable-insert c.transitions c.places key e.0 r.place q r.there refl x,
      Routable-still t c r es rs,
    )

-- If every failed transition of a round names an error place that exists and has the colour of errors,
-- then the run goes on, the net has one token more for each error, and keeps its state and its error.
pub process_errors-routed :
    (now : ℕ) (es : Dict Error) (c : Cpn)
    → All (λ e. Routable c.transitions c.places e.0) es
    → (d : Cpn) × (process_errors now es c ≡ go_on d)
      × (total d.places ≡ total c.places + length es)
      × (d.state ≡ c.state)
      × (d.error ≡ c.error)
unfolding process_errors
process_errors-routed now [] c h = (c, refl, omega arith, refl, refl)
process_errors-routed now (e ∷ es) c (r, rs) =
    let d : Cpn = routed now e.1 c r.transition r.place in
    let t = error_token now r.transition r.place e.1 c in
    let (f, goes, sum, state, err) = process_errors-routed now es d (Routable-still t c r es rs) in
    let one : total d.places ≡ total c.places + 1 = routed-total now e.1 c r in
    (f, rw (process_errors, route_error-routed now e.0 e.1 c r) goes, omega arith, state, err)

-- An error of a transition without an error place, or whose error place does not exist, ends the run and
-- is the error that the net fails with.
pub route_error-fails :
    (now : ℕ) (tid : String) (e : Error) (c : Cpn) (t : Transition)
    → lookup tid c.transitions ≡ some t
    → (t.error_place ≡ "") ⊎ (lookup t.error_place c.places ≡ none)
    → route_error now tid e c ≡ returned (some e) (set_failed e c)
unfolding route_error error_route
route_error-fails now tid e c t h k = ground (arith, eq_iff t.error_place "", k)
