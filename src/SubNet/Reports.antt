-- ===== src/SubNet/Reports.antt =====
-- What the end of a child's goroutine leaves in its parent (cpn/subnet.go).
use liwaisi_assistant.Base.{
  ℕ, ◌+◌, ◌≡◌, refl, ◌≢◌, inl, inr, true, Option, none, some, [], ◌∷◌, ◌++◌, lookup, insert,
  length-append, arith, eq_iff, Bool-cases, Option-cases, Result-cases, Result, ok, err, ◌==◌, ap,
  sym, subst, ◌∙◌, nat_eq,
}
use liwaisi_assistant.Errors.{Error, sub_net_failed, error_place_deposit_failed}
use liwaisi_assistant.Token.{
  error, EventType, EventPayload, subnet_failed, subnet_completed, failed,
}
use liwaisi_assistant.Place.{Place, deposit}
use liwaisi_assistant.Place.Laws.{deposit_of_typed}
use liwaisi_assistant.Transition.{Transition}
use liwaisi_assistant.Net.{Cpn, State, Message, terminal_places}
use liwaisi_assistant.Behaviour.Delivery.{emit-frame}
use liwaisi_assistant.Runs.Conservation.{total, total-insert}
use liwaisi_assistant.Runs.Typing.Deposits.{AllTyped}
use liwaisi_assistant.Runs.SameEnd.{Reported, of-Reported, SameEnd}
use liwaisi_assistant.SubNet.{
  outputs_of, tell, tell_failures, note_summary, child_error_token, child_failed, child_completed,
  child_done,
}
use liwaisi_assistant.SubNet.Places.{
  tell-places, deposit_outputs-AllTyped, child_failed-AllTyped, child_completed-places,
}

tell-state :
    (now : ℕ) (t : Transition) (type : EventType) (payload : EventPayload) (c : Cpn)
    → ((tell now t type payload c).state ≡ c.state) × ((tell now t type payload c).error ≡ c.error)
unfolding tell
tell-state now t type payload c =
    (ap (λ d. d.state) (emit-frame now _ c), ap (λ d. d.error) (emit-frame now _ c))

tell_failures-state :
    (now : ℕ) (t : Transition) (failures : ℕ) (c : Cpn) → SameEnd c (tell_failures now t failures c)
unfolding tell_failures
tell_failures-state now t failures c = elim (Bool-cases (nat_eq failures 0)) [
  | inl fine ↦ rw (tell_failures, fine) (refl, refl)
  | inr some_failed ↦ rw (tell_failures, some_failed) (tell-state now t subnet_failed _ c)
]

note_summary-state :
    (now : ℕ) (t : Transition) (summary : Result Error Message) (c : Cpn)
    → SameEnd c (note_summary now t summary c)
unfolding note_summary
note_summary-state now t (err e) c = tell-state now t subnet_failed _ c
note_summary-state now t (ok m) c = (refl, refl)

child_completed-state :
    (now : ℕ) (t : Transition) (child : Cpn) (summary : Result Error Message) (parent : Cpn)
    → SameEnd parent (child_completed now t child summary parent)
unfolding child_completed
child_completed-state now t child summary parent = (
  (tell-state now t subnet_completed _ _).0
      ∙ ((note_summary-state now t summary _).0 ∙ (tell_failures-state now t _ _).0),
  (tell-state now t subnet_completed _ _).1
      ∙ ((note_summary-state now t summary _).1 ∙ (tell_failures-state now t _ _).1),
)

child_failed-Reported :
    (now : ℕ) (t : Transition) (child : Cpn) (e : Error) (parent : Cpn)
    → Reported parent
    → Reported (child_failed now t child e parent)
unfolding child_failed
child_failed-Reported now t child e parent h =
    let told = tell now t subnet_failed (failed e) parent in
    let kept = of-Reported parent told (tell-state now t subnet_failed (failed e) parent) h in
    elim (Bool-cases (t.error_place == "")) [
      | inl silent ↦ rw (child_failed, silent) (λ f n. cc)
      | inr named ↦ elim (Option-cases (lookup t.error_place told.places)) [
        | inl missing ↦ rw (child_failed, named) (rw missing kept)
        | inr (ep, there) ↦
            elim (Result-cases (deposit (child_error_token now child ep e told) ep)) [
              | inl (q, fits) ↦ rw (child_failed, named) (rw there (rw fits kept))
              | inr (x, refused) ↦
                  let later =
                    tell now t subnet_failed (failed (error_place_deposit_failed x)) told in
                  rw (child_failed, named)
                    (rw there (
                      rw refused
                        (of-Reported told later (tell-state now t subnet_failed _ told) kept)))
            ]
      ]
    ]

-- If every token of the parent is in a place of its colour and space, and the parent has an error if
-- it failed, then both hold after the end of a child, whether that failed or completed.
pub child_done-keeps :
    (now : ℕ) (t : Transition) (child : Cpn) (answer : Option Error)
    (summary : Result Error Message) (parent : Cpn)
    → AllTyped parent.places
    → Reported parent
    → AllTyped (child_done now t child answer summary parent).places
      × Reported (child_done now t child answer summary parent)
unfolding child_done
child_done-keeps now t child (some e) summary parent all h =
    (child_failed-AllTyped now t child e parent all, child_failed-Reported now t child e parent h)
child_done-keeps now t child none summary parent all h =
    let c = child_completed now t child summary parent in
    (
      subst AllTyped (sym (child_completed-places now t child summary parent)) (
          deposit_outputs-AllTyped t.output_places (outputs_of child (terminal_places child))
            parent.places all),
      of-Reported parent c (child_completed-state now t child summary parent) h,
    )

-- The failure of a child whose transition names no error place fails the parent with that error and
-- leaves its places as they were.
pub child_done-fails :
    (now : ℕ) (t : Transition) (child : Cpn) (e : Error) (summary : Result Error Message)
    (parent : Cpn)
    → t.error_place ≡ ""
    → ((child_done now t child (some e) summary parent).state ≡ State.failed)
      × ((child_done now t child (some e) summary parent).error ≡ some (sub_net_failed e))
      × ((child_done now t child (some e) summary parent).places ≡ parent.places)
unfolding child_done child_failed
child_done-fails now t child e summary parent silent =
    let named : (t.error_place == "") ≡ true = ground (arith, eq_iff t.error_place "", silent) in
    rw (child_done, child_failed, named)
      (refl, refl, tell-places now t subnet_failed (failed e) parent)

-- If the transition names an error place that exists and has the colour of errors, then the failure of
-- the child is one token more in the parent, whose state and error stay.
pub child_done-routes :
    (now : ℕ) (t : Transition) (child : Cpn) (e : Error) (summary : Result Error Message)
    (parent : Cpn) (ep : Place)
    → t.error_place ≢ ""
    → lookup t.error_place parent.places ≡ some ep
    → ep.color ≡ error
    → (total (child_done now t child (some e) summary parent).places ≡ total parent.places + 1)
      × ((child_done now t child (some e) summary parent).state ≡ parent.state)
      × ((child_done now t child (some e) summary parent).error ≡ parent.error)
unfolding child_done child_failed child_error_token
child_done-routes now t child e summary parent ep named there colored =
    let told = tell now t subnet_failed (failed e) parent in
    let same = tell-places now t subnet_failed (failed e) parent in
    let kept = tell-state now t subnet_failed (failed e) parent in
    let token = child_error_token now child ep e told in
    let q : Place = record ep { tokens = ep.tokens ++ token ∷ [] } in
    let fits : deposit token ep ≡ ok q = deposit_of_typed token ep (sym colored) refl in
    let found : lookup t.error_place told.places ≡ some ep =
      ap (lookup t.error_place) same ∙ there in
    let routed : child_failed now t child e parent
        ≡ record told { places = insert t.error_place q told.places } =
      ground (arith, found, fits, eq_iff t.error_place "", named) in
    let grows = total-insert t.error_place ep q told.places found in
    let longer = length-append ep.tokens (token ∷ []) in
    rw routed (omega (arith, grows, longer, ap total same), kept.0, kept.1)
