-- ===== src/SubNet/Places.antt =====
-- Where the end of a child's goroutine leaves the tokens of its parent (cpn/subnet.go).
use liwaisi_assistant.Base.{
  ℕ, String, ◌≡◌, refl, inl, inr, List, [], ◌∷◌, Dict, lookup, insert, Bool-cases, Option-cases,
  Result-cases, Result, ok, err, ◌==◌, sym, subst, ◌∙◌, nat_eq,
}
use liwaisi_assistant.Errors.{Error}
use liwaisi_assistant.Token.{
  Token, EventType, EventPayload, subnet_failed, subnet_completed, failed,
}
use liwaisi_assistant.Place.{Place, deposit}
use liwaisi_assistant.Place.Laws.{deposit-IsTyped}
use liwaisi_assistant.Transition.{Transition}
use liwaisi_assistant.Net.{Cpn, Message, terminal_places}
use liwaisi_assistant.Behaviour.Delivery.{emit-places}
use liwaisi_assistant.Runs.Typing.Deposits.{AllTyped, AllTyped-insert, AllTyped-lookup}
use liwaisi_assistant.SubNet.{
  fitted, deposit_into, deposit_outputs, outputs_of, tell, tell_failures, note_summary,
  child_error_token, child_failed, child_completed,
}

pub tell-places :
    (now : ℕ) (t : Transition) (type : EventType) (payload : EventPayload) (c : Cpn)
    → (tell now t type payload c).places ≡ c.places
unfolding tell
tell-places now t type payload c = emit-places now _ c

deposit_into-AllTyped :
    (pid : String) (ts : List Token) (m : Dict Place)
    → AllTyped m
    → AllTyped (deposit_into pid ts m).1
unfolding deposit_into
deposit_into-AllTyped pid [] m all = all
deposit_into-AllTyped pid (t ∷ ts) m all = elim (Option-cases (lookup pid m)) [
  | inl absent ↦ rw (deposit_into, absent) all
  | inr (p, there) ↦ elim (Result-cases (deposit (fitted t p) p)) [
    | inr (x, fails) ↦ rw (deposit_into, there) (rw fails (deposit_into-AllTyped pid ts m all))
    | inl (q, fits) ↦
        let typed = deposit-IsTyped (fitted t p) p q fits (AllTyped-lookup pid m all there) in
        rw (deposit_into, there)
          (rw fits
            (deposit_into-AllTyped pid ts (insert pid q m) (AllTyped-insert pid q m all typed)))
  ]
]

pub deposit_outputs-AllTyped :
    (pids : List String) (ts : List Token) (m : Dict Place)
    → AllTyped m
    → AllTyped (deposit_outputs pids ts m).1
unfolding deposit_outputs
deposit_outputs-AllTyped [] ts m all = all
deposit_outputs-AllTyped (pid ∷ pids) ts m all =
    deposit_outputs-AllTyped pids ts (deposit_into pid ts m).1 (deposit_into-AllTyped pid ts m all)

pub child_failed-AllTyped :
    (now : ℕ) (t : Transition) (child : Cpn) (e : Error) (parent : Cpn)
    → AllTyped parent.places
    → AllTyped (child_failed now t child e parent).places
unfolding child_failed
child_failed-AllTyped now t child e parent all =
    let told = tell now t subnet_failed (failed e) parent in
    let told_typed : AllTyped told.places =
      subst AllTyped (sym (tell-places now t subnet_failed (failed e) parent)) all in
    elim (Bool-cases (t.error_place == "")) [
      | inl silent ↦ rw (child_failed, silent) told_typed
      | inr named ↦ elim (Option-cases (lookup t.error_place told.places)) [
        | inl missing ↦ rw (child_failed, named) (rw missing told_typed)
        | inr (ep, there) ↦
            let token = child_error_token now child ep e told in
            elim (Result-cases (deposit token ep)) [
              | inr (x, refused) ↦
                  rw (child_failed, named)
                    (rw there (
                      rw refused
                        (subst AllTyped (sym (tell-places now t subnet_failed _ told)) told_typed)))
              | inl (q, fits) ↦
                  let typed =
                    deposit-IsTyped token ep q fits
                      (AllTyped-lookup t.error_place told.places told_typed there) in
                  rw (child_failed, named)
                    (rw there
                      (rw fits (AllTyped-insert t.error_place q told.places told_typed typed)))
            ]
      ]
    ]

tell_failures-places :
    (now : ℕ) (t : Transition) (failures : ℕ) (c : Cpn)
    → (tell_failures now t failures c).places ≡ c.places
unfolding tell_failures
tell_failures-places now t failures c = elim (Bool-cases (nat_eq failures 0)) [
  | inl fine ↦ rw (tell_failures, fine) refl
  | inr some_failed ↦ rw (tell_failures, some_failed) (tell-places now t subnet_failed _ c)
]

note_summary-places :
    (now : ℕ) (t : Transition) (summary : Result Error Message) (c : Cpn)
    → (note_summary now t summary c).places ≡ c.places
unfolding note_summary
note_summary-places now t (err e) c = tell-places now t subnet_failed _ c
note_summary-places now t (ok m) c = refl

pub child_completed-places :
    (now : ℕ) (t : Transition) (child : Cpn) (summary : Result Error Message) (parent : Cpn)
    → (child_completed now t child summary parent).places
      ≡ (deposit_outputs t.output_places (outputs_of child (terminal_places child)) parent.places).1
unfolding child_completed
child_completed-places now t child summary parent =
    tell-places now t subnet_completed _ _
    ∙ (note_summary-places now t summary _ ∙ tell_failures-places now t _ _)
