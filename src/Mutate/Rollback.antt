-- ===== src/Mutate/Rollback.antt =====
-- What a mutation (cpn/cpn_mutate.go) leaves of the net, when it is applied and when it is refused.
use liwaisi_assistant.Base.{
  ℕ, String, ◌≡◌, refl, ap, ◌∙◌, ◌≢◌, inl, inr, Bool, true, false, Option, none, some, Dict, lookup,
  lookup-modify, modify, arith, Bool-cases, Option-cases, eq_iff, eq_refl,
}
use liwaisi_assistant.Errors.{Error, mutation_not_permitted}
use liwaisi_assistant.Token.{topology_mutated, topology_mutation_rejected, failed, nil}
use liwaisi_assistant.Place.{Place}
use liwaisi_assistant.Transition.{Transition}
use liwaisi_assistant.Net.{Cpn, bare}
use liwaisi_assistant.Validate.{
  validate, check_transition, check_arc_references, check_error_place, check_space_violations,
  check_hitl_config, check_bash_config,
}
use liwaisi_assistant.Validate.Order.{validate-modify}
use liwaisi_assistant.Behaviour.Delivery.{emit-places, emit-transitions}
use liwaisi_assistant.Mutate.{
  Mutation, add_place, add_transition, deprecate_transition, other, Maps, snapshot_of, deprecate,
  apply_add_place, apply_add_transition, apply_deprecate_transition, apply_mutation, AuditLog,
  rolled_back, committed, reject, mutate,
}

abbrev pub is_deprecation : Mutation → Bool
is_deprecation (deprecate_transition id reason) = true
is_deprecation _ = false

-- Only a deprecation writes through a pointer that the snapshot shares.
apply_mutation-kept :
    (mut : Mutation) (c : Cpn)
    → is_deprecation mut ≡ false
    → ((apply_mutation mut (snapshot_of c)).1.kept_places ≡ c.places)
      × ((apply_mutation mut (snapshot_of c)).1.kept_transitions ≡ c.transitions)
unfolding apply_mutation apply_add_place apply_add_transition
apply_mutation-kept (add_place none) c h = (refl, refl)
apply_mutation-kept (add_place (some d)) c h = ground arith
apply_mutation-kept (add_transition none) c h = (refl, refl)
apply_mutation-kept (add_transition (some d)) c h = ground arith
apply_mutation-kept (deprecate_transition id reason) c h = cc
apply_mutation-kept other c h = (refl, refl)

-- The three ways out of `mutate` at the net `c`, with what `apply_mutation` left in `a`.
pub data Exit (c : Cpn) (a : Option Error × Maps) (o : Option Error × Cpn × AuditLog) : Type 0 where
  not_permitted :
      c.mutable_after_start ≡ false
      → o.0 ≡ some mutation_not_permitted
      → o.1.places ≡ c.places
      → o.1.transitions ≡ c.transitions
      → Exit c a o
  rollback :
      (e : Error)
      → o.0 ≡ some e
      → o.1.places ≡ a.1.kept_places
      → o.1.transitions ≡ a.1.kept_transitions
      → Exit c a o
  commit :
      c.mutable_after_start ≡ true
      → o.0 ≡ none
      → a.0 ≡ none
      → validate a.1.places a.1.transitions ≡ none
      → o.1.places ≡ a.1.places
      → o.1.transitions ≡ a.1.transitions
      → Exit c a o

module _ (now : ℕ) (mut : Mutation) (c : Cpn) (log : AuditLog) where
  abbrev outcome : Option Error × Cpn × AuditLog
  outcome = mutate now mut c log

  abbrev applied : Option Error × Maps
  applied = apply_mutation mut (snapshot_of c)

  rollback-Exit :
      (e : Error)
      → outcome ≡ reject now mut e (rolled_back applied.1 c) log
      → Exit c applied outcome
  rollback-Exit e h =
      let event = bare topology_mutation_rejected (failed e) in
      let d = rolled_back applied.1 c in
      rollback e (ap (λ o. o.0) h) (ap (λ o. o.1.places) h ∙ emit-places now event d)
        (ap (λ o. o.1.transitions) h ∙ emit-transitions now event d)

  pub mutate-Exit : Exit c applied outcome
  unfolding mutate
  mutate-Exit = elim (Bool-cases c.mutable_after_start) [
    | inr fixed ↦
        let event = bare topology_mutation_rejected (failed mutation_not_permitted) in
        not_permitted fixed (ground arith) (ground (arith, emit-places now event c))
          (ground (arith, emit-transitions now event c))
    | inl hot ↦ elim (Option-cases applied.0) [
      | inr (e, fails) ↦ rollback-Exit e (ground arith)
      | inl fine ↦ elim (Option-cases (validate applied.1.places applied.1.transitions)) [
        | inr (e, fails) ↦ rollback-Exit e (ground arith)
        | inl valid ↦
            let event = bare topology_mutated nil in
            let d = committed applied.1 c in
            commit hot (ground arith) fine valid (ground (arith, emit-places now event d))
              (ground (arith, emit-transitions now event d))
      ]
    ]
  ]

-- If a mutation that is not a deprecation is answered by an error, then the places and the transitions
-- of the net are what they were.
pub mutate_error-unchanged :
    (now : ℕ) (mut : Mutation) (c : Cpn) (log : AuditLog)
    → is_deprecation mut ≡ false
    → (mutate now mut c log).0 ≢ none
    → ((mutate now mut c log).1.places ≡ c.places)
      × ((mutate now mut c log).1.transitions ≡ c.transitions)
mutate_error-unchanged now mut c log h fails = elim (mutate-Exit now mut c log) [
  | not_permitted _ _ p t ↦ (p, t)
  | rollback e _ p t ↦ let kept = apply_mutation-kept mut c h in (p ∙ kept.0, t ∙ kept.1)
  | commit _ ok _ _ _ _ ↦ absurd (fails ok)
]

-- If a mutation is answered without an error, then the net is mutable and what it is left with passes
-- the checks.
pub mutate_ok-valid :
    (now : ℕ) (mut : Mutation) (c : Cpn) (log : AuditLog)
    → (mutate now mut c log).0 ≡ none
    → (c.mutable_after_start ≡ true)
      × (validate (mutate now mut c log).1.places (mutate now mut c log).1.transitions ≡ none)
mutate_ok-valid now mut c log h = elim (mutate-Exit now mut c log) [
  | not_permitted fixed e _ _ ↦ ground arith
  | rollback e fails p t ↦ ground arith
  | commit hot ok _ valid p t ↦ (hot, rw (p, t) valid)
]

check_transition-deprecate :
    (places : Dict Place) (reason : String) (t : Transition)
    → check_transition places (deprecate reason t) ≡ check_transition places t
unfolding check_transition check_arc_references check_error_place check_space_violations
    check_hitl_config check_bash_config
check_transition-deprecate places reason t = refl

-- If the net is mutable but does not pass the checks, then the deprecation of one of its transitions is
-- answered by their error, and yet the transition is left deprecated after the rollback.
pub mutate-deprecate_sticks :
    (now : ℕ) (id reason : String) (c : Cpn) (log : AuditLog) (t : Transition) (e : Error)
    → c.mutable_after_start ≡ true
    → id ≢ ""
    → lookup id c.transitions ≡ some t
    → validate c.places c.transitions ≡ some e
    → ((mutate now (deprecate_transition id reason) c log).0 ≡ some e)
      × (lookup id (mutate now (deprecate_transition id reason) c log).1.transitions
          ≡ some (deprecate reason t))
unfolding mutate apply_mutation apply_deprecate_transition
mutate-deprecate_sticks now id reason c log t e hot named found invalid =
    let marked = modify id (deprecate reason) c.transitions in
    let still : validate c.places marked ≡ some e =
      validate-modify c.places id (deprecate reason) c.transitions
        (check_transition-deprecate c.places reason)
      ∙ invalid in
    let event = bare topology_mutation_rejected (failed e) in
    ground (
      arith,
      still,
      eq_iff id "",
      lookup-modify id id (deprecate reason) c.transitions,
      eq_refl id,
      emit-transitions now event (record c { transitions = marked }),
    )
