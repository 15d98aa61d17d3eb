-- ===== src/Mutate/Growth.antt =====
-- A mutation (cpn/cpn_mutate.go) only adds places, and never adds a transition that needs a
-- configuration.
use liwaisi_assistant.Base.{
  ℕ, String, ◌≡◌, subst, ◌≢◌, inl, inr, true, false, ◌||◌, none, some, [], ◌∷◌, Dict, lookup,
  lookup-insert, All, arith, Bool-cases, eq_iff, eq_refl, ◌==◌,
}
use liwaisi_assistant.Token.{is_hitl}
use liwaisi_assistant.Place.{Place, new_place}
use liwaisi_assistant.Transition.{Transition, new_transition}
use liwaisi_assistant.Net.{Cpn}
use liwaisi_assistant.Validate.{is_bash}
use liwaisi_assistant.Validate.Soundness.{IsWellFormed, validate_iff}
use liwaisi_assistant.Mutate.{
  Mutation, add_place, add_transition, deprecate_transition, other, TransitionDef, Maps,
  snapshot_of, added, apply_add_place, apply_add_transition, apply_deprecate_transition,
  apply_mutation, AuditLog, mutate,
}
use liwaisi_assistant.Mutate.Rollback.{not_permitted, rollback, commit, mutate-Exit}

All-lookup :
    (P : Transition → Type 0) (k : String) (es : Dict Transition) {t : Transition}
    → All (λ e. P e.1) es
    → lookup k es ≡ some t
    → P t
unfolding lookup
All-lookup P k [] all h = cc
All-lookup P k (e ∷ es) {t} all h = elim (Bool-cases (e.0 == k)) [
  | inl p ↦ subst P (ground arith) all.0
  | inr p ↦ All-lookup P k es all.1 (ground arith)
]

apply_add_transition-lookup :
    (d : TransitionDef) (m : Maps)
    → (apply_add_transition (some d) m).0 ≡ none
    → lookup d.id (apply_add_transition (some d) m).1.transitions ≡ some (added d)
unfolding apply_add_transition
apply_add_transition-lookup d m h =
    ground (arith, lookup-insert d.id d.id (added d) m.transitions, eq_refl d.id)

needs_nothing :
    (places : Dict Place) (d : TransitionDef)
    → IsWellFormed places (added d)
    → (is_hitl d.kind ≡ false) × (is_bash d.kind ≡ false)
unfolding new_transition
needs_nothing places d w = (
  elim w.channel [ inl h ↦ h | inr h ↦ absurd h ],
  elim w.shell [ inl h ↦ h | inr h ↦ absurd h.0 ],
)

-- Adding a transition for human input or for the shell is always answered by an error.
pub mutate-add_configured_fails :
    (now : ℕ) (d : TransitionDef) (c : Cpn) (log : AuditLog)
    → (is_hitl d.kind || is_bash d.kind) ≡ true
    → (mutate now (add_transition (some d)) c log).0 ≢ none
unfolding apply_mutation
mutate-add_configured_fails now d c log needs fine =
    elim (mutate-Exit now (add_transition (some d)) c log) [
      | not_permitted _ e _ _ ↦ cc
      | rollback e fails _ _ ↦ cc
      | commit _ _ applied valid _ _ ↦
          let m = (apply_add_transition (some d) (snapshot_of c)).1 in
          let well = (validate_iff m.places m.transitions).0 valid in
          let found = apply_add_transition-lookup d (snapshot_of c) applied in
          let none_needed =
            needs_nothing m.places d
              (All-lookup (IsWellFormed m.places) d.id m.transitions well found) in
          ground arith
    ]

apply_mutation-keeps :
    (mut : Mutation) (c : Cpn) (pid : String) (p : Place)
    → lookup pid c.places ≡ some p
    → (lookup pid (apply_mutation mut (snapshot_of c)).1.places ≡ some p)
      × (lookup pid (apply_mutation mut (snapshot_of c)).1.kept_places ≡ some p)
unfolding apply_mutation apply_add_place apply_add_transition apply_deprecate_transition
apply_mutation-keeps (add_place none) c pid p h = (h, h)
apply_mutation-keeps (add_place (some d)) c pid p h =
    ground
      (arith, lookup-insert d.id pid (new_place d.id d.color d.space) c.places, eq_iff d.id pid)
apply_mutation-keeps (add_transition none) c pid p h = (h, h)
apply_mutation-keeps (add_transition (some d)) c pid p h = ground arith
apply_mutation-keeps (deprecate_transition id reason) c pid p h = ground arith
apply_mutation-keeps other c pid p h = (h, h)

-- A place of the net is still there and unchanged after any mutation, whatever the answer.
pub mutate-keeps_places :
    (now : ℕ) (mut : Mutation) (c : Cpn) (log : AuditLog) (pid : String) (p : Place)
    → lookup pid c.places ≡ some p
    → lookup pid (mutate now mut c log).1.places ≡ some p
mutate-keeps_places now mut c log pid p h =
    let keeps = apply_mutation-keeps mut c pid p h in
    elim (mutate-Exit now mut c log) [
      | not_permitted _ _ same _ ↦ rw same h
      | rollback _ _ same _ ↦ rw same keeps.1
      | commit _ _ _ _ same _ ↦ rw same keeps.0
    ]
