-- ===== src/Mutate.antt =====
-- back/go-assistant/cpn/cpn_mutate.go: hot changes of a topology. The maps hold pointers, and the
-- rollback snapshot copies the pointers: a write through a transition's pointer shows in the
-- snapshot too. Nothing is ever written through a place's pointer here. The events' and the audit
-- log's texts are left out: the log is the list of what was recorded, with the error or none.
pub mod Rollback
pub mod Growth
use liwaisi_assistant.Base.{
  ℕ, String, Bool, true, false, not, Option, none, some, List, [], ◌∷◌, ◌++◌, Dict, lookup, insert,
  modify, has, all, if◌then◌else◌, ◌==◌, Result, ok, err,
}
use liwaisi_assistant.Errors.{
  Error, mutation_not_permitted, missing_def, empty_id, unknown_mutation, already_exists, not_found,
  place_missing,
}
use liwaisi_assistant.Token.{
  ColorSet, SpaceKind, NodeKind, topology_mutated, topology_mutation_rejected, failed, nil,
}
use liwaisi_assistant.Place.{Place, new_place}
use liwaisi_assistant.Transition.{Transition, new_transition}
use liwaisi_assistant.Net.{Cpn, emit, bare}
use liwaisi_assistant.Validate.{validate}

pub record PlaceDef : Type 0 where
  pub id : String
  pub color : ColorSet
  pub space : SpaceKind

pub record TransitionDef : Type 0 where
  pub id : String
  pub kind : NodeKind
  pub input_places : List String
  pub output_places : List String

-- `Kind` with the fields that its handler reads; `other` is any other kind.
pub data Mutation : Type 0 where
  add_place : Option PlaceDef → Mutation
  add_transition : Option TransitionDef → Mutation
  deprecate_transition : (id reason : String) → Mutation
  other : Mutation

-- The net's two maps and the snapshot's.
pub record Maps : Type 0 where
  pub places : Dict Place
  pub transitions : Dict Transition
  pub kept_places : Dict Place
  pub kept_transitions : Dict Transition

abbrev pub snapshot_of : Cpn → Maps
snapshot_of c = record {
  places = c.places;
  transitions = c.transitions;
  kept_places = c.places;
  kept_transitions = c.transitions;
}

unfoldable pub apply_add_place : Option PlaceDef → Maps → Option Error × Maps
apply_add_place none m = (some missing_def, m)
apply_add_place (some d) m =
    if d.id == ""
    then (some empty_id, m)
    else if has d.id m.places
    then (some (already_exists d.id), m)
    else (none, record m { places = insert d.id (new_place d.id d.color d.space) m.places })

-- The first place of the list that does not exist.
unfoldable pub first_missing : Dict Place → List String → Option String
first_missing places [] = none
first_missing places (pid ∷ pids) =
    let rest = first_missing places pids in if has pid places then rest else some pid

-- The literal `&Transition{…}` sets no `Silent`, unlike `NewTransition`.
abbrev pub added : TransitionDef → Transition
added d = record (new_transition d.id d.kind d.input_places d.output_places) { silent = false }

unfoldable pub apply_add_transition : Option TransitionDef → Maps → Option Error × Maps
apply_add_transition none m = (some missing_def, m)
apply_add_transition (some d) m =
    if d.id == ""
    then (some empty_id, m)
    else if has d.id m.transitions
    then (some (already_exists d.id), m)
    else elim (first_missing m.places d.input_places) [
      | some pid ↦ (some (place_missing pid), m)
      | none ↦ elim (first_missing m.places d.output_places) [
        | some pid ↦ (some (place_missing pid), m)
        | none ↦ (none, record m { transitions = insert d.id (added d) m.transitions })
      ]
    ]

abbrev pub deprecate : String → Transition → Transition
deprecate reason t = record t { deprecated = true; deprecate_reason = reason }

-- The write through the pointer is seen in both maps.
unfoldable pub apply_deprecate_transition : (id reason : String) → Maps → Option Error × Maps
apply_deprecate_transition id reason m =
    if id == ""
    then (some empty_id, m)
    else if not (has id m.transitions)
    then (some (not_found id), m)
    else (
      none,
      record m {
        transitions = modify id (deprecate reason) m.transitions;
        kept_transitions = modify id (deprecate reason) m.kept_transitions;
      },
    )

unfoldable pub apply_mutation : Mutation → Maps → Option Error × Maps
apply_mutation (add_place d) m = apply_add_place d m
apply_mutation (add_transition d) m = apply_add_transition d m
apply_mutation (deprecate_transition id reason) m = apply_deprecate_transition id reason m
apply_mutation other m = (some unknown_mutation, m)

-- What the audit log was handed: the mutation, and the reason of a rejection.
abbrev pub AuditLog : Type 0
AuditLog = Option (List (Mutation × Option Error))

abbrev pub log_mutation : Mutation → Option Error → AuditLog → AuditLog
log_mutation m e none = none
log_mutation m e (some entries) = some (entries ++ (m, e) ∷ [])

abbrev pub rolled_back : Maps → Cpn → Cpn
rolled_back m c = record c { places = m.kept_places; transitions = m.kept_transitions }

abbrev pub committed : Maps → Cpn → Cpn
committed m c = record c { places = m.places; transitions = m.transitions }

abbrev pub reject : ℕ → Mutation → Error → Cpn → AuditLog → Option Error × Cpn × AuditLog
reject now mut e c log =
    (some e, emit now (bare topology_mutation_rejected (failed e)) c, log_mutation mut (some e) log)

unfoldable pub mutate : ℕ → Mutation → Cpn → AuditLog → Option Error × Cpn × AuditLog
mutate now mut c log =
    if not c.mutable_after_start
    then (
      some mutation_not_permitted,
      emit now (bare topology_mutation_rejected (failed mutation_not_permitted)) c,
      log,
    )
    else let (problem, m) = apply_mutation mut (snapshot_of c) in
      elim problem [
        | some e ↦ reject now mut e (rolled_back m c) log
        | none ↦ elim (validate m.places m.transitions) [
          | some e ↦ reject now mut e (rolled_back m c) log
          | none ↦ (
            none,
            emit now (bare topology_mutated nil) (committed m c),
            log_mutation mut none log,
          )
        ]
      ]
