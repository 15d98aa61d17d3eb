-- ===== src/Scenarios/Topologies.antt =====
-- The theorems on mutations, on the review net while it is mutable.
use liwaisi_assistant.Base.{
  String, ◌≡◌, refl, ◌≢◌, true, none, some, [], ◌∷◌, lookup, insert, arith, eq_iff,
}
use liwaisi_assistant.Errors.{Error, validation_errors, invalid_arc}
use liwaisi_assistant.Token.{json, computation, NodeKind}
use liwaisi_assistant.Place.{new_place}
use liwaisi_assistant.Net.{Cpn, new_cpn}
use liwaisi_assistant.Transition.{new_transition}
use liwaisi_assistant.Validate.{
  validate, sort_by_key, insert_by_key, check_all, check_transition, check_arc_references, missing,
  check_error_place, check_hitl_config, check_bash_config, check_space_violations, bypasses,
}
use liwaisi_assistant.Mutate.{
  Mutation, add_place, deprecate_transition, TransitionDef, mutate, deprecate, apply_mutation,
  apply_add_place,
}
use liwaisi_assistant.Mutate.Rollback.{
  mutate_error-unchanged, mutate_ok-valid, mutate-deprecate_sticks,
}
use liwaisi_assistant.Scenarios.Data.{drafts, merge, hot_net}

abbrev more : Mutation
more = add_place (some (record { id = "more"; color = json; space = computation }))

abbrev again : Mutation
again = add_place (some (record { id = "done"; color = json; space = computation }))

again_fails : (mutate 9 again hot_net none).0 ≢ none
unfolding mutate apply_mutation apply_add_place lookup new_cpn
again_fails = ground arith

mutate_error-unchanged_example :
    ((mutate 9 again hot_net none).1.places ≡ hot_net.places)
    × ((mutate 9 again hot_net none).1.transitions ≡ hot_net.transitions)
mutate_error-unchanged_example = mutate_error-unchanged 9 again hot_net none refl again_fails

more_applies : (mutate 9 more hot_net none).0 ≡ none
unfolding mutate apply_mutation apply_add_place lookup insert new_cpn new_transition new_place
    validate sort_by_key insert_by_key check_all check_transition check_arc_references missing
    check_error_place check_hitl_config check_bash_config check_space_violations bypasses
more_applies = refl

mutate_ok-valid_example :
    (hot_net.mutable_after_start ≡ true)
    × (validate (mutate 9 more hot_net none).1.places (mutate 9 more hot_net none).1.transitions
        ≡ none)
mutate_ok-valid_example = mutate_ok-valid 9 more hot_net none more_applies

-- The net with a transition whose output place is missing.
abbrev broken : Cpn
broken = record hot_net {
  transitions =
      ("merge", merge)
      ∷ ("lost", new_transition "lost" NodeKind.tool ("drafts" ∷ []) ("nowhere" ∷ []))
      ∷ [];
}

abbrev invalid : Error
invalid = validation_errors (invalid_arc "lost" "nowhere" ∷ [])

broken_invalid : validate broken.places broken.transitions ≡ some invalid
unfolding lookup new_cpn new_transition validate sort_by_key insert_by_key check_all
    check_transition check_arc_references missing check_error_place check_hitl_config
    check_bash_config check_space_violations bypasses
broken_invalid = refl

abbrev old_id : String
old_id = "merge"

named : old_id ≢ ""
named = ground (arith, eq_iff "merge" "")

merge_there : lookup "merge" broken.transitions ≡ some merge
unfolding lookup
merge_there = refl

mutate-deprecate_sticks_example :
    ((mutate 9 (deprecate_transition "merge" "old") broken none).0 ≡ some invalid)
    × (lookup "merge" (mutate 9 (deprecate_transition "merge" "old") broken none).1.transitions
        ≡ some (deprecate "old" merge))
mutate-deprecate_sticks_example =
    mutate-deprecate_sticks 9 "merge" "old" broken none merge invalid refl named merge_there
      broken_invalid

abbrev asking : TransitionDef
asking = record {
  id = "ask";
  kind = NodeKind.hitl;
  input_places = "drafts" ∷ [];
  output_places = "approvals" ∷ [];
}

drafts_there : lookup "drafts" hot_net.places ≡ some drafts
unfolding lookup new_cpn
drafts_there = refl
