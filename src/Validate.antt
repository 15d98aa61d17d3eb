-- ===== src/Validate.antt =====
-- back/go-assistant/cpn/validate.go: the structural checks of a topology. The error list is empty
-- where `Validate` returns nil. The transitions are walked in the order of their keys.
pub mod Checks
pub mod Soundness
pub mod Order
use Prim.Native.String.{compare}
use text.Mathlib.Text.{is_le}
use liwaisi_assistant.Base.{
  ℕ, String, Bool, true, false, not, ◌&&◌, ◌||◌, Option, none, some, List, [], ◌∷◌, ◌++◌, Dict,
  lookup, has, any, is_empty, if◌then◌else◌, ◌==◌, Result, ok, err,
}
use liwaisi_assistant.Errors.{
  Problem, invalid_arc, space_violation, hitl_nil_config, hitl_nil_channel, bash_missing_config,
  bash_missing_command, bash_invalid_output_color, Error, validation_errors,
}
use liwaisi_assistant.Token.{ColorSet, error, NodeKind, bash, is_hitl, is_shell_color, SpaceKind}
use liwaisi_assistant.Place.{Place, is_surface, is_computation}
use liwaisi_assistant.Transition.{Transition, HitlConfig, BashConfig}

-- `sort.Strings` on the keys, by insertion.
unfoldable pub insert_by_key {ℓ} : {V : Type ℓ} → String × V → Dict V → Dict V
insert_by_key e [] = e ∷ []
insert_by_key e (f ∷ es) = if is_le (compare e.0 f.0) then e ∷ f ∷ es else f ∷ insert_by_key e es

unfoldable pub sort_by_key {ℓ} : {V : Type ℓ} → Dict V → Dict V
unfolding insert_by_key
sort_by_key [] = []
sort_by_key (e ∷ es) = insert_by_key e (sort_by_key es)

-- One problem for each listed place that is missing.
unfoldable pub missing : (transition : String) → Dict Place → List String → List Problem
missing tid places [] = []
missing tid places (pid ∷ pids) =
    let rest = missing tid places pids in
    if has pid places then rest else invalid_arc tid pid ∷ rest

unfoldable pub check_error_place : Dict Place → Transition → List Problem
check_error_place places t =
    if t.error_place == ""
    then []
    else if has t.error_place places
    then []
    else invalid_arc t.id t.error_place ∷ []

unfoldable pub check_arc_references : Dict Place → Transition → List Problem
check_arc_references places t =
    missing t.id places t.input_places
    ++ (missing t.id places t.output_places ++ check_error_place places t)

abbrev pub check_channel : String → Option HitlConfig → List Problem
check_channel tid none = hitl_nil_config tid ∷ []
check_channel tid (some h) = if h.has_channel then [] else hitl_nil_channel tid ∷ []

unfoldable pub check_hitl_config : Transition → List Problem
check_hitl_config t = if is_hitl t.kind then check_channel t.id t.hitl_config else []

abbrev is_error_color : ColorSet → Bool
is_error_color error = true
is_error_color _ = false

-- A colour that a bash transition may write to.
unfoldable pub is_bash_output : ColorSet → Bool
is_bash_output c = is_error_color c || is_shell_color c

-- The two `continue`s of the loop: a missing place is reported elsewhere.
abbrev pub may_write : Dict Place → String → Bool
may_write places pid = elim (lookup pid places) [ none ↦ true | some p ↦ is_bash_output p.color ]

unfoldable pub check_bash_outputs : (transition : String) → Dict Place → List String → List Problem
check_bash_outputs tid places [] = []
check_bash_outputs tid places (pid ∷ pids) =
    let rest = check_bash_outputs tid places pids in
    if may_write places pid then rest else bash_invalid_output_color tid pid ∷ rest

abbrev pub is_bash : NodeKind → Bool
is_bash bash = true
is_bash _ = false

abbrev pub empty_command : String → BashConfig → List Problem
empty_command tid b = if b.command == "" then bash_missing_command tid ∷ [] else []

abbrev pub check_command : Dict Place → Transition → Option BashConfig → List Problem
check_command places t none = bash_missing_config t.id ∷ []
check_command places t (some b) =
    empty_command t.id b ++ check_bash_outputs t.id places t.output_places

unfoldable pub check_bash_config : Dict Place → Transition → List Problem
check_bash_config places t = if is_bash t.kind then check_command places t t.bash_config else []

abbrev pub space_is : (SpaceKind → Bool) → Dict Place → String → Bool
space_is test places pid = elim (lookup pid places) [ none ↦ false | some p ↦ test p.space ]

unfoldable pub bypasses : (transition : String) → Dict Place → List String → List Problem
bypasses tid places [] = []
bypasses tid places (pid ∷ pids) =
    let rest = bypasses tid places pids in
    if space_is is_computation places pid then space_violation tid pid ∷ rest else rest

unfoldable pub check_space_violations : Dict Place → Transition → List Problem
check_space_violations places t =
    if any (space_is is_surface places) t.input_places
    then bypasses t.id places t.output_places
    else []

-- The space check is skipped for a transition with bad arcs, and for the sanctioned bridge.
abbrev pub space_problems : List Problem → Dict Place → Transition → List Problem
space_problems arcs places t =
    if is_empty arcs && not (is_hitl t.kind) then check_space_violations places t else []

-- The body of the loop of `Validate`.
unfoldable pub check_transition : Dict Place → Transition → List Problem
check_transition places t =
    let arcs = check_arc_references places t in
    arcs ++ (space_problems arcs places t ++ (check_hitl_config t ++ check_bash_config places t))

unfoldable pub check_all : Dict Place → Dict Transition → List Problem
check_all places [] = []
check_all places (e ∷ es) = check_transition places e.1 ++ check_all places es

unfoldable pub validate : Dict Place → Dict Transition → Option Error
unfolding check_all
validate places transitions = elim (check_all places (sort_by_key transitions)) [
  | [] ↦ none
  | (p ∷ ps) ↦ some (validation_errors (p ∷ ps))
]
