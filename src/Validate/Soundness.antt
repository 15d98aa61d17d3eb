-- ===== src/Validate/Soundness.antt =====
-- `Validate` (cpn/validate.go) accepts exactly the topologies that are well formed.
use liwaisi_assistant.Base.{
  String, ◌≡◌, refl, subst, ◌↔◌, ◌⊎◌, inl, inr, true, false, none, List, [], ◌∷◌, ◌++◌, Dict, has,
  any, All, arith, Bool-cases,
}
use Prim.Native.String.{compare}
use text.Mathlib.Text.{is_le}
use liwaisi_assistant.Token.{is_hitl}
use liwaisi_assistant.Place.{Place, is_surface, is_computation}
use liwaisi_assistant.Transition.{Transition}
use liwaisi_assistant.Validate.{
  check_arc_references, check_hitl_config, may_write, space_problems, is_bash, check_bash_config,
  space_is, check_transition, check_all, insert_by_key, sort_by_key, validate,
}
use liwaisi_assistant.Validate.Checks.{
  HasChannel, HasCommand, nil_of_append, append-nil_nil, missing-nil, check_error_place-nil,
  check_hitl_config-nil, check_bash_config-nil, check_arc_references-nil, space_problems-nil,
}

-- A transition that the checks let pass.
pub record IsWellFormed (places : Dict Place) (t : Transition) : Type 0 where
  pub inputs : All (λ pid. has pid places ≡ true) t.input_places
  pub outputs : All (λ pid. has pid places ≡ true) t.output_places
  pub errors : (t.error_place ≡ "") ⊎ (has t.error_place places ≡ true)
  pub no_bypass :
      (is_hitl t.kind ≡ true)
      ⊎ (any (space_is is_surface places) t.input_places ≡ false)
      ⊎ All (λ pid. space_is is_computation places pid ≡ false) t.output_places
  pub channel : (is_hitl t.kind ≡ false) ⊎ HasChannel t.hitl_config
  pub shell :
      (is_bash t.kind ≡ false)
      ⊎ HasCommand t.bash_config × All (λ pid. may_write places pid ≡ true) t.output_places

nil-check_arc_references :
    (places : Dict Place) (t : Transition)
    → IsWellFormed places t
    → check_arc_references places t ≡ []
unfolding check_arc_references
nil-check_arc_references places t w =
    append-nil_nil _ _ ((missing-nil t.id places t.input_places).1 w.inputs) (
      append-nil_nil _ _ ((missing-nil t.id places t.output_places).1 w.outputs)
        ((check_error_place-nil places t).1 w.errors))

check_transition-IsWellFormed :
    (places : Dict Place) (t : Transition) → check_transition places t ≡ [] → IsWellFormed places t
unfolding check_transition
check_transition-IsWellFormed places t h =
    let arcs = check_arc_references places t in
    let sp = space_problems arcs places t in
    let hc = check_hitl_config t in
    let bc = check_bash_config places t in
    let (a, rest) = nil_of_append arcs (sp ++ (hc ++ bc)) h in
    let (s, rest') = nil_of_append sp (hc ++ bc) rest in
    let (c, b) = nil_of_append hc bc rest' in
    let (i, o, e) = check_arc_references-nil places t a in
    record {
      inputs = i;
      outputs = o;
      errors = e;
      no_bypass = (space_problems-nil places t).0 (subst (λ x. space_problems x places t ≡ []) a s);
      channel = (check_hitl_config-nil t).0 c;
      shell = (check_bash_config-nil places t).0 b;
    }

nil-check_transition :
    (places : Dict Place) (t : Transition) → IsWellFormed places t → check_transition places t ≡ []
unfolding check_transition
nil-check_transition places t w =
    let a = nil-check_arc_references places t w in
    rw a (
      append-nil_nil _ _ ((space_problems-nil places t).1 w.no_bypass) (
        append-nil_nil _ _ ((check_hitl_config-nil t).1 w.channel)
          ((check_bash_config-nil places t).1 w.shell)))

check_all-nil :
    (places : Dict Place) (es : Dict Transition)
    → (check_all places es ≡ []) ↔ All (λ e. check_transition places e.1 ≡ []) es
unfolding check_all
check_all-nil places [] = ((λ h. tt), λ h. refl)
check_all-nil places (e ∷ es) =
    let ih = check_all-nil places es in
    (
      (λ h.
          let (a, b) = nil_of_append (check_transition places e.1) (check_all places es) h in
          (a, ih.0 b)),
      (λ h. append-nil_nil (check_transition places e.1) (check_all places es) h.0 (ih.1 h.1)),
    )

All-insert_by_key {ℓ} :
    {V : Type ℓ} (P : String × V → Type 0) (e : String × V) (es : Dict V)
    → All P (insert_by_key e es) ↔ (P e × All P es)
unfolding insert_by_key
All-insert_by_key P e [] = ((λ h. h), λ h. h)
All-insert_by_key P e (f ∷ es) =
    let ih = All-insert_by_key P e es in
    elim (Bool-cases (is_le (compare e.0 f.0))) [
      | inl p ↦ rw p ((λ h. h), λ h. h)
      | inr p ↦
          rw p ((λ h. let (a, b) = ih.0 h.1 in (a, (h.0, b))), λ h. (h.1.0, ih.1 (h.0, h.1.1)))
    ]

pub All-sort_by_key {ℓ} :
    {V : Type ℓ} (P : String × V → Type 0) (es : Dict V) → All P (sort_by_key es) ↔ All P es
unfolding sort_by_key
All-sort_by_key P [] = ((λ h. h), λ h. h)
All-sort_by_key P (e ∷ es) =
    let ih = All-sort_by_key P es in
    let here = All-insert_by_key P e (sort_by_key es) in
    ((λ h. let (a, b) = here.0 h in (a, ih.0 b)), λ h. here.1 (h.0, ih.1 h.1))

All-map {ℓ} :
    {A : Type ℓ} (P Q : A → Type 0) → ((a : A) → P a → Q a) → (xs : List A) → All P xs → All Q xs
All-map P Q f [] h = tt
All-map P Q f (x ∷ xs) h = (f x h.0, All-map P Q f xs h.1)

-- The checks find no problem exactly if for every transition each input, output and error place exists,
-- no surface input is wired to a place of computation except by human input, a transition for human
-- input has a channel, and a shell transition has a command and writes to shell or error places only.
pub validate_iff :
    (places : Dict Place) (transitions : Dict Transition)
    → (validate places transitions ≡ none) ↔ All (λ e. IsWellFormed places e.1) transitions
unfolding validate
validate_iff places transitions =
    let Clean : String × Transition → Type 0 = λ e. check_transition places e.1 ≡ [] in
    let Well : String × Transition → Type 0 = λ e. IsWellFormed places e.1 in
    let sorted = sort_by_key transitions in
    (
      (λ h.
          All-map Clean Well (λ e. check_transition-IsWellFormed places e.1) transitions
            ((All-sort_by_key Clean transitions).0
              ((check_all-nil places sorted).0 (ground arith)))),
      (λ w. rw (
        (check_all-nil places sorted).1 (
            (All-sort_by_key Clean transitions).1
              (All-map Well Clean (λ e. nil-check_transition places e.1) transitions w)),
        validate,
      )),
    )
