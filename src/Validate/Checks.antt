-- ===== src/Validate/Checks.antt =====
-- What it takes for each single check (cpn/validate.go) to find no problem.
use liwaisi_assistant.Base.{
  String, ◌≡◌, refl, ◌≢◌, ◌↔◌, ◌⊎◌, inl, inr, true, false, Option, none, some, List, [], ◌∷◌, ◌++◌,
  Dict, has, any, All, arith, Bool-cases, if◌then◌else◌, eq_iff,
}
use liwaisi_assistant.Token.{is_hitl}
use liwaisi_assistant.Place.{Place, is_surface, is_computation}
use liwaisi_assistant.Transition.{Transition, HitlConfig, BashConfig}
use liwaisi_assistant.Validate.{
  missing, check_error_place, check_arc_references, check_hitl_config, may_write,
  check_bash_outputs, check_channel, check_command, empty_command, space_problems, is_bash,
  check_bash_config, space_is, bypasses, check_space_violations,
}

-- What each kind of transition needs of its configuration.
abbrev pub HasChannel : Option HitlConfig → Type 0
HasChannel none = ⊥
HasChannel (some h) = h.has_channel ≡ true

abbrev pub HasCommand : Option BashConfig → Type 0
HasCommand none = ⊥
HasCommand (some b) = b.command ≢ ""

pub nil_of_append {ℓ} : {A : Type ℓ} (xs ys : List A) → xs ++ ys ≡ [] → (xs ≡ []) × (ys ≡ [])
nil_of_append [] ys h = (refl, h)
nil_of_append (x ∷ xs) ys h = cc

pub append-nil_nil {ℓ} : {A : Type ℓ} (xs ys : List A) → xs ≡ [] → ys ≡ [] → xs ++ ys ≡ []
append-nil_nil xs ys h k = rw (h, k)

pub missing-nil :
    (tid : String) (places : Dict Place) (pids : List String)
    → (missing tid places pids ≡ []) ↔ All (λ pid. has pid places ≡ true) pids
unfolding missing
missing-nil tid places [] = (λ _. tt, λ _. refl)
missing-nil tid places (pid ∷ pids) =
    let ih = missing-nil tid places pids in
    elim (Bool-cases (has pid places)) [
      | inl p ↦ rw p ((λ h. (refl, ih.0 h)), λ h. ih.1 h.1)
      | inr p ↦ rw p ((λ h. cc), λ h. cc (h.0))
    ]

pub bypasses-nil :
    (tid : String) (places : Dict Place) (pids : List String)
    → (bypasses tid places pids ≡ []) ↔ All (λ pid. space_is is_computation places pid ≡ false) pids
unfolding bypasses
bypasses-nil tid places [] = (λ _. tt, λ _. refl)
bypasses-nil tid places (pid ∷ pids) =
    let ih = bypasses-nil tid places pids in
    elim (Bool-cases (space_is is_computation places pid)) [
      | inr p ↦ rw p ((λ h. (refl, ih.0 h)), λ h. ih.1 h.1)
      | inl p ↦ rw p ((λ h. cc), λ h. cc (h.0))
    ]

pub check_bash_outputs-nil :
    (tid : String) (places : Dict Place) (pids : List String)
    → (check_bash_outputs tid places pids ≡ []) ↔ All (λ pid. may_write places pid ≡ true) pids
unfolding check_bash_outputs
check_bash_outputs-nil tid places [] = (λ _. tt, λ _. refl)
check_bash_outputs-nil tid places (pid ∷ pids) =
    let ih = check_bash_outputs-nil tid places pids in
    elim (Bool-cases (may_write places pid)) [
      | inl p ↦ rw p ((λ h. (refl, ih.0 h)), λ h. ih.1 h.1)
      | inr p ↦ rw p ((λ h. cc), λ h. cc (h.0))
    ]

pub check_error_place-nil :
    (places : Dict Place) (t : Transition)
    → (check_error_place places t ≡ []) ↔ ((t.error_place ≡ "") ⊎ (has t.error_place places ≡ true))
unfolding check_error_place
check_error_place-nil places t = (
  (λ h. ground (arith, eq_iff t.error_place "")),
  λ h. ground (arith, h, eq_iff t.error_place ""),
)

pub check_hitl_config-nil :
    (t : Transition)
    → (check_hitl_config t ≡ []) ↔ ((is_hitl t.kind ≡ false) ⊎ HasChannel t.hitl_config)
unfolding check_hitl_config
check_hitl_config-nil t = (to t.hitl_config, from t.hitl_config)
  where
    to :
        (o : Option HitlConfig)
        → (if is_hitl t.kind then check_channel t.id o else []) ≡ []
        → (is_hitl t.kind ≡ false) ⊎ HasChannel o
    to none h = ground arith
    to (some x) h = ground arith

    from :
        (o : Option HitlConfig)
        → (is_hitl t.kind ≡ false) ⊎ HasChannel o
        → (if is_hitl t.kind then check_channel t.id o else []) ≡ []
    from none (inl h) = rw h
    from none (inr h) = absurd h
    from (some x) h = ground (arith, h)

pub bash_command-nil :
    (places : Dict Place) (t : Transition) (o : Option BashConfig)
    → (check_command places t o ≡ [])
      ↔ (HasCommand o × All (λ pid. may_write places pid ≡ true) t.output_places)
bash_command-nil places t none = ((λ h. cc), λ h. absurd h.0)
bash_command-nil places t (some b) =
    let outs = check_bash_outputs-nil t.id places t.output_places in
    (
      (λ h.
          let parts =
            nil_of_append (empty_command t.id b) (check_bash_outputs t.id places t.output_places)
              h in
          (ground (arith, parts.0, eq_iff b.command ""), outs.0 parts.1)),
      λ h.
          append-nil_nil (empty_command t.id b) (check_bash_outputs t.id places t.output_places)
            (ground (arith, h.0, eq_iff b.command "")) (outs.1 h.1),
    )

pub check_bash_config-nil :
    (places : Dict Place) (t : Transition)
    → (check_bash_config places t ≡ []) ↔ (
        (is_bash t.kind ≡ false)
        ⊎ HasCommand t.bash_config × All (λ pid. may_write places pid ≡ true) t.output_places)
unfolding check_bash_config
check_bash_config-nil places t =
    let body = bash_command-nil places t t.bash_config in
    elim (Bool-cases (is_bash t.kind)) [
      | inl p ↦ rw p ((λ h. inr (body.0 h)), λ h. elim h [ inl q ↦ cc | inr q ↦ body.1 q ])
      | inr p ↦ rw p ((λ h. inl refl), λ h. refl)
    ]

pub check_space_violations-nil :
    (places : Dict Place) (t : Transition)
    → (check_space_violations places t ≡ []) ↔ (
        (any (space_is is_surface places) t.input_places ≡ false)
        ⊎ All (λ pid. space_is is_computation places pid ≡ false) t.output_places)
unfolding check_space_violations
check_space_violations-nil places t =
    let body = bypasses-nil t.id places t.output_places in
    elim (Bool-cases (any (space_is is_surface places) t.input_places)) [
      | inl p ↦ rw p ((λ h. inr (body.0 h)), λ h. elim h [ inl q ↦ cc | inr q ↦ body.1 q ])
      | inr p ↦ rw p ((λ h. inl refl), λ h. refl)
    ]

pub check_arc_references-nil :
    (places : Dict Place) (t : Transition)
    → check_arc_references places t ≡ []
    → (All (λ pid. has pid places ≡ true) t.input_places)
      × (All (λ pid. has pid places ≡ true) t.output_places)
      × ((t.error_place ≡ "") ⊎ (has t.error_place places ≡ true))
unfolding check_arc_references
check_arc_references-nil places t h =
    let ins = missing t.id places t.input_places in
    let outs = missing t.id places t.output_places in
    let err = check_error_place places t in
    let (i, rest) = nil_of_append ins (outs ++ err) h in
    let (o, e) = nil_of_append outs err rest in
    (
      (missing-nil t.id places t.input_places).0 i,
      (missing-nil t.id places t.output_places).0 o,
      (check_error_place-nil places t).0 e,
    )

pub space_problems-nil :
    (places : Dict Place) (t : Transition)
    → (space_problems [] places t ≡ []) ↔ (
        (is_hitl t.kind ≡ true)
        ⊎ (any (space_is is_surface places) t.input_places ≡ false)
        ⊎ All (λ pid. space_is is_computation places pid ≡ false) t.output_places)
space_problems-nil places t =
    let body = check_space_violations-nil places t in
    elim (Bool-cases (is_hitl t.kind)) [
      | inl p ↦ rw p ((λ h. inl refl), λ h. refl)
      | inr p ↦ rw p ((λ h. inr (body.0 h)), λ h. elim h [ inl q ↦ cc | inr q ↦ body.1 q ])
    ]
