-- ===== src/Behaviour/Switching.antt =====
-- The mode rules after each firing round (`checkModeSwitch` of cpn/cpn.go).
use liwaisi_assistant.Base.{
  ℕ, ◌≡◌, refl, ◌↔◌, ◌⊎◌, Bool, true, false, ◌&&◌, [], ◌∷◌, Dict, any, values, arith,
}
use liwaisi_assistant.Token.{Mode, mas, mode_switch, switched, centaurian, is_hitl}
use liwaisi_assistant.Place.{Place}
use liwaisi_assistant.Transition.{Transition, can_fire}
use liwaisi_assistant.Net.{
  Cpn, bare, set_mode, has_human_in_computation, hitl_firable, check_mode_switch,
}
use liwaisi_assistant.Behaviour.Delivery.{emit-mode, emit-places}

set_mode-mode : (now : ℕ) (m : Mode) (c : Cpn) → (set_mode now m c).mode ≡ m
unfolding set_mode
set_mode-mode now m c =
    ground (arith, emit-mode now (bare mode_switch (switched c.mode m)) (record c { mode = m }))

pub set_mode-places : (now : ℕ) (m : Mode) (c : Cpn) → (set_mode now m c).places ≡ c.places
unfolding set_mode
set_mode-places now m c =
    ground (arith, emit-places now (bare mode_switch (switched c.mode m)) (record c { mode = m }))

-- Some HITL transition can fire by its own guard.
abbrev pub some_hitl : ℕ → Dict Place → Dict Transition → Bool
some_hitl now places = any (λ e. is_hitl e.1.kind && (can_fire now places e.1).0)

hitl_firable-some_hitl :
    (now : ℕ) (places : Dict Place) (ts : Dict Transition)
    → (hitl_firable now places ts).0 ≡ some_hitl now places ts
unfolding hitl_firable
hitl_firable-some_hitl now places [] = refl
hitl_firable-some_hitl now places (e ∷ ts) = ground (arith, hitl_firable-some_hitl now places ts)

-- The mode after the rules, from the marking and the mode before.
abbrev next_mode : (human hitl : Bool) → Mode → Mode
next_mode true hitl m = centaurian
next_mode false true m = m
next_mode false false m = mas

check_mode_switch-mode :
    (now : ℕ) (c : Cpn)
    → (check_mode_switch now c).mode
      ≡ next_mode
          (has_human_in_computation (values c.places))
          (some_hitl now c.places c.transitions)
          c.mode
unfolding check_mode_switch
check_mode_switch-mode now c =
    let ts = (hitl_firable now c.places c.transitions).1 in
    ground (
      arith,
      hitl_firable-some_hitl now c.places c.transitions,
      set_mode-mode now centaurian c,
      set_mode-mode now mas (record c { transitions = ts }),
    )

-- After the mode rules the net is in centaurian mode exactly if a place of computation holds a token of
-- human origin, or if it was in that mode and some transition for human input can fire.
pub check_mode_switch_iff :
    (now : ℕ) (c : Cpn)
    → ((check_mode_switch now c).mode ≡ centaurian) ↔ (
        (has_human_in_computation (values c.places) ≡ true)
        ⊎ (c.mode ≡ centaurian) × (some_hitl now c.places c.transitions ≡ true))
check_mode_switch_iff now c = (
  (λ h. ground (arith, check_mode_switch-mode now c)),
  (λ h. ground (arith, check_mode_switch-mode now c, h)),
)

pub check_mode_switch-places : (now : ℕ) (c : Cpn) → (check_mode_switch now c).places ≡ c.places
unfolding check_mode_switch
check_mode_switch-places now c =
    let ts = (hitl_firable now c.places c.transitions).1 in
    ground (
      arith,
      set_mode-places now centaurian c,
      set_mode-places now mas (record c { transitions = ts }),
    )
