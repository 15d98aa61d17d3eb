-- ===== src/Behaviour/Guards.antt =====
-- The Centaurian guard (cpn/mode.go) and its injection (`effectiveGuard` of cpn/cpn.go).
use liwaisi_assistant.Base.{
  ℕ, ◌≡◌, refl, ◌↔◌, Bool, true, false, not, ◌&&◌, ◌||◌, none, some, List, [], ◌∷◌, any, All, arith,
  true_of_and,
}
use liwaisi_assistant.Token.{Token, is_hitl, is_human_origin, centaurian}
use liwaisi_assistant.Transition.{Transition, Guard, passes}
use liwaisi_assistant.Transition.Firing.{IsMarked, tokens_of, can_fire_with_iff}
use liwaisi_assistant.Net.{
  Cpn, both_origins, centaurian_guard, is_computation_transition, effective_guard,
  effective_can_fire, with_centaurian,
}

-- A list holds a token of human origin, and one of another origin.
abbrev pub HasBoth : List Token → Type 0
HasBoth ts = (any is_human_origin ts ≡ true) × (any (λ t. not (is_human_origin t)) ts ≡ true)

both_origins_lem :
    (human ai : Bool) (ts : List Token)
    → (human && ai) ≡ false
    → both_origins human ai ts
      ≡ ((human || any is_human_origin ts) && (ai || any (λ t. not (is_human_origin t)) ts))
unfolding both_origins
both_origins_lem human ai [] h = ground arith
both_origins_lem human ai (t ∷ ts) h =
    ground (arith, both_origins_lem (human || is_human_origin t) (ai || not (is_human_origin t)) ts)

-- The centaurian guard passes exactly if the tokens hold one of human origin and one of another
-- origin.
pub centaurian_guard_iff : (ts : List Token) → (centaurian_guard ts ≡ true) ↔ HasBoth ts
unfolding centaurian_guard
centaurian_guard_iff ts = (
  (λ h. ground (arith, both_origins_lem false false ts)),
  (λ h. ground (arith, both_origins_lem false false ts, h)),
)

passes-with_centaurian :
    (g : Guard) (ts : List Token)
    → passes (with_centaurian g) ts ≡ true
    → HasBoth ts × (passes g ts ≡ true)
passes-with_centaurian none ts h = ((centaurian_guard_iff ts).0 h, refl)
passes-with_centaurian (some custom) ts h =
    let both = true_of_and (centaurian_guard ts) (custom ts) h in
    ((centaurian_guard_iff ts).0 both.0, both.1)

effective_guard_injected :
    (c : Cpn) (t : Transition)
    → c.mode ≡ centaurian
    → is_hitl t.kind ≡ false
    → is_computation_transition c t ≡ true
    → effective_guard c t ≡ with_centaurian t.guard
unfolding effective_guard
effective_guard_injected c t mode kind comp = simp (mode, kind, comp)

-- In centaurian mode, if a transition that is not for human input and that writes to a place of
-- computation can fire, then all its input places are marked, their tokens hold one of human origin
-- and one of another origin, and its own guard passes.
pub effective_can_fire-HasBoth :
    (now : ℕ) (c : Cpn) (t : Transition)
    → c.mode ≡ centaurian
    → is_hitl t.kind ≡ false
    → is_computation_transition c t ≡ true
    → (effective_can_fire now c t).0 ≡ true
    → All (IsMarked c.places) t.input_places
      × HasBoth (tokens_of c.places t.input_places)
      × (passes t.guard (tokens_of c.places t.input_places) ≡ true)
unfolding effective_can_fire
effective_can_fire-HasBoth now c t mode kind comp h =
    let h' = rw (effective_guard_injected c t mode kind comp) at h in
    let fires = (can_fire_with_iff now c.places (with_centaurian t.guard) t).0 h' in
    let marked = fires.2 in
    let both = passes-with_centaurian t.guard (tokens_of c.places t.input_places) marked.2 in
    (marked.1, both.0, both.1)
