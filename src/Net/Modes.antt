-- ===== src/Net/Modes.antt =====
-- back/go-assistant/cpn: the Centaurian guard of mode.go, and the mode rules of cpn.go.
use liwaisi_assistant.Base.{
  ℕ, String, Bool, true, false, not, ◌&&◌, ◌||◌, none, some, List, [], ◌∷◌, Dict, lookup, any,
  values, if◌then◌else◌,
}
use liwaisi_assistant.Token.{
  Token, Mode, mas, centaurian, switched, mode_switch, is_human_origin, is_hitl,
}
use liwaisi_assistant.Place.{Place, is_computation}
use liwaisi_assistant.Transition.{Transition, Guard, can_fire_with, can_fire}
use liwaisi_assistant.Net.Record.{Cpn}
use liwaisi_assistant.Net.Events.{emit, bare}

-- The loop of `centaurianGuard` over the two flags.
unfoldable pub both_origins : (human ai : Bool) → List Token → Bool
both_origins human ai [] = false
both_origins human ai (t ∷ ts) =
    let human' = human || is_human_origin t in
    let ai' = ai || not (is_human_origin t) in
    let rest = both_origins human' ai' ts in if human' && ai' then true else rest

unfoldable pub centaurian_guard : List Token → Bool
unfolding both_origins
centaurian_guard = both_origins false false

abbrev pub is_centaurian : Mode → Bool
is_centaurian centaurian = true
is_centaurian mas = false

abbrev pub same_mode : Mode → Mode → Bool
same_mode mas mas = true
same_mode centaurian centaurian = true
same_mode _ _ = false

unfoldable pub set_mode : ℕ → Mode → Cpn → Cpn
set_mode now mode c =
    if same_mode c.mode mode
    then c
    else emit now (bare mode_switch (switched c.mode mode)) (record c { mode = mode })

unfoldable pub in_computation : Dict Place → String → Bool
in_computation places pid = elim (lookup pid places) [
  | none ↦ false
  | some p ↦ is_computation p.space
]

unfoldable pub is_computation_transition : Cpn → Transition → Bool
unfolding in_computation
is_computation_transition c t = any (in_computation c.places) t.output_places

-- Both guards, the injected one first.
abbrev pub with_centaurian : Guard → Guard
with_centaurian none = some centaurian_guard
with_centaurian (some custom) = some (λ ts. centaurian_guard ts && custom ts)

unfoldable pub effective_guard : Cpn → Transition → Guard
effective_guard c t =
    if not (is_centaurian c.mode)
    then t.guard
    else if is_hitl t.kind
    then t.guard
    else if not (is_computation_transition c t)
    then t.guard
    else with_centaurian t.guard

unfoldable pub effective_can_fire : ℕ → Cpn → Transition → Bool × Transition
effective_can_fire now c t = can_fire_with now c.places (effective_guard c t) t

-- Some computation place holds a token of human origin.
unfoldable pub has_human_in_computation : List Place → Bool
has_human_in_computation = any (λ p. is_computation p.space && any is_human_origin p.tokens)

-- The scan for a firable HITL transition, which stops at the first. `CanFire` may close breakers.
unfoldable pub hitl_firable : ℕ → Dict Place → Dict Transition → Bool × Dict Transition
hitl_firable now places [] = (false, [])
hitl_firable now places ((k, t) ∷ ts) =
    let rest = hitl_firable now places ts in
    let fires = can_fire now places t in
    if is_hitl t.kind
    then if fires.0 then (true, (k, fires.1) ∷ ts) else (rest.0, (k, fires.1) ∷ rest.1)
    else (rest.0, (k, t) ∷ rest.1)

abbrev pub leave_centaurian : ℕ → Cpn → Cpn
leave_centaurian now c =
    let (found, ts) = hitl_firable now c.places c.transitions in
    let c' = record c { transitions = ts } in if found then c' else set_mode now mas c'

unfoldable pub check_mode_switch : ℕ → Cpn → Cpn
check_mode_switch now c =
    let human = has_human_in_computation (values c.places) in
    if is_centaurian c.mode
    then if human then c else leave_centaurian now c
    else if human
    then set_mode now centaurian c
    else c
