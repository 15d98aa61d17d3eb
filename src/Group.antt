-- ===== src/Group.antt =====
-- back/go-assistant/cpn/group_agent.go: a group of child nets, by their addresses; the nets themselves
-- are in a store, which the group shares with the executor.
pub mod Settled
use liwaisi_assistant.Base.{
  String, Bool, true, false, not, Option, none, some, List, [], ◌∷◌, ◌++◌, Dict, lookup, modify,
  keep, length, ℕ, ◌≡◌, refl, sym, subst, ap, ◌∙◌, arith, if◌then◌else◌, inl, inr, eq_iff,
  Bool-cases, Option-cases, ◌==◌,
}
use liwaisi_assistant.Token.{Event}
use liwaisi_assistant.Net.{Cpn, State, idle, running, to_emitter}

abbrev pub Nets : Type 0
Nets = Dict Cpn

pub record GroupAgent : Type 0 where
  pub id : String
  pub topic : String
  pub active : List String
  pub non_active : List String

abbrev pub new_group : (id topic : String) → GroupAgent
new_group id topic = record { id = id; topic = topic; active = []; non_active = [] }

abbrev pub is_active_state : State → Bool
is_active_state running = true
is_active_state idle = true
is_active_state _ = false

unfoldable pub id_at : Nets → String → String
id_at nets a = elim (lookup a nets) [ none ↦ "" | some c ↦ c.id ]

unfoldable pub active_at : Nets → String → Bool
active_at nets a = elim (lookup a nets) [ none ↦ false | some c ↦ is_active_state c.state ]

unfoldable pub register : (address : String) → Nets → GroupAgent → GroupAgent
unfolding active_at
register a nets g =
    if active_at nets a
    then record g { active = g.active ++ a ∷ [] }
    else record g { non_active = g.non_active ++ a ∷ [] }

-- A full or missing channel is skipped.
unfoldable pub deliver_each : Event → List String → Nets → Nets
deliver_each e [] nets = nets
deliver_each e (a ∷ rest) nets = deliver_each e rest (modify a (to_emitter e) nets)

unfoldable pub deliver : Event → GroupAgent → Nets → Nets
unfolding deliver_each
deliver e g nets = deliver_each e g.active nets

abbrev pub without : (id : String) → Nets → List String → List String
without id nets = keep (λ a. not (id_at nets a == id))

unfoldable pub deregister : (id : String) → Nets → GroupAgent → GroupAgent
deregister id nets g = record g { active = without id nets g.active }

-- The first member with the id.
unfoldable pub find_member : (id : String) → Nets → List String → Option String
find_member id nets [] = none
find_member id nets (a ∷ rest) =
    let later = find_member id nets rest in if id_at nets a == id then some a else later

-- The two searches of SwitchCMP, by what each finds.
abbrev pub move_member :
    (id : String) → Nets → GroupAgent → (in_active in_other : Option String) → GroupAgent
move_member id nets g (some a) other =
    if active_at nets a
    then g
    else record g { active = without id nets g.active; non_active = g.non_active ++ a ∷ [] }
move_member id nets g none none = g
move_member id nets g none (some a) =
    if active_at nets a
    then record g { active = g.active ++ a ∷ []; non_active = without id nets g.non_active }
    else g

unfoldable pub switch_cmp : (id : String) → Nets → GroupAgent → GroupAgent
unfolding find_member
switch_cmp id nets g =
    move_member id nets g (find_member id nets g.active) (find_member id nets g.non_active)
