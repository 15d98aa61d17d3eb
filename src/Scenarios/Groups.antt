-- ===== src/Scenarios/Groups.antt =====
-- A group whose one active net waits for a person: back/go-assistant/cpn/group_agent.go.
use liwaisi_assistant.Base.{lookup, [], ◌∷◌, refl, inl}
use liwaisi_assistant.Net.{State, set_state, new_cpn}
use liwaisi_assistant.Group.{Nets, GroupAgent, find_member, switch_cmp, id_at}
use liwaisi_assistant.Group.Settled.{OneOf, Settled, OthersKept, switch_cmp-Settled}
use liwaisi_assistant.Scenarios.Data.{net}

abbrev waiting_nets : Nets
waiting_nets = ("child", set_state State.waiting net) ∷ []

abbrev one_active : GroupAgent
one_active = record { id = "g"; topic = "review"; active = "child" ∷ []; non_active = [] }

in_active :
    OneOf
      (find_member "root" waiting_nets one_active.active)
      (find_member "root" waiting_nets one_active.non_active)
      "child"
unfolding find_member id_at lookup new_cpn
in_active = inl (refl, refl)

switch_cmp-Settled_example :
    Settled "root" "child" waiting_nets (switch_cmp "root" waiting_nets one_active)
    × OthersKept "root" waiting_nets one_active (switch_cmp "root" waiting_nets one_active)
switch_cmp-Settled_example = switch_cmp-Settled "root" "child" waiting_nets one_active in_active
