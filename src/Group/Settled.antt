-- ===== src/Group/Settled.antt =====
-- Where SwitchCMP of back/go-assistant/cpn/group_agent.go puts a member.
use liwaisi_assistant.Base.{
  String, false, Option, none, some, List, [], ◌∷◌, ◌++◌, ◌≡◌, refl, subst, ◌⊎◌, arith, inl, inr,
  eq_iff, Bool-cases, ◌==◌, if◌then◌else◌,
}
use liwaisi_assistant.Group.{
  Nets, GroupAgent, active_at, id_at, without, find_member, move_member, switch_cmp,
}

find_member-without :
    (id : String) (nets : Nets) (xs : List String) → find_member id nets (without id nets xs) ≡ none
unfolding find_member
find_member-without id nets [] = refl
find_member-without id nets (a ∷ xs) = elim (Bool-cases (id_at nets a == id)) [
  | inl same ↦ rw (same) (find_member-without id nets xs)
  | inr other ↦ rw (other) (rw (other, find_member) (find_member-without id nets xs))
]

find_member-snoc :
    (id : String) (nets : Nets) (xs : List String) (a : String)
    → find_member id nets xs ≡ none
    → id_at nets a ≡ id
    → find_member id nets (xs ++ a ∷ []) ≡ some a
unfolding find_member
find_member-snoc id nets [] a h same = ground (arith, eq_iff (id_at nets a) id)
find_member-snoc id nets (x ∷ xs) a h same = elim (Bool-cases (id_at nets x == id)) [
  | inl found ↦ ground arith
  | inr other ↦ ground (arith, find_member-snoc id nets xs a)
]

find_member-id :
    (id : String) (nets : Nets) (xs : List String) (a : String)
    → find_member id nets xs ≡ some a
    → id_at nets a ≡ id
unfolding find_member
find_member-id id nets [] a h = ground arith
find_member-id id nets (x ∷ xs) a h =
    ground (arith, find_member-id id nets xs a, eq_iff (id_at nets x) id)

-- Members of another id are where they were.
find_member-without_other :
    (id j : String) (nets : Nets) (xs : List String)
    → (j == id) ≡ false
    → find_member j nets (without id nets xs) ≡ find_member j nets xs
unfolding find_member
find_member-without_other id j nets [] other = refl
find_member-without_other id j nets (a ∷ xs) other =
    let rest = find_member-without_other id j nets xs other in
    ground (arith, rest, eq_iff (id_at nets a) id, eq_iff (id_at nets a) j, eq_iff j id)

find_member-snoc_other :
    (j : String) (nets : Nets) (xs : List String) (a : String)
    → (id_at nets a == j) ≡ false
    → find_member j nets (xs ++ a ∷ []) ≡ find_member j nets xs
unfolding find_member
find_member-snoc_other j nets [] a other = ground arith
find_member-snoc_other j nets (x ∷ xs) a other = ground (arith, find_member-snoc_other j nets xs a)

not_named :
    (id j : String) (nets : Nets) (a : String)
    → id_at nets a ≡ id
    → (j == id) ≡ false
    → (id_at nets a == j) ≡ false
not_named id j nets a named other = ground (arith, eq_iff (id_at nets a) j, eq_iff j id)

-- The net with the id, in exactly one of the two sets.
abbrev pub OneOf : (in_active in_other : Option String) → String → Type 0
OneOf o p a = ((o ≡ some a) × (p ≡ none)) ⊎ ((o ≡ none) × (p ≡ some a))

-- The member at the address is in the set that its state asks for, and not in the other.
abbrev pub Settled : (id address : String) → Nets → GroupAgent → Type 0
Settled id a nets g =
    if active_at nets a
    then (find_member id nets g.active ≡ some a) × (find_member id nets g.non_active ≡ none)
    else (find_member id nets g.active ≡ none) × (find_member id nets g.non_active ≡ some a)

-- The members of all other ids are where they were.
abbrev pub OthersKept : (id : String) → Nets → GroupAgent → GroupAgent → Type 0
OthersKept id nets g g' =
    (j : String)
    → (j == id) ≡ false
    → (find_member j nets g'.active ≡ find_member j nets g.active)
      × (find_member j nets g'.non_active ≡ find_member j nets g.non_active)

leaves_active :
    (id : String) (nets : Nets) (g : GroupAgent) (a : String)
    → find_member id nets g.active ≡ some a
    → find_member id nets g.non_active ≡ none
    → Settled id a nets (move_member id nets g (some a) none)
      × OthersKept id nets g (move_member id nets g (some a) none)
leaves_active id nets g a here absent =
    let named = find_member-id id nets g.active a here in
    elim (Bool-cases (active_at nets a)) [
      | inl runs ↦ rw (runs) ((here, absent), λ j other. (refl, refl))
      | inr waits ↦ rw (waits) (
        (
          find_member-without id nets g.active,
          find_member-snoc id nets g.non_active a absent named,
        ),
        λ j other. (
          find_member-without_other id j nets g.active other,
          find_member-snoc_other j nets g.non_active a (not_named id j nets a named other),
        ),
      )
    ]

enters_active :
    (id : String) (nets : Nets) (g : GroupAgent) (a : String)
    → find_member id nets g.active ≡ none
    → find_member id nets g.non_active ≡ some a
    → Settled id a nets (move_member id nets g none (some a))
      × OthersKept id nets g (move_member id nets g none (some a))
enters_active id nets g a absent here =
    let named = find_member-id id nets g.non_active a here in
    elim (Bool-cases (active_at nets a)) [
      | inr waits ↦ rw (waits) ((absent, here), λ j other. (refl, refl))
      | inl runs ↦ rw (runs) (
        (
          find_member-snoc id nets g.active a absent named,
          find_member-without id nets g.non_active,
        ),
        λ j other. (
          find_member-snoc_other j nets g.active a (not_named id j nets a named other),
          find_member-without_other id j nets g.non_active other,
        ),
      )
    ]

found_by :
    (id : String) (nets : Nets) (g : GroupAgent) (o p : Option String)
    → find_member id nets g.active ≡ o
    → find_member id nets g.non_active ≡ p
    → move_member id nets g o p ≡ switch_cmp id nets g
unfolding switch_cmp
found_by id nets g o p e f = rw (← e) (rw (← f) refl)

-- If the id is that of a net that is in exactly one of the two sets, then after SwitchCMP the net is
-- in the set that its state asks for and not in the other, and the nets of all other ids are where
-- they were.
pub switch_cmp-Settled :
    (id a : String) (nets : Nets) (g : GroupAgent)
    → OneOf (find_member id nets g.active) (find_member id nets g.non_active) a
    → Settled id a nets (switch_cmp id nets g) × OthersKept id nets g (switch_cmp id nets g)
unfolding switch_cmp
switch_cmp-Settled id a nets g (inl (here, absent)) =
    subst (λ m. Settled id a nets m × OthersKept id nets g m)
      (found_by id nets g (some a) none here absent) (leaves_active id nets g a here absent)
switch_cmp-Settled id a nets g (inr (absent, here)) =
    subst (λ m. Settled id a nets m × OthersKept id nets g m)
      (found_by id nets g none (some a) absent here) (enters_active id nets g a absent here)
