-- ===== src/Session/Delivery.antt =====
-- The life of a registration (cpn/session.go): registered once, answered, and taken back.
use liwaisi_assistant.Base.{
  ℕ, String, ◌≡◌, refl, ◌≢◌, ◌∙◌, ap, inl, inr, Bool, true, false, none, some, [], ◌∷◌, ◌++◌,
  lookup, insert, has, lookup-insert, lookup-delete, Result, ok, err, arith, eq_iff, eq_refl,
  Option-cases, Bool-cases, is_some, subst,
}
use liwaisi_assistant.Errors.{
  Error, no_hitl_waiting, already_registered, nil_root, not_in_root, not_hitl,
}
use liwaisi_assistant.Token.{is_hitl, HitlResponse}
use liwaisi_assistant.Transition.{Transition}
use liwaisi_assistant.Net.{Cpn}
use liwaisi_assistant.Session.{
  Inbox, Session, register_tool_hitl, register_hitl, unregister_hitl, has_room, human_token,
  delivered_to, resolve_hitl,
}

-- What a registration answers, by the first check that fails.
abbrev pub RegisterSpec : String → Inbox → Session → Result Error Session → Type 0
RegisterSpec tid ch s (ok s') =
    (root : Cpn) × (t : Transition) × (s.root ≡ some root)
    × (lookup tid root.transitions ≡ some t)
    × (is_hitl t.kind ≡ true)
    × (lookup tid s.hitl_inject ≡ none)
    × (s'.hitl_inject ≡ insert tid ch s.hitl_inject)
    × (s'.id ≡ s.id)
    × (s'.root ≡ s.root)
RegisterSpec tid ch s (err (nil_root i)) = (i ≡ tid) × (s.root ≡ none)
RegisterSpec tid ch s (err (not_in_root i)) =
    (i ≡ tid) × (root : Cpn) × (s.root ≡ some root) × (lookup tid root.transitions ≡ none)
RegisterSpec tid ch s (err (not_hitl i)) =
    (i ≡ tid)
    × (root : Cpn) × (t : Transition) × (s.root ≡ some root)
    × (lookup tid root.transitions ≡ some t)
    × (is_hitl t.kind ≡ false)
RegisterSpec tid ch s (err (already_registered i)) = (i ≡ tid) × (has tid s.hitl_inject ≡ true)
RegisterSpec tid ch s (err _) = ⊥

-- A registration is refused for the first of four reasons that holds: the session has no root net, the
-- root has no such transition, the transition is not for human input, or a channel is registered
-- already. It succeeds exactly where none holds, and then adds the channel and keeps id and root.
pub register_hitl-RegisterSpec :
    (tid : String) (ch : Inbox) (s : Session) → RegisterSpec tid ch s (register_hitl tid ch s)
unfolding register_hitl register_tool_hitl
register_hitl-RegisterSpec tid ch s = elim (Option-cases s.root) [
  | inl rootless ↦ rw (register_hitl, rootless) (refl, refl)
  | inr (root, r) ↦ elim (Option-cases (lookup tid root.transitions)) [
    | inl absent ↦ rw (register_hitl, r) (rw absent (refl, root, refl, absent))
    | inr (t, there) ↦ elim (Bool-cases (is_hitl t.kind)) [
      | inr other_kind ↦
          rw (register_hitl, r) (rw there (rw other_kind (refl, root, t, refl, there, other_kind)))
      | inl asks ↦ elim (Option-cases (lookup tid s.hitl_inject)) [
        | inl fresh ↦
            rw (register_hitl, r)
              (rw there (
                rw asks (
                  rw (register_tool_hitl, fresh)
                    (root, t, refl, there, asks, fresh, refl, refl, r))))
        | inr (old, taken) ↦
            rw (register_hitl, r)
              (rw there (rw asks (rw (register_tool_hitl, taken) (refl, ap is_some taken))))
      ]
    ]
  ]
]

-- After a registration that succeeded, on a channel with room, an answer that is sent arrives last on
-- that channel as a human token of the session, and no other registration changes. A second
-- registration is refused then, and after the transition is unregistered so is an answer.
pub resolve_hitl-delivers :
    (tid other : String) (ch : Inbox) (s s' : Session) (now : ℕ) (resp : HitlResponse) (done : Bool)
    → register_hitl tid ch s ≡ ok s'
    → has_room ch ≡ true
    → other ≢ tid
    → (s'' : Session) × (resolve_hitl now done true tid resp s' ≡ some (ok s''))
      × (lookup tid s''.hitl_inject
          ≡ some (record ch { queue = ch.queue ++ human_token now resp s ∷ [] }))
      × (lookup other s''.hitl_inject ≡ lookup other s.hitl_inject)
      × (register_hitl tid ch s'' ≡ err (already_registered tid))
      × (resolve_hitl now done true tid resp (unregister_hitl tid s'')
          ≡ some (err (no_hitl_waiting tid)))
unfolding resolve_hitl register_hitl register_tool_hitl unregister_hitl delivered_to human_token
resolve_hitl-delivers tid other ch s s' now resp done h room ne =
    let spec : RegisterSpec tid ch s (ok s') =
      subst (RegisterSpec tid ch s) h (register_hitl-RegisterSpec tid ch s) in
    let (root, t, r, there, asks, fresh, shape, same_id, same_root) = spec in
    let token = human_token now resp s' in
    let ch' : Inbox = record ch { queue = ch.queue ++ token ∷ [] } in
    let registered : lookup tid s'.hitl_inject ≡ some ch =
      ground (arith, lookup-insert tid tid ch s.hitl_inject, eq_refl tid) in
    let waits : lookup tid (insert tid ch' s'.hitl_inject) ≡ some ch' =
      ground (arith, lookup-insert tid tid ch' s'.hitl_inject, eq_refl tid) in
    (
      delivered_to tid token ch s',
      ground (arith, registered, room),
      waits
          ∙ ap (λ i. some (record ch { queue = ch.queue ++ record token { session_id = i } ∷ [] }))
              same_id,
      ground (
        arith,
        lookup-insert tid other ch' s'.hitl_inject,
        lookup-insert tid other ch s.hitl_inject,
        eq_iff tid other,
        ne,
      ),
      rw (register_hitl, same_root ∙ r) (rw there (rw asks (rw (register_tool_hitl, waits) refl))),
      ground (arith, lookup-delete tid tid (insert tid ch' s'.hitl_inject), eq_refl tid),
    )
