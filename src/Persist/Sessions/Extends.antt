-- ===== src/Persist/Sessions/Extends.antt =====
-- The messages of a session are only ever appended to (persist/memory.go).
use liwaisi_assistant.Base.{
  ℕ, ℤ, pos, negsuc, String, ◌≡◌, refl, ◌≢◌, ap, sym, ◌∙◌, inl, inr, true, false, Option, none,
  some, List, [], ◌∷◌, ◌++◌, lookup, insert, delete, has, ok, err, All, leb, if◌then◌else◌, ◌==◌,
  arith, eq_iff, Bool-cases, Option-cases, length, append_nil, is_some, append_assoc, lookup-insert,
  lookup-delete, ==-of_ne,
}
use liwaisi_assistant.Persist.Records.{
  StoreError, SessionState, active, closed, expired, MessageRecord, SessionRecord,
}
use liwaisi_assistant.Persist.Sessions.{
  Sessions, update, create, has_message, with_message, append_message, update_state, touch, close,
  remove, update_title, soft_delete, forked, fork_session,
}
use liwaisi_assistant.Persist.Sessions.Calls.{
  Call, creates, appends, sets_state, touches, closes, removes, titles, soft_deletes, forks, after,
  after_fork, apply, run,
}

-- The store holds the session, with the messages it had and perhaps more after them.
abbrev pub Extends : String → SessionRecord → Sessions → Type 0
Extends id s m =
    (s' : SessionRecord) × (suffix : List MessageRecord) × (lookup id m ≡ some s')
    × (s'.messages ≡ s.messages ++ suffix)

-- The call neither removes the session nor forks another one over it.
abbrev pub Spares : String → Call → Type 0
Spares id (removes other) = other ≢ id
Spares id (forks now new_id source_id index user_id channel) = new_id ≢ id
Spares id _ = Unit

stays : (id : String) (s : SessionRecord) (m : Sessions) → lookup id m ≡ some s → Extends id s m
stays id s m there = (s, [], there, sym (append_nil s.messages))

insert-Extends :
    (id other : String) (s t t' : SessionRecord) (m : Sessions) (suffix : List MessageRecord)
    → lookup id m ≡ some s
    → lookup other m ≡ some t
    → t'.messages ≡ t.messages ++ suffix
    → Extends id s (insert other t' m)
insert-Extends id other s t t' m suffix there here longer = elim (Bool-cases (other == id)) [
  | inl same ↦
      let e : other ≡ id = (eq_iff other id).0 same in
      let f : some t ≡ some s = sym here ∙ (ap (λ k. lookup k m) e ∙ there) in
      let ts : t ≡ s = cc in
      (
        t',
        suffix,
        lookup-insert other id t' m ∙ rw same refl,
        longer ∙ ap (λ u. u.messages ++ suffix) ts,
      )
  | inr different ↦
      stays id s (insert other t' m) (lookup-insert other id t' m ∙ rw different there)
]

update-Extends :
    (ctx : Option StoreError) (id other : String) (f : SessionRecord → SessionRecord)
    (s : SessionRecord) (m : Sessions)
    → ((t : SessionRecord) → (f t).messages ≡ t.messages)
    → lookup id m ≡ some s
    → Extends id s (after m (update ctx other f m))
unfolding update
update-Extends (some e) id other f s m keeps there = stays id s m there
update-Extends none id other f s m keeps there = elim (Option-cases (lookup other m)) [
  | inl absent ↦ rw absent (stays id s m there)
  | inr (t, here) ↦
      rw here
        (insert-Extends id other s t (f t) m [] there here (keeps t ∙ sym (append_nil t.messages)))
]

create-Extends :
    (ctx : Option StoreError) (id : String) (new s : SessionRecord) (m : Sessions)
    → lookup id m ≡ some s
    → Extends id s (after m (create ctx new m))
unfolding create
create-Extends (some e) id new s m there = stays id s m there
create-Extends none id new s m there = elim (Bool-cases (has new.id m)) [
  | inl taken ↦ rw taken (stays id s m there)
  | inr free ↦
      let elsewhere : new.id ≢ id =
        λ same. free_not_held (sym free ∙ (ap (λ k. has k m) same ∙ ap is_some there)) in
      rw free (
        stays id s (insert new.id new m)
          (lookup-insert new.id id new m ∙ rw (==-of_ne new.id id elsewhere) there))
]
  where
    free_not_held : false ≡ true → ⊥
    free_not_held e = cc

added : MessageRecord → SessionRecord → List MessageRecord
added msg t = if has_message msg.id t.messages then [] else msg ∷ []

with_message-longer :
    (msg : MessageRecord) (t : SessionRecord)
    → (with_message msg t).messages ≡ t.messages ++ added msg t
unfolding with_message added
with_message-longer msg t = ground (arith, append_nil t.messages)

append-Extends :
    (ctx : Option StoreError) (id other : String) (msg : MessageRecord) (s : SessionRecord)
    (m : Sessions)
    → lookup id m ≡ some s
    → Extends id s (after m (append_message ctx other msg m))
unfolding append_message
append-Extends (some e) id other msg s m there = stays id s m there
append-Extends none id other msg s m there = elim (Option-cases (lookup other m)) [
  | inl absent ↦ rw absent (stays id s m there)
  | inr (t, here) ↦ rw here (go t here t.state)
]
  where
    go :
        (t : SessionRecord)
        → lookup other m ≡ some t
        → (state : SessionState)
        → Extends id s (
            after m (elim state [
              | active ↦ ok (insert other (with_message msg t) m)
              | closed ↦ err StoreError.session_closed
              | expired ↦ err StoreError.session_closed
            ]))
    go t here active =
        insert-Extends id other s t (with_message msg t) m (added msg t) there here
          (with_message-longer msg t)
    go t here closed = stays id s m there
    go t here expired = stays id s m there

remove-Extends :
    (ctx : Option StoreError) (id other : String) (s : SessionRecord) (m : Sessions)
    → other ≢ id
    → lookup id m ≡ some s
    → Extends id s (after m (remove ctx other m))
unfolding remove
remove-Extends (some e) id other s m spared there = stays id s m there
remove-Extends none id other s m spared there = elim (Bool-cases (has other m)) [
  | inr absent ↦ rw absent (stays id s m there)
  | inl known ↦
      rw known (
        stays id s (delete other m)
          (lookup-delete other id m ∙ rw (==-of_ne other id spared) there))
]

fork-Extends :
    (now : ℕ) (ctx : Option StoreError) (id new_id source_id : String) (index : ℤ)
    (user_id channel : String) (s : SessionRecord) (m : Sessions)
    → new_id ≢ id
    → lookup id m ≡ some s
    → Extends id s (after_fork m (fork_session now ctx new_id source_id index user_id channel m))
unfolding fork_session
fork-Extends now (some e) id new_id source_id index user_id channel s m spared there =
    stays id s m there
fork-Extends now none id new_id source_id index user_id channel s m spared there =
    elim (Option-cases (lookup source_id m)) [
      | inl absent ↦ rw absent (stays id s m there)
      | inr (src, found_source) ↦ rw found_source (go src index)
    ]
  where
    go :
        (src : SessionRecord) (i : ℤ)
        → Extends id s (
            after_fork m (elim i [
              | negsuc n ↦ err StoreError.invalid_input
              | pos k ↦
                  let fork = forked now new_id source_id k user_id channel src in
                  if leb (length src.messages) k
                  then err StoreError.invalid_input
                  else ok (fork, insert new_id fork m)
            ]))
    go src (negsuc n) = stays id s m there
    go src (pos k) = elim (Bool-cases (leb (length src.messages) k)) [
      | inl outside ↦ rw outside (stays id s m there)
      | inr inside ↦
          let fork = forked now new_id source_id k user_id channel src in
          rw inside (
            stays id s (insert new_id fork m)
              (lookup-insert new_id id fork m ∙ rw (==-of_ne new_id id spared) there))
    ]

apply-Extends :
    (ctx : Option StoreError) (c : Call) (id : String) (s : SessionRecord) (m : Sessions)
    → Spares id c
    → lookup id m ≡ some s
    → Extends id s (apply ctx c m)
unfolding apply update_state touch close update_title soft_delete
apply-Extends ctx (creates new) id s m spared there = create-Extends ctx id new s m there
apply-Extends ctx (appends other msg) id s m spared there =
    append-Extends ctx id other msg s m there
apply-Extends ctx (sets_state other state) id s m spared there =
    update-Extends ctx id other (λ t. record t { state = state }) s m (λ t. refl) there
apply-Extends ctx (touches now other) id s m spared there =
    update-Extends ctx id other (λ t. record t { last_activity_at = now }) s m (λ t. refl) there
apply-Extends ctx (closes now other) id s m spared there =
    update-Extends ctx id other (λ t. record t { state = closed; closed_at = some now }) s m
      (λ t. refl) there
apply-Extends ctx (removes other) id s m spared there = remove-Extends ctx id other s m spared there
apply-Extends ctx (titles other title) id s m spared there =
    update-Extends ctx id other (λ t. record t { title = title }) s m (λ t. refl) there
apply-Extends ctx (soft_deletes now other) id s m spared there =
    update-Extends ctx id other (λ t. record t { deleted_at = some now }) s m (λ t. refl) there
apply-Extends ctx (forks now new_id source_id index user_id channel) id s m spared there =
    fork-Extends now ctx id new_id source_id index user_id channel s m spared there

-- If the store holds a session, and none of some calls removes it or forks a session over it, then
-- after these calls, each of which may find its context cancelled, the store holds the session with
-- the messages it had, and perhaps more behind them.
pub run-Extends :
    (cs : List (Option StoreError × Call)) (id : String) (s : SessionRecord) (m : Sessions)
    → All (λ c. Spares id c.1) cs
    → lookup id m ≡ some s
    → Extends id s (run cs m)
unfolding run
run-Extends [] id s m spared there = stays id s m there
run-Extends (c ∷ cs) id s m spared there =
    let (s', new, there', longer) = apply-Extends c.0 c.1 id s m spared.0 there in
    let (s'', newer, there'', longer') = run-Extends cs id s' (apply c.0 c.1 m) spared.1 there' in
    (
      s'',
      new ++ newer,
      there'',
      longer' ∙ (ap (λ ms. ms ++ newer) longer ∙ append_assoc s.messages new newer),
    )
