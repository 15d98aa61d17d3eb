-- ===== src/Persist/Sessions/Unique.antt =====
-- No session of the store has two messages with one id (persist/memory.go).
use liwaisi_assistant.Base.{
  ℕ, ℤ, pos, negsuc, zero, suc, String, ◌≡◌, refl, inl, inr, false, ◌||◌, Option, none, some, List,
  [], ◌∷◌, ◌++◌, map, lookup, insert, has, ok, err, All, take, leb, if◌then◌else◌, ◌==◌, arith,
  eq_iff, Bool-cases, Option-cases, length,
}
use liwaisi_assistant.Base.Values.{AllValues, insert-AllValues, delete-AllValues, lookup-AllValues}
use liwaisi_assistant.Persist.Records.{
  StoreError, SessionState, active, closed, expired, MessageRecord, SessionRecord,
}
use liwaisi_assistant.Persist.Sessions.{
  Sessions, update, create, has_message, with_message, append_message, update_state, touch, close,
  remove, update_title, soft_delete, moved, copied, forked, fork_session,
}
use liwaisi_assistant.Persist.Sessions.Calls.{
  Call, creates, appends, sets_state, touches, closes, removes, titles, soft_deletes, forks, after,
  after_fork, apply, run,
}

abbrev pub UniqueIds : List MessageRecord → Type 0
UniqueIds [] = Unit
UniqueIds (m ∷ ms) = (has_message m.id ms ≡ false) × UniqueIds ms

abbrev pub IsUnique : SessionRecord → Type 0
IsUnique s = UniqueIds s.messages

has_message-append :
    (id : String) (ms : List MessageRecord) (msg : MessageRecord)
    → has_message id (ms ++ msg ∷ []) ≡ (has_message id ms || msg.id == id)
has_message-append id [] msg = ground arith
has_message-append id (m ∷ ms) msg = ground (arith, has_message-append id ms msg)

append-UniqueIds :
    (ms : List MessageRecord) (msg : MessageRecord)
    → has_message msg.id ms ≡ false
    → UniqueIds ms
    → UniqueIds (ms ++ msg ∷ [])
append-UniqueIds [] msg new unique = (refl, tt)
append-UniqueIds (m ∷ ms) msg new unique = ground (
  arith,
  has_message-append m.id ms msg,
  append-UniqueIds ms msg,
  eq_iff m.id msg.id,
  eq_iff msg.id m.id,
)

has_message-moved :
    (new_id id : String) (n : ℕ) (ms : List MessageRecord)
    → has_message id ms ≡ false
    → has_message id (map (moved new_id) (take n ms)) ≡ false
has_message-moved new_id id zero ms h = refl
has_message-moved new_id id (suc n) [] h = refl
has_message-moved new_id id (suc n) (m ∷ ms) h = ground (arith, has_message-moved new_id id n ms)

moved-UniqueIds :
    (new_id : String) (n : ℕ) (ms : List MessageRecord)
    → UniqueIds ms
    → UniqueIds (map (moved new_id) (take n ms))
moved-UniqueIds new_id zero ms unique = tt
moved-UniqueIds new_id (suc n) [] unique = tt
moved-UniqueIds new_id (suc n) (m ∷ ms) unique =
    (has_message-moved new_id m.id n ms unique.0, moved-UniqueIds new_id n ms unique.1)

with_message-IsUnique :
    (msg : MessageRecord) (s : SessionRecord) → IsUnique s → IsUnique (with_message msg s)
unfolding with_message
with_message-IsUnique msg s unique = elim (Bool-cases (has_message msg.id s.messages)) [
  | inl old ↦ rw old unique
  | inr new ↦ rw new (append-UniqueIds s.messages msg new unique)
]

update-AllUnique :
    (ctx : Option StoreError) (id : String) (f : SessionRecord → SessionRecord) (m : Sessions)
    → ((s : SessionRecord) → IsUnique s → IsUnique (f s))
    → AllValues IsUnique m
    → AllValues IsUnique (after m (update ctx id f m))
unfolding update
update-AllUnique (some e) id f m keeps all = all
update-AllUnique none id f m keeps all = elim (Option-cases (lookup id m)) [
  | inl absent ↦ rw absent all
  | inr (s, there) ↦ rw there (
      insert-AllValues IsUnique id (f s) m (keeps s (lookup-AllValues IsUnique id m s all there))
        all)
]

abbrev pub CallUnique : Call → Type 0
CallUnique (creates s) = IsUnique s
CallUnique _ = Unit

create-AllUnique :
    (ctx : Option StoreError) (s : SessionRecord) (m : Sessions)
    → IsUnique s
    → AllValues IsUnique m
    → AllValues IsUnique (after m (create ctx s m))
unfolding create
create-AllUnique (some e) s m unique all = all
create-AllUnique none s m unique all = elim (Bool-cases (has s.id m)) [
  | inl taken ↦ rw taken all
  | inr free ↦ rw free (insert-AllValues IsUnique s.id s m unique all)
]

append-AllUnique :
    (ctx : Option StoreError) (id : String) (msg : MessageRecord) (m : Sessions)
    → AllValues IsUnique m
    → AllValues IsUnique (after m (append_message ctx id msg m))
unfolding append_message
append-AllUnique (some e) id msg m all = all
append-AllUnique none id msg m all = elim (Option-cases (lookup id m)) [
  | inl absent ↦ rw absent all
  | inr (s, there) ↦ rw there (go s (lookup-AllValues IsUnique id m s all there) s.state)
]
  where
    go :
        (s : SessionRecord)
        → IsUnique s
        → (state : SessionState)
        → AllValues IsUnique (
            after m (elim state [
              | active ↦ ok (insert id (with_message msg s) m)
              | closed ↦ err StoreError.session_closed
              | expired ↦ err StoreError.session_closed
            ]))
    go s unique active =
        insert-AllValues IsUnique id (with_message msg s) m (with_message-IsUnique msg s unique) all
    go s unique closed = all
    go s unique expired = all

remove-AllUnique :
    (ctx : Option StoreError) (id : String) (m : Sessions)
    → AllValues IsUnique m
    → AllValues IsUnique (after m (remove ctx id m))
unfolding remove
remove-AllUnique (some e) id m all = all
remove-AllUnique none id m all = elim (Bool-cases (has id m)) [
  | inl there ↦ rw there (delete-AllValues IsUnique id m all)
  | inr absent ↦ rw absent all
]

fork-AllUnique :
    (now : ℕ) (ctx : Option StoreError) (new_id source_id : String) (index : ℤ)
    (user_id channel : String) (m : Sessions)
    → AllValues IsUnique m
    → AllValues IsUnique
        (after_fork m (fork_session now ctx new_id source_id index user_id channel m))
unfolding fork_session forked copied
fork-AllUnique now (some e) new_id source_id index user_id channel m all = all
fork-AllUnique now none new_id source_id index user_id channel m all =
    elim (Option-cases (lookup source_id m)) [
      | inl absent ↦ rw absent all
      | inr (src, there) ↦
          rw there (go src (lookup-AllValues IsUnique source_id m src all there) index)
    ]
  where
    go :
        (src : SessionRecord)
        → IsUnique src
        → (i : ℤ)
        → AllValues IsUnique (
            after_fork m (elim i [
              | negsuc n ↦ err StoreError.invalid_input
              | pos k ↦
                  let fork = forked now new_id source_id k user_id channel src in
                  if leb (length src.messages) k
                  then err StoreError.invalid_input
                  else ok (fork, insert new_id fork m)
            ]))
    go src unique (negsuc n) = all
    go src unique (pos k) = elim (Bool-cases (leb (length src.messages) k)) [
      | inl outside ↦ rw outside all
      | inr inside ↦ rw inside (
          insert-AllValues IsUnique new_id (forked now new_id source_id k user_id channel src) m
            (moved-UniqueIds new_id (suc k) src.messages unique) all)
    ]

apply-AllUnique :
    (ctx : Option StoreError) (c : Call) (m : Sessions)
    → CallUnique c
    → AllValues IsUnique m
    → AllValues IsUnique (apply ctx c m)
unfolding apply
apply-AllUnique ctx (creates s) m unique all = create-AllUnique ctx s m unique all
apply-AllUnique ctx (appends id msg) m unique all = append-AllUnique ctx id msg m all
apply-AllUnique ctx (sets_state id state) m unique all =
    unfold update_state in
    update-AllUnique ctx id (λ s. record s { state = state }) m (λ s h. h) all
apply-AllUnique ctx (touches now id) m unique all =
    unfold touch in
    update-AllUnique ctx id (λ s. record s { last_activity_at = now }) m (λ s h. h) all
apply-AllUnique ctx (closes now id) m unique all =
    unfold close in
    update-AllUnique ctx id (λ s. record s { state = closed; closed_at = some now }) m (λ s h. h)
      all
apply-AllUnique ctx (removes id) m unique all = remove-AllUnique ctx id m all
apply-AllUnique ctx (titles id title) m unique all =
    unfold update_title in
    update-AllUnique ctx id (λ s. record s { title = title }) m (λ s h. h) all
apply-AllUnique ctx (soft_deletes now id) m unique all =
    unfold soft_delete in
    update-AllUnique ctx id (λ s. record s { deleted_at = some now }) m (λ s h. h) all
apply-AllUnique ctx (forks now new_id source_id index user_id channel) m unique all =
    fork-AllUnique now ctx new_id source_id index user_id channel m all

run_from-AllUnique :
    (cs : List (Option StoreError × Call)) (m : Sessions)
    → All (λ c. CallUnique c.1) cs
    → AllValues IsUnique m
    → AllValues IsUnique (run cs m)
unfolding run
run_from-AllUnique [] m created all = all
run_from-AllUnique (c ∷ cs) m created all =
    run_from-AllUnique cs (apply c.0 c.1 m) created.1 (apply-AllUnique c.0 c.1 m created.0 all)

-- If no session is created with two messages of one id, then after any calls on an empty store, each
-- of which may find its context cancelled, no session has two messages with one id.
pub run-AllUnique :
    (cs : List (Option StoreError × Call))
    → All (λ c. CallUnique c.1) cs
    → AllValues IsUnique (run cs [])
run-AllUnique cs created = run_from-AllUnique cs [] created tt
