-- ===== src/Persist/Sessions.antt =====
-- MemorySessionRepository of back/go-assistant/cpn/persist/memory.go. The map of the sessions is
-- walked in the order of the association list. A call that fails leaves the map alone.
pub mod Calls
pub mod Unique
pub mod Extends
use Prim.Native.String.{◌++◌ as ◌^◌}
use mathlib.Core.List.{reverse}
use liwaisi_assistant.Base.{
  ℕ, ℤ, pos, negsuc, zero, suc, String, Bool, true, false, ◌&&◌, ◌||◌, not, Option, none, some,
  List, [], ◌∷◌, ◌++◌, map, Dict, lookup, insert, delete, modify, values, has, Result, ok, err, ltb,
  leb, if◌then◌else◌, is_some, keep, any, length, take, ◌==◌,
}
use liwaisi_assistant.Base.Sort.{sort_by}
use liwaisi_assistant.Persist.Records.{
  StoreError, session_not_found, session_exists, session_closed, invalid_input, alive, Page,
  SessionState, active, closed, expired, MessageRecord, SessionRecord, SessionListItem, ListOpts,
}
use liwaisi_assistant.Persist.Paging.{limit_or}
use liwaisi_assistant.Persist.Preview.{renderable_preview}

abbrev pub Sessions : Type 0
Sessions = Dict SessionRecord

abbrev pub is_active : SessionState → Bool
is_active active = true
is_active _ = false

abbrev pub is_expired : SessionState → Bool
is_expired expired = true
is_expired _ = false

-- `s, ok := r.sessions[id]; if !ok { return ErrSessionNotFound }`.
abbrev pub found {ℓ} :
    {A : Type ℓ} → Option SessionRecord → (SessionRecord → A) → Result StoreError A
found none f = err session_not_found
found (some s) f = ok (f s)

-- A write through the pointer of a session that has to be there.
unfoldable pub update :
    Option StoreError
    → String
    → (SessionRecord → SessionRecord)
    → Sessions
    → Result StoreError Sessions
update ctx id f m = alive ctx (found (lookup id m) (λ s. insert id (f s) m))

unfoldable pub create : Option StoreError → SessionRecord → Sessions → Result StoreError Sessions
create ctx session m =
    alive ctx (if has session.id m then err session_exists else ok (insert session.id session m))

unfoldable pub get : Option StoreError → String → Sessions → Result StoreError SessionRecord
get ctx id m = alive ctx (found (lookup id m) (λ s. s))

unfoldable pub get_by_user_id :
    Option StoreError → String → Sessions → Result StoreError (List SessionRecord)
get_by_user_id ctx user_id m = alive ctx (ok (keep (λ s. s.user_id == user_id) (values m)))

abbrev pub has_message : String → List MessageRecord → Bool
has_message id = any (λ existing. existing.id == id)

-- A message whose id the session has is skipped.
unfoldable pub with_message : MessageRecord → SessionRecord → SessionRecord
with_message msg s =
    if has_message msg.id s.messages then s else record s { messages = s.messages ++ msg ∷ [] }

unfoldable pub append_message :
    Option StoreError → String → MessageRecord → Sessions → Result StoreError Sessions
append_message ctx id msg m = alive ctx (elim (lookup id m) [
  | none ↦ err session_not_found
  | some s ↦ elim s.state [
    | active ↦ ok (insert id (with_message msg s) m)
    | closed ↦ err session_closed
    | expired ↦ err session_closed
  ]
])

unfoldable pub update_state :
    Option StoreError → String → SessionState → Sessions → Result StoreError Sessions
unfolding update
update_state ctx id state = update ctx id (λ s. record s { state = state })

unfoldable pub touch :
    (now : ℕ) → Option StoreError → String → Sessions → Result StoreError Sessions
unfolding update
touch now ctx id = update ctx id (λ s. record s { last_activity_at = now })

unfoldable pub close :
    (now : ℕ) → Option StoreError → String → Sessions → Result StoreError Sessions
unfolding update
close now ctx id = update ctx id (λ s. record s { state = closed; closed_at = some now })

unfoldable pub list_expired :
    Option StoreError → (before : ℕ) → Sessions → Result StoreError (List String)
list_expired ctx before m = alive ctx (
    ok
      (map (λ s. s.id) (keep (λ s. ltb s.last_activity_at before && is_active s.state) (values m))))

unfoldable pub remove : Option StoreError → String → Sessions → Result StoreError Sessions
remove ctx id m = alive ctx (if has id m then ok (delete id m) else err session_not_found)

unfoldable pub update_title :
    Option StoreError → String → String → Sessions → Result StoreError Sessions
unfolding update
update_title ctx id title = update ctx id (λ s. record s { title = title })

unfoldable pub soft_delete :
    (now : ℕ) → Option StoreError → String → Sessions → Result StoreError Sessions
unfolding update
soft_delete now ctx id = update ctx id (λ s. record s { deleted_at = some now })

-- Whether the list of a user's sessions shows a session.
unfoldable pub is_listed : String → SessionRecord → Bool
is_listed user_id s = s.user_id == user_id && not (is_some s.deleted_at) && not (is_expired s.state)

unfoldable pub list_item : (title_of : String → String) → SessionRecord → SessionListItem
list_item title_of s = record {
  id = s.id;
  title = s.title;
  state = s.state;
  last_message_preview = renderable_preview title_of (reverse (map (λ m. m.content) s.messages));
  last_activity_at = s.last_activity_at;
  created_at = s.created_at;
  message_count = length s.messages;
  forked_from_session_id = s.forked_from_session_id;
}

abbrev pub list_limit : Option ListOpts → ℕ
list_limit none = 50
list_limit (some opts) = limit_or 50 opts.limit

abbrev pub newest_first : List SessionListItem → List SessionListItem
newest_first = sort_by (λ a b. ltb b.last_activity_at a.last_activity_at)

unfoldable pub list_by_user_id :
    (title_of : String → String)
    → Option StoreError
    → String
    → Option ListOpts
    → Sessions
    → Result StoreError (Page SessionListItem)
list_by_user_id title_of ctx user_id opts m =
    let items = newest_first (map (list_item title_of) (keep (is_listed user_id) (values m))) in
    alive ctx (
      ok (record {
        items = take (list_limit opts) items;
        next_cursor = "";
        has_more = ltb (list_limit opts) (length items);
      }))

abbrev pub moved : (new_id : String) → MessageRecord → MessageRecord
moved new_id m = record m { session_id = new_id }

-- The messages up to an index, under the id of the new session.
unfoldable pub copied : (new_id : String) → ℕ → List MessageRecord → List MessageRecord
copied new_id index messages = map (moved new_id) (take (suc index) messages)

unfoldable pub forked :
    (now : ℕ) (new_id source_id : String) (index : ℕ) (user_id channel : String)
    → SessionRecord
    → SessionRecord
unfolding copied
forked now new_id source_id index user_id channel src = record {
  id = new_id;
  user_id = user_id;
  channel = channel;
  state = active;
  created_at = now;
  last_activity_at = now;
  closed_at = none;
  metadata = "";
  messages = copied new_id index src.messages;
  title = "Fork of: " ^ src.title;
  deleted_at = none;
  forked_from_session_id = source_id;
  fork_message_count = suc index;
}

unfoldable pub fork_session :
    (now : ℕ)
    → Option StoreError
    → (new_id source_id : String) → ℤ
    → (user_id channel : String) → Sessions
    → Result StoreError (SessionRecord × Sessions)
unfolding forked
fork_session now ctx new_id source_id message_index user_id channel m =
    alive ctx (elim (lookup source_id m) [
      | none ↦ err session_not_found
      | some src ↦ elim message_index [
        | negsuc n ↦ err invalid_input
        | pos index ↦
            let fork = forked now new_id source_id index user_id channel src in
            if leb (length src.messages) index
            then err invalid_input
            else ok (fork, insert new_id fork m)
      ]
    ])
