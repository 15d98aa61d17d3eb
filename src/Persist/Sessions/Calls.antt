-- ===== src/Persist/Sessions/Calls.antt =====
-- The calls that change the store of sessions, as data (persist/memory.go).
use liwaisi_assistant.Base.{ℕ, ℤ, String, Option, List, [], ◌∷◌, Result, ok, err}
use liwaisi_assistant.Persist.Records.{StoreError, SessionState, MessageRecord, SessionRecord}
use liwaisi_assistant.Persist.Sessions.{
  Sessions, create, append_message, update_state, touch, close, remove, update_title, soft_delete,
  fork_session,
}

pub data Call : Type 0 where
  creates : SessionRecord → Call
  appends : (id : String) → MessageRecord → Call
  sets_state : (id : String) → SessionState → Call
  touches : (now : ℕ) (id : String) → Call
  closes : (now : ℕ) (id : String) → Call
  removes : (id : String) → Call
  titles : (id title : String) → Call
  soft_deletes : (now : ℕ) (id : String) → Call
  forks : (now : ℕ) (new_id source_id : String) → ℤ → (user_id channel : String) → Call

-- The store after a call: as it was, if the call fails.
abbrev pub after : Sessions → Result StoreError Sessions → Sessions
after m (ok m') = m'
after m (err e) = m

abbrev pub after_fork : Sessions → Result StoreError (SessionRecord × Sessions) → Sessions
after_fork m (ok r) = r.1
after_fork m (err e) = m

-- Each call may find its context cancelled.
unfoldable pub apply : Option StoreError → Call → Sessions → Sessions
apply ctx (creates s) m = after m (create ctx s m)
apply ctx (appends id msg) m = after m (append_message ctx id msg m)
apply ctx (sets_state id state) m = after m (update_state ctx id state m)
apply ctx (touches now id) m = after m (touch now ctx id m)
apply ctx (closes now id) m = after m (close now ctx id m)
apply ctx (removes id) m = after m (remove ctx id m)
apply ctx (titles id title) m = after m (update_title ctx id title m)
apply ctx (soft_deletes now id) m = after m (soft_delete now ctx id m)
apply ctx (forks now new_id source_id index user_id channel) m =
    after_fork m (fork_session now ctx new_id source_id index user_id channel m)

unfoldable pub run : List (Option StoreError × Call) → Sessions → Sessions
unfolding apply
run [] m = m
run (c ∷ cs) m = run cs (apply c.0 c.1 m)
