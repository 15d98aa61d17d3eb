-- ===== src/Persist/Events.antt =====
-- MemoryEventRepository of back/go-assistant/cpn/persist/memory.go: events in the order of their
-- appends. A batch is a list of pointers, one of which may be nil.
pub mod Pages
use liwaisi_assistant.Base.{
  ℕ, suc, String, Bool, true, false, ◌&&◌, ◌||◌, not, Option, none, some, List, [], ◌∷◌, ◌++◌,
  Result, ok, err, ltb, nat_eq, if◌then◌else◌, keep, any, length, ◌==◌,
}
use liwaisi_assistant.Persist.Records.{
  StoreError, event_append_failed, alive, Page, EventRecord, EventQueryOpts,
}
use liwaisi_assistant.Persist.Paging.{paginate}

abbrev pub Events : Type 0
Events = List EventRecord

-- The events of a batch, or nothing if one of them is nil.
unfoldable pub all_present : List (Option EventRecord) → Option Events
all_present [] = some []
all_present (none ∷ es) = none
all_present (some e ∷ es) = elim (all_present es) [ none ↦ none | some rest ↦ some (e ∷ rest) ]

unfoldable pub append :
    Option StoreError → List (Option EventRecord) → Events → Result StoreError Events
append ctx batch events =
    alive ctx
      (elim (all_present batch) [ none ↦ err event_append_failed | some es ↦ ok (events ++ es) ])

unfoldable pub query_by_session :
    Option StoreError
    → String
    → Option EventQueryOpts
    → Events
    → Result StoreError (Option (Page EventRecord))
query_by_session ctx session_id opts events =
    alive ctx (ok (paginate (keep (λ e. e.session_id == session_id) events) opts))

unfoldable pub query_by_cpn :
    Option StoreError
    → String
    → Option EventQueryOpts
    → Events
    → Result StoreError (Option (Page EventRecord))
query_by_cpn ctx cpn_id opts events =
    alive ctx (ok (paginate (keep (λ e. e.cpn_id == cpn_id) events) opts))

unfoldable pub within : (type : String) (from to : ℕ) → EventRecord → Bool
within type from to e = e.type == type && not (ltb e.timestamp from) && not (ltb to e.timestamp)

unfoldable pub query_by_type :
    Option StoreError
    → String
    → (from to : ℕ) → Option EventQueryOpts
    → Events
    → Result StoreError (Option (Page EventRecord))
unfolding within
query_by_type ctx type from to opts events =
    alive ctx (ok (paginate (keep (within type from to) events) opts))

unfoldable pub match_event_opts : EventRecord → EventQueryOpts → Bool
match_event_opts e opts =
    if not (opts.session_id == "") && not (e.session_id == opts.session_id)
    then false
    else if not (opts.cpn_id == "") && not (e.cpn_id == opts.cpn_id)
    then false
    else if not (opts.event_type == "") && not (e.type == opts.event_type)
    then false
    else if not (nat_eq opts.from 0) && ltb e.timestamp opts.from
    then false
    else if not (nat_eq opts.to 0) && ltb opts.to e.timestamp
    then false
    else true

count_matching : EventQueryOpts → Events → ℕ
unfolding match_event_opts
count_matching opts [] = 0
count_matching opts (e ∷ es) =
    let rest = count_matching opts es in if match_event_opts e opts then suc rest else rest

unfoldable pub count : Option StoreError → Option EventQueryOpts → Events → Result StoreError ℕ
unfolding count_matching
count ctx none events = alive ctx (ok (length events))
count ctx (some opts) events = alive ctx (ok (count_matching opts events))
