-- ===== src/Persist/Events/Pages.antt =====
-- The pages of a query of events (persist/memory.go).
use liwaisi_assistant.Base.{
  ℕ, ℤ, pos, negsuc, zero, suc, ◌+◌, ◌<◌, String, ◌≡◌, refl, Bool, Option, none, some, List, [],
  ◌∷◌, ◌++◌, Result, ok, err, length, keep, ◌==◌, arith, ap, ◌∙◌,
}
use liwaisi_assistant.Base.Decimal.{int_limit}
use liwaisi_assistant.Persist.Records.{StoreError, Page, EventRecord, EventQueryOpts}
use liwaisi_assistant.Persist.Paging.{default_page_limit, limit_or, offset_of, paginate}
use liwaisi_assistant.Persist.Walk.{walk, walk-cut}
use liwaisi_assistant.Persist.Events.{Events, all_present, append, query_by_session}

-- The page at a cursor, where the call answers with one.
abbrev pub page_of : Result StoreError (Option (Page EventRecord)) → Option (Page EventRecord)
page_of (ok page) = page
page_of (err e) = none

abbrev pub session_page : String → EventQueryOpts → Events → String → Option (Page EventRecord)
session_page sid opts events c =
    page_of (query_by_session none sid (some (record opts { cursor = c })) events)

limit_or-pos : (default : ℕ) (z : ℤ) → 0 < default → 0 < limit_or default z
unfolding limit_or
limit_or-pos default (pos zero) h = h
limit_or-pos default (pos (suc n)) h = omega arith
limit_or-pos default (negsuc n) h = h

keep-append : (p : EventRecord → Bool) (xs ys : Events) → keep p (xs ++ ys) ≡ keep p xs ++ keep p ys
keep-append p [] ys = refl
keep-append p (x ∷ xs) ys = ground (arith, keep-append p xs ys)

append_ok :
    (batch : List (Option EventRecord)) (es events events' : Events)
    → all_present batch ≡ some es
    → append none batch events ≡ ok events'
    → events' ≡ events ++ es
unfolding append
append_ok batch es events events' present appended = ground arith

-- After a batch without nil is appended, a client that follows the cursors from the first page, with
-- any limit, sees the events of the session that were there and then those of the batch, each once
-- and in order, with one request more than there are events at most, if the number of events and the
-- limit fit in 63 bits.
pub query_by_session-walk :
    (sid : String) (opts : EventQueryOpts) (batch : List (Option EventRecord))
    (es events events' : Events)
    → all_present batch ≡ some es
    → append none batch events ≡ ok events'
    → length (keep (λ e. e.session_id == sid) events') + limit_or default_page_limit opts.limit
      < int_limit
    → walk
        (suc (length (keep (λ e. e.session_id == sid) events')))
        (session_page sid opts events')
        ""
      ≡ some (keep (λ e. e.session_id == sid) events ++ keep (λ e. e.session_id == sid) es)
unfolding query_by_session paginate
query_by_session-walk sid opts batch es events events' present appended fits =
    let mine = λ (e : EventRecord). e.session_id == sid in
    let xs = keep (λ e. e.session_id == sid) events' in
    let limit = limit_or default_page_limit opts.limit in
    let all = append_ok batch es events events' present appended in
    walk-cut limit (suc (length xs)) 0 "" xs
      (limit_or-pos default_page_limit opts.limit (omega arith)) fits (unfold offset_of in refl)
      (omega arith) (omega arith)
    ∙ ap some (ap (keep mine) all ∙ keep-append mine events es)
