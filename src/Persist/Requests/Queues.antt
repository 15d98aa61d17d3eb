-- ===== src/Persist/Requests/Queues.antt =====
-- The requests as one first-in first-out queue for each session (persist/memory.go): the calls, what
-- the store answers to each, and what the queues answer.
use liwaisi_assistant.Base.{
  ℕ, ◌+◌, String, Bool, not, Option, none, some, List, [], ◌∷◌, ◌++◌, Dict, lookup, insert, Result,
  ok, err, if◌then◌else◌, keep, ◌==◌,
}
use liwaisi_assistant.Base.Sort.{number_of}
use liwaisi_assistant.Persist.Records.{StoreError, request_not_found, PendingRequest}
use liwaisi_assistant.Persist.Requests.{
  Requests, enqueue, dequeue, list_pending, before, cutoff, expire,
}

pub data Call : Type 0 where
  enqueue_call : PendingRequest → Call
  dequeue_call : (session_id transition_id : String) → Call
  list_call : (session_id : String) → Call
  expire_call : (now older_than : ℕ) → Call

pub data Answer : Type 0 where
  done : Answer
  taken : PendingRequest → Answer
  listed : Requests → Answer
  counted : ℕ → Answer
  refused : StoreError → Answer

-- The abstract store: a queue for each session.
abbrev pub Queues : Type 0
Queues = Dict Requests

abbrev pub queue_at : String → Queues → Requests
queue_at s d = elim (lookup s d) [ none ↦ [] | some q ↦ q ]

-- The requests in all queues that pass a test.
abbrev pub waiting : (PendingRequest → Bool) → Queues → ℕ
waiting p [] = 0
waiting p (e ∷ es) = number_of p e.1 + waiting p es

abbrev pub stale : (now older_than : ℕ) → PendingRequest → Bool
stale now older_than req = before req.expires_at (cutoff now older_than)

abbrev pub keep_each : (PendingRequest → Bool) → Queues → Queues
keep_each p [] = []
keep_each p (e ∷ es) = (e.0, keep p e.1) ∷ keep_each p es

abbrev pub waits_for : (transition_id : String) → PendingRequest → Bool
waits_for t req = req.transition_id == t

unfoldable pub remove_first : (PendingRequest → Bool) → Requests → Requests
remove_first p [] = []
remove_first p (req ∷ rest) = let later = remove_first p rest in if p req then rest else req ∷ later

abbrev pub take_first : (s t : String) → (found : Requests) → Queues → Queues × Answer
take_first s t [] d = (d, refused request_not_found)
take_first s t (req ∷ _) d = (insert s (remove_first (waits_for t) (queue_at s d)) d, taken req)

-- What each call means for the queues: a request goes to the end of its session's queue, the first one
-- of the queue for the transition is taken, the queue is listed, the stale requests of all are removed
-- and counted.
unfoldable pub queues_do : Call → Queues → Queues × Answer
unfolding remove_first
queues_do (enqueue_call req) d =
    (insert req.session_id (queue_at req.session_id d ++ req ∷ []) d, done)
queues_do (dequeue_call s t) d = take_first s t (keep (waits_for t) (queue_at s d)) d
queues_do (list_call s) d = (d, listed (queue_at s d))
queues_do (expire_call now older_than) d = (
  keep_each (λ req. not (stale now older_than req)) d,
  counted (waiting (stale now older_than) d),
)

-- A call under a context that is over does nothing but answer with the context's error.
unfoldable pub queues_call : Option StoreError → Call → Queues → Queues × Answer
unfolding queues_do
queues_call none c d = queues_do c d
queues_call (some e) c d = (d, refused e)

-- The store after a call, with what the call answered.
abbrev pub after {ℓ} :
    {A : Type ℓ} → Requests → (A → Requests × Answer) → Result StoreError A → Requests × Answer
after rs f (ok a) = f a
after rs f (err e) = (rs, refused e)

unfoldable pub store_call : Option StoreError → Call → Requests → Requests × Answer
unfolding enqueue dequeue list_pending expire
store_call ctx (enqueue_call req) rs = after rs (λ rs'. (rs', done)) (enqueue ctx req rs)
store_call ctx (dequeue_call s t) rs =
    after rs (λ found. (found.1, taken found.0)) (dequeue ctx s t rs)
store_call ctx (list_call s) rs = after rs (λ found. (rs, listed found)) (list_pending ctx s rs)
store_call ctx (expire_call now older_than) rs =
    after rs (λ split. (split.1, counted split.0)) (expire now ctx older_than rs)

-- Each call comes with the error of its context, if the context is over.
unfoldable pub store_run : List (Option StoreError × Call) → Requests → List Answer
unfolding store_call
store_run [] rs = []
store_run (c ∷ cs) rs = (store_call c.0 c.1 rs).1 ∷ store_run cs (store_call c.0 c.1 rs).0

unfoldable pub queues_run : List (Option StoreError × Call) → Queues → List Answer
unfolding queues_call
queues_run [] d = []
queues_run (c ∷ cs) d = (queues_call c.0 c.1 d).1 ∷ queues_run cs (queues_call c.0 c.1 d).0
