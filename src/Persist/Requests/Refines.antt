-- ===== src/Persist/Requests/Refines.antt =====
-- The store of requests beside one queue for each session (persist/memory.go).
use liwaisi_assistant.Base.{
  ℕ, ◌+◌, String, ◌≡◌, refl, ap, sym, ◌∙◌, inl, inr, Bool, ◌&&◌, not, Option, none, some, List, [],
  ◌∷◌, ◌++◌, lookup, insert, lookup-insert, if◌then◌else◌, keep, keep-append, length-append, length,
  append_nil, ◌==◌, arith, eq_iff, Bool-cases, Option-cases,
}
use liwaisi_assistant.Base.Sort.{number_of}
use liwaisi_assistant.Persist.Records.{StoreError, PendingRequest}
use liwaisi_assistant.Persist.Requests.{
  Requests, enqueue, is_for, pull, dequeue, list_pending, cutoff, split_expired, expire,
}
use liwaisi_assistant.Persist.Requests.Pulls.{in_session, Pulled, pull-none, pull-some}
use liwaisi_assistant.Persist.Requests.Queues.{
  Call, enqueue_call, dequeue_call, list_call, expire_call, Answer, listed, counted, Queues,
  queue_at, waiting, stale, keep_each, waits_for, remove_first, queues_do, queues_call, store_call,
  store_run, queues_run,
}

-- The queues hold what the store holds: each session's requests in order, and, by any test, as many.
abbrev Holds : Requests → Queues → Type 0
Holds rs d =
    ((s : String) → queue_at s d ≡ keep (in_session s) rs)
    × ((p : PendingRequest → Bool) → waiting p d ≡ number_of p rs)

number_of-snoc :
    (p : PendingRequest → Bool) (rs : Requests) (req : PendingRequest)
    → number_of p (rs ++ req ∷ []) ≡ number_of p rs + number_of p (req ∷ [])
number_of-snoc p rs req =
    ground (arith, keep-append p rs (req ∷ []), length-append (keep p rs) (keep p (req ∷ [])))

waiting-insert :
    (p : PendingRequest → Bool) (s : String) (q : Requests) (d : Queues)
    → waiting p (insert s q d) + number_of p (queue_at s d) ≡ waiting p d + number_of p q
unfolding insert lookup
waiting-insert p s q [] = omega arith
waiting-insert p s q (e ∷ es) = ground (arith, waiting-insert p s q es)

queue_at-insert :
    (s other : String) (q : Requests) (d : Queues)
    → queue_at other (insert s q d) ≡ (if s == other then q else queue_at other d)
queue_at-insert s other q d = ground (arith, lookup-insert s other q d)

queue_at-keep_each :
    (p : PendingRequest → Bool) (s : String) (d : Queues)
    → queue_at s (keep_each p d) ≡ keep p (queue_at s d)
unfolding lookup
queue_at-keep_each p s [] = refl
queue_at-keep_each p s (e ∷ es) = ground (arith, queue_at-keep_each p s es)

keep-keep :
    (p q : PendingRequest → Bool) (rs : Requests)
    → keep p (keep q rs) ≡ keep (λ req. q req && p req) rs
keep-keep p q [] = refl
keep-keep p q (r ∷ rs) = ground (arith, keep-keep p q rs)

waiting-keep_each :
    (p q : PendingRequest → Bool) (d : Queues)
    → waiting p (keep_each q d) ≡ waiting (λ req. q req && p req) d
waiting-keep_each p q [] = refl
waiting-keep_each p q (e ∷ es) = ground (arith, keep-keep p q e.1, waiting-keep_each p q es)

split_expired_lem :
    (now older_than : ℕ) (rs : Requests)
    → ((split_expired (cutoff now older_than) rs).0 ≡ number_of (stale now older_than) rs)
      × ((split_expired (cutoff now older_than) rs).1
          ≡ keep (λ req. not (stale now older_than req)) rs)
unfolding split_expired
split_expired_lem now older_than [] = (refl, refl)
split_expired_lem now older_than (r ∷ rs) = ground (arith, split_expired_lem now older_than rs)

keep-swap : (p q : PendingRequest → Bool) (rs : Requests) → keep p (keep q rs) ≡ keep q (keep p rs)
keep-swap p q [] = refl
keep-swap p q (r ∷ rs) = ground (arith, keep-swap p q rs)

Holds-enqueue :
    (req : PendingRequest) (rs : Requests) (d : Queues)
    → Holds rs d
    → Holds (rs ++ req ∷ []) (insert req.session_id (queue_at req.session_id d ++ req ∷ []) d)
Holds-enqueue req rs d (same, counts) =
    let s = req.session_id in
    let q = queue_at s d ++ req ∷ [] in
    (
      (λ other. ground (
        arith,
        queue_at-insert s other q d,
        same s,
        same other,
        keep-append (in_session other) rs (req ∷ []),
        append_nil (keep (in_session other) rs),
        eq_iff s other,
      )),
      (λ p. omega (
        arith,
        waiting-insert p s q d,
        counts p,
        number_of-snoc p (queue_at s d) req,
        number_of-snoc p rs req,
      )),
    )

Holds-dequeue :
    (s t : String) (rs : Requests) (req : PendingRequest) (rest : Requests) (d : Queues)
    → Pulled s t rs req rest
    → Holds rs d
    → Holds rest (insert s (remove_first (waits_for t) (queue_at s d)) d)
Holds-dequeue s t rs req rest d (first, removed, others, counts', mine) (same, counts) =
    let q = remove_first (waits_for t) (queue_at s d) in
    let left : q ≡ keep (in_session s) rest = ap (remove_first (waits_for t)) (same s) ∙ removed in
    (
      (λ other. elim (Bool-cases (s == other)) [
        | inl mine ↦ ground (arith, queue_at-insert s other q d, left, eq_iff s other)
        | inr apart ↦ ground (arith, queue_at-insert s other q d, others other apart, same other)
      ]),
      (λ p.
          let both : PendingRequest → Bool = λ r. in_session s r && p r in
          let taken_one : number_of both (req ∷ []) ≡ number_of p (req ∷ []) = rw (mine) refl in
          omega (
            arith,
            waiting-insert p s q d,
            ap (number_of p) (same s),
            ap (number_of p) left,
            ap length (keep-keep p (in_session s) rs),
            ap length (keep-keep p (in_session s) rest),
            counts' both,
            counts' p,
            counts p,
            taken_one,
          )),
    )

Holds-expire :
    (now older_than : ℕ) (rs : Requests) (d : Queues)
    → Holds rs d
    → Holds
        (keep (λ req. not (stale now older_than req)) rs)
        (keep_each (λ req. not (stale now older_than req)) d)
Holds-expire now older_than rs d (same, counts) =
    let fresh : PendingRequest → Bool = λ req. not (stale now older_than req) in
    (
      (λ s.
          queue_at-keep_each fresh s d
          ∙ (ap (keep fresh) (same s) ∙ keep-swap fresh (in_session s) rs)),
      (λ p.
          waiting-keep_each p fresh d
          ∙ (counts (λ req. fresh req && p req) ∙ sym (ap length (keep-keep p fresh rs)))),
    )

-- One call answers alike, and the queues hold what the store holds after it too.
abbrev Alike : Requests × Answer → Queues × Answer → Type 0
Alike a b = (a.1 ≡ b.1) × Holds a.0 b.0

store_call-Alike :
    (ctx : Option StoreError) (c : Call) (rs : Requests) (d : Queues)
    → Holds rs d
    → Alike (store_call ctx c rs) (queues_call ctx c d)
unfolding store_call queues_call queues_do enqueue list_pending expire dequeue
store_call-Alike (some e) (enqueue_call req) rs d h = (refl, h)
store_call-Alike (some e) (dequeue_call s t) rs d h = (refl, h)
store_call-Alike (some e) (list_call s) rs d h = (refl, h)
store_call-Alike (some e) (expire_call now older_than) rs d h = (refl, h)
store_call-Alike none (enqueue_call req) rs d h = (refl, Holds-enqueue req rs d h)
store_call-Alike none (list_call s) rs d h = (ap listed (sym (h.0 s)), h)
store_call-Alike none (expire_call now older_than) rs d h =
    let (removed, left) = split_expired_lem now older_than rs in
    (
      ap counted (removed ∙ sym (h.1 (stale now older_than))),
      rw left (Holds-expire now older_than rs d h),
    )
store_call-Alike none (dequeue_call s t) rs d h = elim (Option-cases (pull (is_for s t) rs)) [
  | inl absent ↦
      let empty : keep (waits_for t) (queue_at s d) ≡ [] =
        ap (keep (waits_for t)) (h.0 s) ∙ pull-none s t rs absent in
      rw (absent, dequeue) (rw (empty, queues_do) (refl, h))
  | inr ((req, rest), there) ↦
      let pulled = pull-some s t rs req rest there in
      let first : keep (waits_for t) (queue_at s d)
          ≡ req ∷ keep (waits_for t) (keep (in_session s) rest) =
        ap (keep (waits_for t)) (h.0 s) ∙ pulled.0 in
      rw (there, dequeue) (rw (first, queues_do) (refl, Holds-dequeue s t rs req rest d pulled h))
]

runs-agree :
    (cs : List (Option StoreError × Call)) (rs : Requests) (d : Queues)
    → Holds rs d
    → store_run cs rs ≡ queues_run cs d
unfolding store_run queues_run
runs-agree [] rs d h = refl
runs-agree (c ∷ cs) rs d h =
    let alike = store_call-Alike c.0 c.1 rs d h in
    ground
      (arith, alike.0, runs-agree cs (store_call c.0 c.1 rs).0 (queues_call c.0 c.1 d).0 alike.1)

-- Whatever calls of the four kinds are made on an empty store, each under a context that is alive or
-- over, it answers each as one queue for each session would: with the oldest waiting request of the
-- session for the transition, with the session's requests in their order, with the number of requests
-- removed as stale, or with the same error.
pub store_run-refines : (cs : List (Option StoreError × Call)) → store_run cs [] ≡ queues_run cs []
unfolding lookup
store_run-refines cs = runs-agree cs [] [] (λ s. refl, λ p. refl)
