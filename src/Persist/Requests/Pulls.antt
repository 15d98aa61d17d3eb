-- ===== src/Persist/Requests/Pulls.antt =====
-- What Dequeue takes out of the store of requests, seen from the queues of the sessions
-- (persist/memory.go).
use liwaisi_assistant.Base.{
  ◌+◌, String, ◌≡◌, refl, subst, ◌⊎◌, inl, inr, Bool, true, false, none, some, [], ◌∷◌, keep, ◌==◌,
  arith, eq_iff, Bool-cases, Option-cases,
}
use liwaisi_assistant.Base.Sort.{number_of}
use liwaisi_assistant.Persist.Records.{PendingRequest}
use liwaisi_assistant.Persist.Requests.{Requests, is_for, pull}
use liwaisi_assistant.Persist.Requests.Queues.{waits_for, remove_first}

-- The requests of a session.
abbrev pub in_session : String → PendingRequest → Bool
in_session s req = req.session_id == s

-- What a pull takes and leaves, seen from the queues.
pub pull-none :
    (s t : String) (rs : Requests)
    → pull (is_for s t) rs ≡ none
    → keep (waits_for t) (keep (in_session s) rs) ≡ []
unfolding pull is_for
pull-none s t [] h = refl
pull-none s t (r ∷ rs) h = elim (Option-cases (pull (is_for s t) rs)) [
  | inl absent ↦ ground (arith, pull-none s t rs)
  | inr (k, there) ↦ ground arith
]

abbrev pub Pulled : (s t : String) → Requests → PendingRequest → Requests → Type 0
Pulled s t rs req rest =
    (keep (waits_for t) (keep (in_session s) rs)
      ≡ req ∷ keep (waits_for t) (keep (in_session s) rest))
    × (remove_first (waits_for t) (keep (in_session s) rs) ≡ keep (in_session s) rest)
    × ((other : String)
        → (s == other) ≡ false
        → keep (in_session other) rs ≡ keep (in_session other) rest)
    × ((p : PendingRequest → Bool) → number_of p rs ≡ number_of p rest + number_of p (req ∷ []))
    × (in_session s req ≡ true)

-- The first request is the one pulled, or the pull goes on behind it.
pull-cases :
    (p : PendingRequest → Bool) (r : PendingRequest) (rs : Requests) (req : PendingRequest)
    (rest : Requests)
    → pull p (r ∷ rs) ≡ some (req, rest)
    → ((p r ≡ true) × (r ≡ req) × (rs ≡ rest))
      ⊎ ((p r ≡ false)
          × ((later : Requests) × (pull p rs ≡ some (req, later)) × (r ∷ later ≡ rest)))
unfolding pull
pull-cases p r rs req rest h = elim (Bool-cases (p r)) [
  | inl mine ↦ inl (ground arith)
  | inr other ↦ elim (Option-cases (pull p rs)) [
    | inl absent ↦ absurd (ground arith)
    | inr (k, there) ↦ inr (other, (k.1, ground arith, ground arith))
  ]
]

Pulled-here :
    (s t : String) (r : PendingRequest) (rs : Requests)
    → is_for s t r ≡ true
    → Pulled s t (r ∷ rs) r rs
unfolding is_for remove_first
Pulled-here s t r rs mine =
    let of_session : in_session s r ≡ true = ground arith in
    let of_transition : waits_for t r ≡ true = ground arith in
    (
      rw of_session (rw of_transition refl),
      rw of_session (rw (of_transition, remove_first) refl),
      (λ other apart.
          ground (arith, eq_iff r.session_id s, eq_iff r.session_id other, eq_iff s other)),
      (λ p. ground arith),
      of_session,
    )

Pulled-later :
    (s t : String) (r : PendingRequest) (rs : Requests) (req : PendingRequest) (later : Requests)
    → is_for s t r ≡ false
    → Pulled s t rs req later
    → Pulled s t (r ∷ rs) req (r ∷ later)
unfolding is_for remove_first
Pulled-later s t r rs req later skipped (first, removed, others, counts, mine) = (
  ground arith,
  ground arith,
  (λ other apart. ground (arith, others other apart)),
  (λ p. ground (arith, counts p)),
  mine,
)

pub pull-some :
    (s t : String) (rs : Requests) (req : PendingRequest) (rest : Requests)
    → pull (is_for s t) rs ≡ some (req, rest)
    → Pulled s t rs req rest
unfolding pull
pull-some s t [] req rest h = absurd (ground arith)
pull-some s t (r ∷ rs) req rest h = elim (pull-cases (is_for s t) r rs req rest h) [
  | inl (mine, same, left) ↦
      subst (Pulled s t (r ∷ rs) req) left
        (subst (λ x. Pulled s t (r ∷ rs) x rs) same (Pulled-here s t r rs mine))
  | inr (skipped, (later, there, left)) ↦
      subst (Pulled s t (r ∷ rs) req) left
        (Pulled-later s t r rs req later skipped (pull-some s t rs req later there))
]
