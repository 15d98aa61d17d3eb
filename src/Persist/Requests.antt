-- ===== src/Persist/Requests.antt =====
-- MemoryHITLRepository of back/go-assistant/cpn/persist/memory.go: the requests for human input that
-- wait, in the order in which they came.
pub mod Queues
pub mod Pulls
pub mod Refines
use liwaisi_assistant.Base.{
  ℕ, ℤ, pos, negsuc, suc, ◌-◌, String, Bool, true, false, ◌&&◌, not, Option, none, some, List, [],
  ◌∷◌, ◌++◌, Result, ok, err, ltb, leb, if◌then◌else◌, keep, ◌==◌,
}
use liwaisi_assistant.Persist.Records.{StoreError, request_not_found, alive, PendingRequest}

abbrev pub Requests : Type 0
Requests = List PendingRequest

unfoldable pub enqueue : Option StoreError → PendingRequest → Requests → Result StoreError Requests
enqueue ctx req requests = alive ctx (ok (requests ++ req ∷ []))

unfoldable pub is_for : (session_id transition_id : String) → PendingRequest → Bool
is_for session_id transition_id req =
    req.session_id == session_id && req.transition_id == transition_id

abbrev pub behind :
    PendingRequest → Option (PendingRequest × Requests) → Option (PendingRequest × Requests)
behind req none = none
behind req (some taken) = some (taken.0, req ∷ taken.1)

-- The first request that passes the test, and the others in order.
unfoldable pub pull : (PendingRequest → Bool) → Requests → Option (PendingRequest × Requests)
pull p [] = none
pull p (req ∷ rest) =
    let later = behind req (pull p rest) in if p req then some (req, rest) else later

unfoldable pub dequeue :
    Option StoreError
    → (session_id transition_id : String) → Requests
    → Result StoreError (PendingRequest × Requests)
dequeue ctx session_id transition_id requests =
    alive ctx (elim (pull (is_for session_id transition_id) requests) [
      | none ↦ err request_not_found
      | some taken ↦ ok taken
    ])

unfoldable pub list_pending : Option StoreError → String → Requests → Result StoreError Requests
list_pending ctx session_id requests =
    alive ctx (ok (keep (λ req. req.session_id == session_id) requests))

-- `a.Before(b)` on times as signed numbers.
unfoldable pub before : ℤ → ℤ → Bool
before (pos a) (pos b) = ltb a b
before (pos a) (negsuc b) = false
before (negsuc a) (pos b) = true
before (negsuc a) (negsuc b) = ltb b a

-- `time.Now().Add(-olderThan)`.
abbrev pub cutoff : (now older_than : ℕ) → ℤ
cutoff now older_than =
    if leb older_than now then pos (now - older_than) else negsuc (older_than - now - 1)

-- What stays, and how many are removed.
unfoldable pub split_expired : ℤ → Requests → ℕ × Requests
split_expired limit [] = (0, [])
split_expired limit (req ∷ rest) =
    let later = split_expired limit rest in
    if before req.expires_at limit then (suc later.0, later.1) else (later.0, req ∷ later.1)

unfoldable pub expire :
    (now : ℕ) → Option StoreError → (older_than : ℕ) → Requests → Result StoreError (ℕ × Requests)
expire now ctx older_than requests = alive ctx (ok (split_expired (cutoff now older_than) requests))
