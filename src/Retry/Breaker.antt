-- ===== src/Retry/Breaker.antt =====
-- The circuit breaker (cpn/retry.go) against the history of what was recorded on it.
use liwaisi_assistant.Base.{
  ℕ, ◌+◌, ◌-◌, ◌≤◌, ◌≡◌, refl, subst, ◌↔◌, true, false, Option, none, some, List, [], ◌∷◌, arith,
}
use liwaisi_assistant.Retry.{
  CircuitBreakerConfig, CircuitBreakerState, new_circuit_breaker_state, allow, record_failure,
  record_success,
}

-- A call on the breaker, with the time that it reads.
pub data BreakerOp : Type 0 where
  allow_op failure_op : (now : ℕ) → BreakerOp
  success_op : BreakerOp

abbrev pub apply : BreakerOp → CircuitBreakerState → CircuitBreakerState
apply (allow_op now) cb = (allow now cb).1
apply (failure_op now) cb = record_failure now cb
apply success_op cb = record_success cb

-- The calls, the latest first.
abbrev pub after : CircuitBreakerConfig → List BreakerOp → CircuitBreakerState
after config [] = new_circuit_breaker_state config
after config (o ∷ earlier) = apply o (after config earlier)

-- How many failures were recorded since the last success.
abbrev pub streak : List BreakerOp → ℕ
streak [] = 0
streak (allow_op now ∷ earlier) = streak earlier
streak (failure_op now ∷ earlier) = streak earlier + 1
streak (success_op ∷ earlier) = 0

-- The time of the last failure since the last success.
abbrev pub last_failure : List BreakerOp → Option ℕ
last_failure [] = none
last_failure (allow_op now ∷ earlier) = last_failure earlier
last_failure (failure_op now ∷ earlier) = some now
last_failure (success_op ∷ earlier) = none

after-config :
    (config : CircuitBreakerConfig) (os : List BreakerOp) → (after config os).config ≡ config
unfolding new_circuit_breaker_state allow record_failure record_success
after-config config [] = refl
after-config config (o ∷ os) = ground (arith, after-config config os)

after-failures :
    (config : CircuitBreakerConfig) (os : List BreakerOp) → (after config os).failures ≡ streak os
unfolding new_circuit_breaker_state allow record_failure record_success
after-failures config [] = refl
after-failures config (o ∷ os) = ground (arith, after-failures config os)

-- A breaker that is open was opened by the last failure, with the streak at the threshold.
after-tripped_at :
    (config : CircuitBreakerConfig) (os : List BreakerOp) (since : ℕ)
    → (after config os).tripped_at ≡ some since
    → (last_failure os ≡ some since) × (config.failure_threshold ≤ streak os)
unfolding new_circuit_breaker_state allow record_failure record_success
after-tripped_at config [] since h = cc
after-tripped_at config (o ∷ os) since h =
    ground
      (arith, after-tripped_at config os since, after-config config os, after-failures config os)

refused_at :
    (now : ℕ) (cb : CircuitBreakerState)
    → (allow now cb).0 ≡ false
    → (since : ℕ) × (cb.tripped_at ≡ some since) × (now - since ≤ cb.config.open_duration)
unfolding allow
refused_at now cb h = go cb.tripped_at refl
  where
    go :
        (o : Option ℕ)
        → cb.tripped_at ≡ o
        → (since : ℕ) × (cb.tripped_at ≡ some since) × (now - since ≤ cb.config.open_duration)
    go none e = ground arith
    go (some since) e = (since, e, ground arith)

-- A breaker that refuses after some calls has a last failure since its last success, at least the
-- threshold of failures since that success, and not more than the open time since that failure.
pub allow-refuses :
    (config : CircuitBreakerConfig) (os : List BreakerOp) (now : ℕ)
    → (allow now (after config os)).0 ≡ false
    → (since : ℕ) × (last_failure os ≡ some since)
      × (config.failure_threshold ≤ streak os)
      × (now - since ≤ config.open_duration)
allow-refuses config os now h =
    let (since, tripped, recent) = refused_at now (after config os) h in
    let (last, long) = after-tripped_at config os since tripped in
    (since, last, long, subst (λ c. now - since ≤ c.open_duration) (after-config config os) recent)

refused_by_failure :
    (cb : CircuitBreakerState) (failed now : ℕ)
    → cb.config.failure_threshold ≤ cb.failures + 1
    → now - failed ≤ cb.config.open_duration
    → (allow now (record_failure failed cb)).0 ≡ false
unfolding allow record_failure
refused_by_failure cb failed now long recent = ground arith

-- Right after a failure, whatever calls came before, the breaker refuses exactly if the failures since
-- the last success, this one included, reach the threshold, and not more than the open time has
-- passed since that failure.
pub allow-failure_iff :
    (config : CircuitBreakerConfig) (os : List BreakerOp) (failed now : ℕ)
    → ((allow now (after config (failure_op failed ∷ os))).0 ≡ false)
      ↔ ((config.failure_threshold ≤ streak os + 1) × (now - failed ≤ config.open_duration))
allow-failure_iff config os failed now = (to, from)
  where
    to :
        (allow now (after config (failure_op failed ∷ os))).0 ≡ false
        → (config.failure_threshold ≤ streak os + 1) × (now - failed ≤ config.open_duration)
    to h =
        let (since, last, long, recent) = allow-refuses config (failure_op failed ∷ os) now h in
        ground arith

    from :
        (config.failure_threshold ≤ streak os + 1) × (now - failed ≤ config.open_duration)
        → (allow now (after config (failure_op failed ∷ os))).0 ≡ false
    from h =
        refused_by_failure (after config os) failed now
          (rw (after-config config os, after-failures config os) h.0)
          (rw (after-config config os) h.1)

-- A breaker that lets one call through lets the next one through too, at any time, if nothing is
-- recorded in between, and it keeps its count of failures.
pub allow_again :
    (cb : CircuitBreakerState) (now later : ℕ)
    → (allow now cb).0 ≡ true
    → ((allow later (allow now cb).1).0 ≡ true) × ((allow now cb).1.failures ≡ cb.failures)
unfolding allow
allow_again cb now later h = ground arith
