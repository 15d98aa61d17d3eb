-- ===== src/Scenarios/Attempts.antt =====
-- The theorems on the circuit breaker and the retry loop, on a fire function that always fails.
use liwaisi_assistant.Base.{
  ℕ, ◌+◌, ◌-◌, ◌%◌, ◌≤◌, ◌++◌, length, ◌≡◌, refl, ◌↔◌, true, false, Option, none, some, List, [],
  ◌∷◌,
}
use liwaisi_assistant.Errors.{Error, external}
use liwaisi_assistant.Retry.{
  CircuitBreakerState, Fired, allow, gate, do_retry, failure_of, max_attempts, wants_retry,
}
use liwaisi_assistant.Retry.Breaker.{
  BreakerOp, allow_op, failure_op, success_op, after, streak, allow-failure_iff,
}
use liwaisi_assistant.Retry.Attempts.{Ledger, allowed, do_retry-exhausts}
use liwaisi_assistant.Retry.Costs.{charged, do_retry-calls}
use liwaisi_assistant.Scenarios.Data.{config, policy}

abbrev history : List BreakerOp
history = failure_op 4 ∷ allow_op 3 ∷ success_op ∷ []

allow-failure_iff_example :
    ((allow 9 (after config (failure_op 6 ∷ history))).0 ≡ false)
    ↔ ((2 ≤ streak history + 1) × (9 - 6 ≤ 10))
allow-failure_iff_example = allow-failure_iff config history 6 9

abbrev tripped : CircuitBreakerState
tripped = record { config = config; failures = 2; tripped_at = some 5 }

reopened : (allow 20 tripped).0 ≡ true
unfolding allow
reopened = refl

-- A world that counts the calls and lists the costs.
abbrev Count : Type 0
Count = ℕ × List ℕ

abbrev failing : Count → Fired × Count
failing s = (failure_of 2 (external 1), (s.0 + 1, s.1 ++ 2 ∷ []))

-- An addition that drops the last digit.
abbrev rounded : ℕ → ℕ → ℕ
rounded a b = a + b - (a + b) % 10

abbrev nap : ℕ → Count → Option Error × Count
nap d s = (none, s)

abbrev at : Count → ℕ
at s = s.0

abbrev ledger : Ledger failing nap
ledger = record {
  calls = λ s. s.0;
  costs = λ s. s.1;
  fire_calls = λ s. refl;
  fire_costs = λ s. refl;
  sleep_calls = λ d s. refl;
  sleep_costs = λ d s. refl;
}

abbrev start : Count
start = (4, [])

abbrev closed : CircuitBreakerState
closed = record { config = config; failures = 0; tripped_at = none }

do_retry-calls_example :
    (cs : List ℕ) × ((do_retry at rounded failing nap (some policy) none start).world.1 ≡ [] ++ cs)
    × (length cs ≤ allowed (some policy))
    × ((do_retry at rounded failing nap (some policy) none start).fired.cost
        ≡ charged rounded (some policy) cs)
do_retry-calls_example = do_retry-calls at rounded failing nap ledger (some policy) none start

always_retried : (e : Error) (n : ℕ) → wants_retry policy e n ≡ true
unfolding wants_retry
always_retried e n = refl

do_retry-exhausts_example :
    (do_retry at rounded failing nap (some policy) none start).world.0 ≡ 4 + max_attempts policy
unfolding gate
do_retry-exhausts_example =
    do_retry-exhausts at rounded failing nap ledger policy none start (λ t. λ h. cc) always_retried
      (λ d t. refl) refl
