-- ===== src/Retry.antt =====
-- back/go-assistant/cpn/retry.go: the circuit breaker and the retry loop. Times are nanoseconds on
-- one clock; `time.Duration` is taken to be no less than 0. Waiting is the parameter `sleep`, which
-- answers with the error of a cancelled context, and `backoff` stands for `backoffDuration`'s
-- floating-point value `InitialWait * Multiplier^(attempt-1)`. A cost is a float64, by its bits, and
-- `plus` is their addition, of which nothing is assumed.
pub mod Breaker
pub mod Attempts
pub mod Costs
pub mod Keeps
use liwaisi_assistant.Base.{
  ℕ, zero, suc, ◌+◌, ◌-◌, Bool, true, false, not, Option, none, some, List, [], Result, ok, err,
  ltb, leb, nat_eq, if◌then◌else◌,
}
use liwaisi_assistant.Errors.{Error, circuit_open}
use liwaisi_assistant.Token.{TokenSnapshot}

pub record CircuitBreakerConfig : Type 0 where
  pub failure_threshold : ℕ
  pub open_duration : ℕ

pub record CircuitBreakerState : Type 0 where
  pub config : CircuitBreakerConfig
  pub failures : ℕ
  pub tripped_at : Option ℕ

pub record RetryPolicy : Type 0 where
  pub max_attempts : ℕ
  pub initial_wait : ℕ
  pub max_wait : ℕ
  -- The float part of `backoffDuration`, by the attempt.
  pub backoff : ℕ → ℕ
  pub retry_on : Option (Error → ℕ → Bool)

unfoldable pub new_circuit_breaker_state : CircuitBreakerConfig → CircuitBreakerState
new_circuit_breaker_state config = record { config = config; failures = 0; tripped_at = none }

-- `Allow` at the time `now`: it closes a breaker whose time is over.
abbrev allow_at : ℕ → Option ℕ → CircuitBreakerState → Bool × CircuitBreakerState
allow_at now none cb = (true, cb)
allow_at now (some since) cb =
    if ltb cb.config.open_duration (now - since)
    then (true, record cb { tripped_at = none })
    else (false, cb)

unfoldable pub allow : ℕ → CircuitBreakerState → Bool × CircuitBreakerState
allow now cb = allow_at now cb.tripped_at cb

unfoldable pub record_failure : ℕ → CircuitBreakerState → CircuitBreakerState
record_failure now cb =
    let failures = cb.failures + 1 in
    if leb cb.config.failure_threshold failures
    then record cb { failures = failures; tripped_at = some now }
    else record cb { failures = failures }

unfoldable pub record_success : CircuitBreakerState → CircuitBreakerState
record_success cb = record cb { failures = 0; tripped_at = none }

-- What one call of a fire function returns: snapshots, a cost, and an error or none.
pub record Fired : Type 0 where
  pub snaps : List TokenSnapshot
  pub cost : ℕ
  pub error : Option Error

-- What the retry loop returns, with the breaker and the state of the world after it.
pub record Retried (S : Type 0) : Type 0 where
  pub fired : Fired
  pub breaker : Option CircuitBreakerState
  pub world : S

abbrev pub failure_of : ℕ → Error → Fired
failure_of cost e = record { snaps = []; cost = cost; error = some e }

-- `cb != nil && !cb.Allow()`, with the breaker after the call.
unfoldable pub gate : ℕ → Option CircuitBreakerState → Bool × Option CircuitBreakerState
gate now none = (true, none)
gate now (some cb) = ((allow now cb).0, some (allow now cb).1)

unfoldable pub note_failure : ℕ → Option CircuitBreakerState → Option CircuitBreakerState
note_failure now none = none
note_failure now (some cb) = some (record_failure now cb)

unfoldable pub note_success : Option CircuitBreakerState → Option CircuitBreakerState
note_success none = none
note_success (some cb) = some (record_success cb)

unfoldable pub wants_retry : RetryPolicy → Error → ℕ → Bool
wants_retry p e attempt = elim p.retry_on [ none ↦ true | some decide ↦ decide e attempt ]

unfoldable pub backoff_duration : RetryPolicy → ℕ → ℕ
backoff_duration p attempt =
    let wait = p.backoff attempt in if ltb p.max_wait wait then p.max_wait else wait

unfoldable pub max_attempts : RetryPolicy → ℕ
max_attempts p = if leb p.max_attempts 1 then 1 else p.max_attempts

-- `fire` and `sleep` act on a state of the world that also tells the time.
module _ {S : Type 0} (now : S → ℕ) (plus : ℕ → ℕ → ℕ) (fire : S → Fired × S)
    (sleep : ℕ → S → Option Error × S) where
  unfoldable pub fire_once : Option CircuitBreakerState → S → Retried S
  fire_once cb s =
      let (o, s') = fire s in
      elim o.error [
        | none ↦ record { fired = o; breaker = note_success cb; world = s' }
        | some e ↦ record { fired = o; breaker = note_failure (now s') cb; world = s' }
      ]

  -- The `for` loop: `left` attempts may follow this one, and `total` is the cost so far.
  unfoldable pub retry_loop :
      RetryPolicy → (left attempt total : ℕ) → Option CircuitBreakerState → S → Retried S
  retry_loop p zero attempt total cb s =
      let (o, s') = fire s in
      let total' = plus total o.cost in
      elim o.error [
        | none ↦ record {
          fired = record o { cost = total' };
          breaker = note_success cb;
          world = s';
        }
        | some e ↦ record {
          fired = failure_of total' e;
          breaker = note_failure (now s') cb;
          world = s';
        }
      ]
  retry_loop p (suc left) attempt total cb s =
      let (o, s') = fire s in
      let total' = plus total o.cost in
      elim o.error [
        | none ↦ record {
          fired = record o { cost = total' };
          breaker = note_success cb;
          world = s';
        }
        | some e ↦
            let cb' = note_failure (now s') cb in
            let (woken, s'') = sleep (backoff_duration p attempt) s' in
            elim (wants_retry p e attempt) [
              | false ↦ record { fired = failure_of total' e; breaker = cb'; world = s' }
              | true ↦ elim woken [
                | some x ↦ record { fired = failure_of total' x; breaker = cb'; world = s'' }
                | none ↦ retry_loop p left (attempt + 1) total' cb' s''
              ]
            ]
      ]

  unfoldable pub do_retry : Option RetryPolicy → Option CircuitBreakerState → S → Retried S
  do_retry retry cb s = elim (gate (now s) cb).0 [
    | false ↦ record { fired = failure_of 0 circuit_open; breaker = (gate (now s) cb).1; world = s }
    | true ↦ elim retry [
      | none ↦ fire_once (gate (now s) cb).1 s
      | some p ↦ retry_loop p (max_attempts p - 1) 1 0 (gate (now s) cb).1 s
    ]
  ]
