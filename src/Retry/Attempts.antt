-- ===== src/Retry/Attempts.antt =====
-- What the retry loop (cpn/retry.go) does whatever the fire function answers: how often it is called,
-- and what the breaker is told.
use liwaisi_assistant.Base.{
  ℕ, zero, suc, ◌+◌, ◌-◌, ◌≤◌, ◌≡◌, ◌≢◌, ◌⊎◌, true, false, Option, none, some, List, [], ◌∷◌, ◌++◌,
  arith, Option-cases, inl, inr,
}
use liwaisi_assistant.Errors.{Error, circuit_open}
use liwaisi_assistant.Retry.{
  CircuitBreakerState, RetryPolicy, Fired, gate, allow, note_failure, note_success, wants_retry,
  backoff_duration, max_attempts, fire_once, retry_loop, do_retry, failure_of, record_failure,
  record_success,
}

-- The number of attempts that the policy allows.
abbrev pub allowed : Option RetryPolicy → ℕ
allowed none = 1
allowed (some p) = max_attempts p

-- What the world remembers: the number of calls of `fire`, and what each has cost, in their order.
pub record Ledger {S : Type 0} (fire : S → Fired × S) (sleep : ℕ → S → Option Error × S)
    : Type 0 where
  pub calls : S → ℕ
  pub costs : S → List ℕ
  pub fire_calls : (s : S) → calls (fire s).1 ≡ calls s + 1
  pub fire_costs : (s : S) → costs (fire s).1 ≡ costs s ++ (fire s).0.cost ∷ []
  pub sleep_calls : (d : ℕ) (s : S) → calls (sleep d s).1 ≡ calls s
  pub sleep_costs : (d : ℕ) (s : S) → costs (sleep d s).1 ≡ costs s

-- How a breaker with `failures` failures stands after the attempts between `before` and `after`:
-- closed after a success, and otherwise with one more failure for each attempt.
abbrev pub Recorded :
    (failures before after : ℕ) → Option Error → Option CircuitBreakerState → Type 0
Recorded failures before after error none = ⊥
Recorded failures before after none (some cb) = (cb.failures ≡ 0) × (cb.tripped_at ≡ none)
Recorded failures before after (some e) (some cb) = cb.failures + before ≡ failures + after

module _ {S : Type 0} (now : S → ℕ) (plus : ℕ → ℕ → ℕ) (fire : S → Fired × S)
    (sleep : ℕ → S → Option Error × S) (ledger : Ledger fire sleep) where
  open ledger use {calls, fire_calls, sleep_calls}

  retry_loop-calls :
      (p : RetryPolicy) (left attempt total : ℕ) (cb : Option CircuitBreakerState) (s : S)
      → calls s + 1 ≤ calls (retry_loop now plus fire sleep p left attempt total cb s).world
  unfolding retry_loop
  retry_loop-calls p zero attempt total cb s = ground (arith, fire_calls s)
  retry_loop-calls p (suc left) attempt total cb s =
      let s' = (fire s).1 in
      let s'' = (sleep (backoff_duration p attempt) s').1 in
      ground (
        arith,
        fire_calls s,
        sleep_calls (backoff_duration p attempt) s',
        retry_loop-calls p left (attempt + 1) (plus total (fire s).0.cost)
            (note_failure (now s') cb) s'',
      )

  -- If the world counts the calls of the fire function, then a breaker that refuses leaves the world as it
  -- was and answers that the circuit is open, at no cost, and without that at least one call is made.
  pub do_retry-gate :
      (retry : Option RetryPolicy) (cb : Option CircuitBreakerState) (s : S)
      → ((gate (now s) cb).0 ≡ false)
          × ((do_retry now plus fire sleep retry cb s).world ≡ s)
          × ((do_retry now plus fire sleep retry cb s).fired ≡ failure_of 0 circuit_open)
        ⊎ ((gate (now s) cb).0 ≡ true)
          × (calls s + 1 ≤ calls (do_retry now plus fire sleep retry cb s).world)
  unfolding do_retry fire_once max_attempts
  do_retry-gate none cb s = ground (arith, fire_calls s)
  do_retry-gate (some p) cb s =
      ground (arith, retry_loop-calls p (max_attempts p - 1) 1 0 (gate (now s) cb).1 s)

  retry_loop-Recorded :
      (p : RetryPolicy) (left attempt total : ℕ) (cb : CircuitBreakerState) (s : S)
      → let r = retry_loop now plus fire sleep p left attempt total (some cb) s in
        Recorded cb.failures (calls s) (calls r.world) r.fired.error r.breaker
  unfolding retry_loop note_failure note_success record_failure record_success
  retry_loop-Recorded p zero attempt total cb s = ground (arith, fire_calls s)
  retry_loop-Recorded p (suc left) attempt total cb s =
      let s' = (fire s).1 in
      let s'' = (sleep (backoff_duration p attempt) s').1 in
      ground (
        arith,
        fire_calls s,
        sleep_calls (backoff_duration p attempt) s',
        retry_loop-Recorded p left (attempt + 1) (plus total (fire s).0.cost)
            (record_failure (now s') cb) s'',
      )

  -- If the world counts the calls of the fire function and there is a breaker, then it is closed and
  -- without failures after a success, and otherwise has one failure more for each call made.
  pub do_retry-Recorded :
      (retry : Option RetryPolicy) (cb : CircuitBreakerState) (s : S)
      → let r = do_retry now plus fire sleep retry (some cb) s in
        Recorded cb.failures (calls s) (calls r.world) r.fired.error r.breaker
  unfolding do_retry fire_once gate allow note_failure note_success record_failure record_success
  do_retry-Recorded none cb s = ground (arith, fire_calls s)
  do_retry-Recorded (some p) cb s =
      ground (arith, retry_loop-Recorded p (max_attempts p - 1) 1 0 (allow (now s) cb).1 s)

  retry_loop-exhausts :
      (p : RetryPolicy) (left attempt total : ℕ) (cb : Option CircuitBreakerState) (s : S)
      → ((t : S) → (fire t).0.error ≢ none)
      → ((e : Error) (n : ℕ) → wants_retry p e n ≡ true)
      → ((d : ℕ) (t : S) → (sleep d t).0 ≡ none)
      → calls (retry_loop now plus fire sleep p left attempt total cb s).world ≡ calls s + left + 1
  unfolding retry_loop
  retry_loop-exhausts p zero attempt total cb s fails wants wakes =
      ground (arith, fire_calls s, fails s)
  retry_loop-exhausts p (suc left) attempt total cb s fails wants wakes =
      elim (Option-cases (fire s).0.error) [
        | inl e ↦ absurd (fails s e)
        | inr (x, e) ↦
            let s' = (fire s).1 in
            let s'' = (sleep (backoff_duration p attempt) s').1 in
            ground (
              arith,
              fire_calls s,
              sleep_calls (backoff_duration p attempt) s',
              wants x attempt,
              wakes (backoff_duration p attempt) s',
              retry_loop-exhausts p left (attempt + 1) (plus total (fire s).0.cost)
                  (note_failure (now s') cb) s'' fails wants wakes,
            )
      ]

  -- If the world counts the calls of the fire function, every call fails, the policy retries every error,
  -- no sleep is cancelled and the breaker lets the first call through, then the loop makes exactly as
  -- many calls as the policy has attempts.
  pub do_retry-exhausts :
      (p : RetryPolicy) (cb : Option CircuitBreakerState) (s : S)
      → ((t : S) → (fire t).0.error ≢ none)
      → ((e : Error) (n : ℕ) → wants_retry p e n ≡ true)
      → ((d : ℕ) (t : S) → (sleep d t).0 ≡ none)
      → (gate (now s) cb).0 ≡ true
      → calls (do_retry now plus fire sleep (some p) cb s).world ≡ calls s + max_attempts p
  unfolding do_retry max_attempts
  do_retry-exhausts p cb s fails wants wakes open_gate = ground (
    arith,
    retry_loop-exhausts p (max_attempts p - 1) 1 0 (gate (now s) cb).1 s fails wants wakes,
  )
