-- ===== src/Retry/Keeps.antt =====
-- What one call and one sleep keep, the whole retry loop (cpn/retry.go) keeps.
use liwaisi_assistant.Base.{ℕ, zero, suc, ◌+◌, ◌-◌, Option, inl, inr, Bool-cases, Option-cases}
use liwaisi_assistant.Errors.{Error}
use liwaisi_assistant.Retry.{
  CircuitBreakerState, RetryPolicy, Fired, gate, wants_retry, backoff_duration, max_attempts,
  fire_once, retry_loop, do_retry,
}

module _ {S : Type 0} (now : S → ℕ) (plus : ℕ → ℕ → ℕ) (fire : S → Fired × S)
    (sleep : ℕ → S → Option Error × S) (Holds : S → Type 0)
    (fire_keeps : (s : S) → Holds s → Holds (fire s).1)
    (sleep_keeps : (d : ℕ) (s : S) → Holds s → Holds (sleep d s).1) where
  retry_loop-keeps :
      (p : RetryPolicy) (left attempt total : ℕ) (cb : Option CircuitBreakerState) (s : S)
      → Holds s
      → Holds (retry_loop now plus fire sleep p left attempt total cb s).world
  unfolding retry_loop
  retry_loop-keeps p zero attempt total cb s h = elim (Option-cases (fire s).0.error) [
    | inl fine ↦ rw (retry_loop, fine) (fire_keeps s h)
    | inr (e, fails) ↦ rw (retry_loop, fails) (fire_keeps s h)
  ]
  retry_loop-keeps p (suc left) attempt total cb s h = elim (Option-cases (fire s).0.error) [
    | inl fine ↦ rw (retry_loop, fine) (fire_keeps s h)
    | inr (e, fails) ↦ elim (Bool-cases (wants_retry p e attempt)) [
      | inr given_up ↦ rw (retry_loop, fails) (rw given_up (fire_keeps s h))
      | inl again ↦
          let s' = (fire s).1 in
          let slept = sleep_keeps (backoff_duration p attempt) s' (fire_keeps s h) in
          elim (Option-cases (sleep (backoff_duration p attempt) s').0) [
            | inr (x, stopped) ↦ rw (retry_loop, fails) (rw again (rw stopped slept))
            | inl woken ↦
                rw (retry_loop, fails)
                  (rw again (rw woken (retry_loop-keeps p left (attempt + 1) _ _ _ slept)))
          ]
    ]
  ]

  pub do_retry-keeps :
      (retry : Option RetryPolicy) (cb : Option CircuitBreakerState) (s : S)
      → Holds s
      → Holds (do_retry now plus fire sleep retry cb s).world
  unfolding do_retry fire_once
  do_retry-keeps retry cb s h = elim (Bool-cases (gate (now s) cb).0) [
    | inr refused ↦ rw (do_retry, refused) h
    | inl passed ↦ elim (Option-cases retry) [
      | inl once ↦ elim (Option-cases (fire s).0.error) [
        | inl fine ↦ rw (do_retry, passed) (rw once (rw (fire_once, fine) (fire_keeps s h)))
        | inr (e, fails) ↦ rw (do_retry, passed) (rw once (rw (fire_once, fails) (fire_keeps s h)))
      ]
      | inr (p, policy) ↦
          rw (do_retry, passed) (rw policy (retry_loop-keeps p (max_attempts p - 1) 1 0 _ s h))
    ]
  ]
