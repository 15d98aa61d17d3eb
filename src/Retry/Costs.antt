-- ===== src/Retry/Costs.antt =====
-- What the retry loop (cpn/retry.go) charges for the calls of the fire function.
use liwaisi_assistant.Base.{
  ℕ, zero, suc, ◌+◌, ◌-◌, ◌≤◌, ◌≡◌, refl, sym, ap, ◌∙◌, Option, none, some, List, [], ◌∷◌, ◌++◌,
  length, append_assoc, append_nil, arith, Bool-cases, Option-cases, inl, inr,
}
use liwaisi_assistant.Errors.{Error}
use liwaisi_assistant.Retry.{
  CircuitBreakerState, RetryPolicy, Fired, gate, note_failure, wants_retry, backoff_duration,
  max_attempts, fire_once, retry_loop, do_retry,
}
use liwaisi_assistant.Retry.Attempts.{Ledger, allowed}

-- The costs added up in their order, from a start on.
abbrev pub summed : (plus : ℕ → ℕ → ℕ) → (start : ℕ) → List ℕ → ℕ
summed plus start [] = start
summed plus start (c ∷ cs) = summed plus (plus start c) cs

-- What is charged for calls at these costs: without a policy the cost of the one call as it is.
abbrev pub charged : (plus : ℕ → ℕ → ℕ) → Option RetryPolicy → List ℕ → ℕ
charged plus none [] = 0
charged plus none (c ∷ cs) = c
charged plus (some p) cs = summed plus 0 cs

module _ {S : Type 0} (now : S → ℕ) (plus : ℕ → ℕ → ℕ) (fire : S → Fired × S)
    (sleep : ℕ → S → Option Error × S) (ledger : Ledger fire sleep) where
  open ledger use {costs, fire_costs, sleep_costs}

  -- The calls that were made have cost these amounts, at most so many, and their sum is returned.
  abbrev Costs : (left total : ℕ) (s w : S) (returned : ℕ) → Type 0
  Costs left total s w returned =
      (cs : List ℕ) × (costs w ≡ costs s ++ cs)
      × (length cs ≤ left + 1)
      × (returned ≡ summed plus total cs)

  one_call :
      (left total : ℕ) (s w : S)
      → costs w ≡ costs (fire s).1
      → Costs left total s w (plus total (fire s).0.cost)
  one_call left total s w kept = ((fire s).0.cost ∷ [], kept ∙ fire_costs s, omega arith, refl)

  more_calls :
      (left total : ℕ) (s w w' : S) (returned : ℕ)
      → costs w ≡ costs (fire s).1
      → Costs left (plus total (fire s).0.cost) w w' returned
      → Costs (suc left) total s w' returned
  more_calls left total s w w' returned kept (cs, listed, few, sum) = (
    (fire s).0.cost ∷ cs,
    listed
        ∙ (ap (λ xs. xs ++ cs) (kept ∙ fire_costs s)
            ∙ append_assoc (costs s) ((fire s).0.cost ∷ []) cs),
    omega (arith, few),
    sum,
  )

  retry_loop-Costs :
      (p : RetryPolicy) (left attempt total : ℕ) (cb : Option CircuitBreakerState) (s : S)
      → let r = retry_loop now plus fire sleep p left attempt total cb s in
        Costs left total s r.world r.fired.cost
  unfolding retry_loop
  retry_loop-Costs p zero attempt total cb s = elim (Option-cases (fire s).0.error) [
    | inl fine ↦ rw (retry_loop, fine) (one_call 0 total s (fire s).1 refl)
    | inr (e, fails) ↦ rw (retry_loop, fails) (one_call 0 total s (fire s).1 refl)
  ]
  retry_loop-Costs p (suc left) attempt total cb s =
      let s' = (fire s).1 in
      let (woken, s'') = sleep (backoff_duration p attempt) s' in
      let slept = sleep_costs (backoff_duration p attempt) s' in
      elim (Option-cases (fire s).0.error) [
        | inl fine ↦ rw (retry_loop, fine) (one_call (suc left) total s s' refl)
        | inr (e, fails) ↦ elim (Bool-cases (wants_retry p e attempt)) [
          | inr given_up ↦
              rw (retry_loop, fails) (rw given_up (one_call (suc left) total s s' refl))
          | inl again ↦ elim (Option-cases woken) [
            | inr (x, stopped) ↦
                rw (retry_loop, fails)
                  (rw again (rw stopped (one_call (suc left) total s s'' slept)))
            | inl waked ↦
                let total' = plus total (fire s).0.cost in
                let cb' = note_failure (now s') cb in
                rw (retry_loop, fails)
                  (rw again (
                    rw waked (
                      more_calls left total s s'' _ _ slept
                        (retry_loop-Costs p left (attempt + 1) total' cb' s''))))
          ]
        ]
      ]

  -- If the world lists what the calls of the fire function cost, then the retry loop makes at most as
  -- many calls as the policy has attempts, and it returns the sum of exactly the costs of the calls
  -- that it made, added up from zero in their order, whatever the addition rounds; without a policy it
  -- returns the cost of the one call, and 0 if there is none.
  pub do_retry-calls :
      (retry : Option RetryPolicy) (cb : Option CircuitBreakerState) (s : S)
      → (cs : List ℕ) × (costs (do_retry now plus fire sleep retry cb s).world ≡ costs s ++ cs)
        × (length cs ≤ allowed retry)
        × ((do_retry now plus fire sleep retry cb s).fired.cost ≡ charged plus retry cs)
  unfolding do_retry fire_once max_attempts
  do_retry-calls none cb s = elim (Bool-cases (gate (now s) cb).0) [
    | inr refused ↦ rw (do_retry, refused) ([], sym (append_nil (costs s)), omega arith, refl)
    | inl passed ↦ elim (Option-cases (fire s).0.error) [
      | inl fine ↦
          rw (do_retry, passed)
            (rw (fire_once, fine) ((fire s).0.cost ∷ [], fire_costs s, omega arith, refl))
      | inr (e, fails) ↦
          rw (do_retry, passed)
            (rw (fire_once, fails) ((fire s).0.cost ∷ [], fire_costs s, omega arith, refl))
    ]
  ]
  do_retry-calls (some p) cb s = elim (Bool-cases (gate (now s) cb).0) [
    | inr refused ↦ rw (do_retry, refused) ([], sym (append_nil (costs s)), omega arith, refl)
    | inl passed ↦
        let (cs, listed, few, sum) =
          retry_loop-Costs p (max_attempts p - 1) 1 0 (gate (now s) cb).1 s in
        rw (do_retry, passed) (cs, listed, ground (arith, few), sum)
  ]
