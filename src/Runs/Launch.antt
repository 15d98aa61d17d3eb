-- ===== src/Runs/Launch.antt =====
-- What a launched firing holds (cpn/executor.go): the oldest token of each of its input places.
use liwaisi_assistant.Base.{
  ℕ, suc, String, ◌≡◌, refl, sym, ap, subst, ◌∙◌, ◌≢◌, inl, inr, true, Option, some, List, [], ◌∷◌,
  Dict, lookup, lookup-insert, insert, modify, All, length, arith, Bool-cases, Option-cases, ok,
  err, Result-cases, ==-of_ne, if◌then◌else◌, ◌==◌,
}
use liwaisi_assistant.Errors.{Error}
use liwaisi_assistant.Token.{Token}
use liwaisi_assistant.Place.{Place, consume}
use liwaisi_assistant.Place.Laws.{ConsumeSpec, consume-ConsumeSpec}
use liwaisi_assistant.Transition.{Transition}
use liwaisi_assistant.Transition.Firing.{
  IsMarked, tokens_at, can_fire_with_iff, can_fire_with-breaker,
}
use liwaisi_assistant.Retry.{CircuitBreakerState}
use liwaisi_assistant.Net.{Cpn, effective_can_fire, effective_guard}
use liwaisi_assistant.Executor.{consume_all, Firing, launch, with_breaker}

abbrev pub Distinct : List String → Type 0
Distinct [] = Unit
Distinct (pid ∷ pids) = All (λ q. pid ≢ q) pids × Distinct pids

-- The oldest token of each place that is there and holds one.
abbrev pub first_of : List Token → List Token → List Token
first_of [] rest = rest
first_of (t ∷ ts) rest = t ∷ rest

abbrev pub heads : Dict Place → List String → List Token
heads places [] = []
heads places (pid ∷ pids) = first_of (tokens_at places pid) (heads places pids)

heads-insert :
    (pid : String) (q : Place) (places : Dict Place) (pids : List String)
    → All (λ j. pid ≢ j) pids
    → heads (insert pid q places) pids ≡ heads places pids
heads-insert pid q places [] h = refl
heads-insert pid q places (j ∷ pids) h =
    let same : lookup j (insert pid q places) ≡ lookup j places =
      lookup-insert pid j q places
      ∙ ap (λ b. if b then some q else lookup j places) (==-of_ne pid j h.0) in
    ground (arith, same, heads-insert pid q places pids h.1)

empty_of_error : (p : Place) (x : Error) → consume p ≡ err x → p.tokens ≡ []
unfolding consume
empty_of_error p x h = go p.tokens refl
  where
    go : (l : List Token) → p.tokens ≡ l → p.tokens ≡ []
    go [] e = e
    go (t ∷ ts) e = ground arith

-- If a list names no place twice, then consuming from it gives the oldest token of each place on it that
-- is there and not empty, in the order of the list.
pub consume_all-heads :
    (pids : List String) (places : Dict Place)
    → Distinct pids
    → (consume_all pids places).0 ≡ heads places pids
unfolding consume_all
consume_all-heads [] places d = refl
consume_all-heads (pid ∷ pids) places d = elim (Option-cases (lookup pid places)) [
  | inl e ↦ ground (arith, consume_all-heads pids places d.1)
  | inr (p, e) ↦ elim (Result-cases (consume p)) [
    | inr (x, f) ↦
        let empty = empty_of_error p x f in ground (arith, consume_all-heads pids places d.1)
    | inl ((t, q), f) ↦
        let spec : ConsumeSpec p (ok (t, q)) = subst (ConsumeSpec p) f (consume-ConsumeSpec p) in
        ground (
          arith,
          spec.0,
          consume_all-heads pids (insert pid q places) d.1,
          heads-insert pid q places pids d.0,
        )
  ]
]

-- Each input place is marked, so there is a head for each.
length-heads :
    (places : Dict Place) (pids : List String)
    → All (IsMarked places) pids
    → length (heads places pids) ≡ length pids
length-heads places [] h = refl
length-heads places (pid ∷ pids) ((p, e, marked), h) =
    let ih = length-heads places pids h in rw (e, heads, length) (go p.tokens marked ih)
  where
    go :
        (l : List Token)
        → l ≢ []
        → length (heads places pids) ≡ length pids
        → length (first_of l (heads places pids)) ≡ suc (length pids)
    go [] m ih = absurd (m refl)
    go (t ∷ ts) m ih = ap suc ih

-- What a firing holds, as it was launched at the marking `places`: its inputs were marked, and it
-- took the oldest token of each.
abbrev pub TookHeads : Dict Place → Firing → Type 0
TookHeads places f =
    All (IsMarked places) f.transition.input_places
    × (f.consumed ≡ heads places f.transition.input_places)
    × (length f.consumed ≡ length f.transition.input_places)
    × (f.transition.input_places ≢ [])

-- A list of launches from one marking to another: each took its heads where those before it left
-- the net.
pub data Launched : Dict Place → List Firing → Dict Place → Type 0 where
  done : (m : Dict Place) → Launched m [] m
  first :
      (m next after : Dict Place) (f : Firing) (fs : List Firing)
      → TookHeads m f
      → next ≡ (consume_all f.transition.input_places m).1
      → Launched next fs after
      → Launched m (f ∷ fs) after

-- No transition reads a place twice.
abbrev pub DistinctInputs : Dict Transition → Type 0
DistinctInputs = All (λ e. Distinct e.1.input_places)

All-lookup :
    (P : Transition → Type 0) (k : String) (es : Dict Transition) {t : Transition}
    → All (λ e. P e.1) es
    → lookup k es ≡ some t
    → P t
unfolding lookup
All-lookup P k [] all h = cc
All-lookup P k (e ∷ es) {t} all h = elim (Bool-cases (e.0 == k)) [
  | inl p ↦ subst P (ground arith) all.0
  | inr p ↦ All-lookup P k es all.1 (ground arith)
]

DistinctInputs-modify :
    (k : String) (cb : Option CircuitBreakerState) (es : Dict Transition)
    → DistinctInputs es
    → DistinctInputs (modify k (with_breaker cb) es)
unfolding modify
DistinctInputs-modify k cb [] h = tt
DistinctInputs-modify k cb (e ∷ es) h = elim (Bool-cases (e.0 == k)) [
  | inl p ↦ rw p h
  | inr p ↦ rw p (h.0, DistinctInputs-modify k cb es h.1)
]

effective_can_fire-inputs :
    (now : ℕ) (c : Cpn) (t : Transition)
    → (effective_can_fire now c t).1.input_places ≡ t.input_places
unfolding effective_can_fire
effective_can_fire-inputs now c t =
    ap (λ u. u.input_places) (can_fire_with-breaker now c.places (effective_guard c t) t)

took_heads :
    (now : ℕ) (c : Cpn) (t : Transition) (k : String)
    → Distinct t.input_places
    → (effective_can_fire now c t).0 ≡ true
    → TookHeads c.places (record {
      key = k;
      transition = (effective_can_fire now c t).1;
      consumed = (consume_all t.input_places c.places).0;
    })
unfolding effective_can_fire
took_heads now c t k d h =
    let guard = effective_guard c t in
    let enabled = ((can_fire_with_iff now c.places guard t).0 h).2 in
    let heads_eq = consume_all-heads t.input_places c.places d in
    rw (effective_can_fire-inputs now c t) (
      enabled.1,
      heads_eq,
      ap length heads_eq ∙ length-heads c.places t.input_places enabled.1,
      enabled.0,
    )

-- If no transition reads a place twice, then each firing of a round found all its input places marked in
-- the marking that the firings before it left, and holds the oldest token of each of them.
pub launch-Launched :
    (now : ℕ) (es : Dict String) (c : Cpn)
    → DistinctInputs c.transitions
    → Launched c.places (launch now es c).0 (launch now es c).1.places
unfolding launch
launch-Launched now [] c d = done c.places
launch-Launched now (e ∷ es) c d = elim (Option-cases (lookup e.1 c.transitions)) [
  | inl x ↦ rw (x, launch) (launch-Launched now es c d)
  | inr (t, x) ↦
      let checked = effective_can_fire now c t in
      let cb = checked.1.cb_state in
      let c' = record c { transitions = modify e.1 (with_breaker cb) c.transitions } in
      let d' = DistinctInputs-modify e.1 cb c.transitions d in
      elim (Bool-cases checked.0) [
        | inr y ↦ rw (x, launch) (rw y (launch-Launched now es c' d'))
        | inl y ↦
            let taken = consume_all t.input_places c.places in
            let d'' = record c' { places = taken.1 } in
            rw (x, launch)
              (rw y (
                first c.places taken.1 (launch now es d'').1.places
                  (record { key = e.1; transition = checked.1; consumed = taken.0 })
                  (launch now es d'').0
                  (took_heads now c t e.1
                    (All-lookup (λ u. Distinct u.input_places) e.1 c.transitions d x) y)
                  (ap (λ pids. (consume_all pids c.places).1)
                    (sym (effective_can_fire-inputs now c t)))
                  (launch-Launched now es d'' d')))
      ]
]
