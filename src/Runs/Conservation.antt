-- ===== src/Runs/Conservation.antt =====
-- Consume before launch (cpn/executor.go): the tokens handed to firings and those left.
use liwaisi_assistant.Base.{
  ℕ, String, ◌+◌, ◌≡◌, ap, subst, inl, inr, Bool, some, List, [], ◌∷◌, Dict, lookup, insert, modify,
  length, arith, Bool-cases, Option-cases, ok, Result-cases, ◌==◌,
}
use liwaisi_assistant.Base.Sort.{number_of}
use liwaisi_assistant.Token.{Token}
use liwaisi_assistant.Place.{Place, consume}
use liwaisi_assistant.Place.Laws.{ConsumeSpec, consume-ConsumeSpec}
use liwaisi_assistant.Net.{Cpn, effective_can_fire}
use liwaisi_assistant.Executor.{consume_all, Firing, launch, with_breaker}

-- The tokens in all places.
abbrev pub total : Dict Place → ℕ
total [] = 0
total (e ∷ es) = length e.1.tokens + total es

pub total-insert :
    (pid : String) (p q : Place) (places : Dict Place)
    → lookup pid places ≡ some p
    → total (insert pid q places) + length p.tokens ≡ total places + length q.tokens
unfolding lookup insert
total-insert pid p q [] h = cc
total-insert pid p q (e ∷ es) h = elim (Bool-cases (e.0 == pid)) [
  | inl s ↦ let same : some e.1 ≡ some p = ground arith in ground arith
  | inr s ↦ ground (arith, total-insert pid p q es (ground arith))
]

-- The tokens in all places that pass a test.
abbrev pub tally : (Token → Bool) → Dict Place → ℕ
tally test [] = 0
tally test (e ∷ es) = number_of test e.1.tokens + tally test es

pub tally-insert :
    (test : Token → Bool) (pid : String) (p q : Place) (places : Dict Place)
    → lookup pid places ≡ some p
    → tally test (insert pid q places) + number_of test p.tokens
      ≡ tally test places + number_of test q.tokens
unfolding lookup insert
tally-insert test pid p q [] h = cc
tally-insert test pid p q (e ∷ es) h = elim (Bool-cases (e.0 == pid)) [
  | inl s ↦ let same : some e.1 ≡ some p = ground arith in ground arith
  | inr s ↦ ground (arith, tally-insert test pid p q es (ground arith))
]

-- The tokens handed out and those left are the tokens there were.
pub consume_all-tally :
    (test : Token → Bool) (pids : List String) (places : Dict Place)
    → number_of test (consume_all pids places).0 + tally test (consume_all pids places).1
      ≡ tally test places
unfolding consume_all
consume_all-tally test [] places = omega arith
consume_all-tally test (pid ∷ pids) places = elim (Option-cases (lookup pid places)) [
  | inl e ↦ rw (e, consume_all) (consume_all-tally test pids places)
  | inr (p, e) ↦ elim (Result-cases (consume p)) [
    | inr (x, f) ↦ rw (e, consume_all) (rw f (consume_all-tally test pids places))
    | inl ((t, q), f) ↦
        let spec : ConsumeSpec p (ok (t, q)) = subst (ConsumeSpec p) f (consume-ConsumeSpec p) in
        let one : number_of test p.tokens ≡ number_of test (t ∷ q.tokens) =
          ap (number_of test) spec.0 in
        let rest = consume_all-tally test pids (insert pid q places) in
        let moved = tally-insert test pid p q places e in
        rw (e, consume_all) (rw f (ground (arith, rest, moved, one)))
  ]
]

abbrev pub handed_out : (Token → Bool) → List Firing → ℕ
handed_out test [] = 0
handed_out test (f ∷ fs) = number_of test f.consumed + handed_out test fs

-- For every test on tokens, the tokens that pass it among those handed to the firings of a round and
-- those left in the places are as many as passed it before: no token is lost, changed or handed out
-- twice.
pub launch-tally :
    (test : Token → Bool) (now : ℕ) (es : Dict String) (c : Cpn)
    → handed_out test (launch now es c).0 + tally test (launch now es c).1.places
      ≡ tally test c.places
unfolding launch
launch-tally test now [] c = omega arith
launch-tally test now (e ∷ es) c = elim (Option-cases (lookup e.1 c.transitions)) [
  | inl x ↦ rw (x, launch) (launch-tally test now es c)
  | inr (t, x) ↦
      let checked = effective_can_fire now c t in
      let c' = record c {
        transitions = modify e.1 (with_breaker checked.1.cb_state) c.transitions;
      } in
      let taken = consume_all t.input_places c.places in
      elim (Bool-cases checked.0) [
        | inr y ↦ ground (arith, launch-tally test now es c')
        | inl y ↦ ground (
          arith,
          consume_all-tally test t.input_places c.places,
          launch-tally test now es (record c' { places = taken.1 }),
        )
      ]
]
