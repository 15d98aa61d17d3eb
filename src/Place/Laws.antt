-- ===== src/Place/Laws.antt =====
-- What the operations of a place (cpn/place.go) promise, together and on every branch.
use liwaisi_assistant.Base.{
  ℕ, zero, suc, String, Result-cases, inl, inr, ◌+◌, ◌≡◌, refl, ◌∙◌, ap, subst, ◌≢◌, List, [], ◌∷◌,
  ◌++◌, Result, ok, err, length, length-append, All, arith,
}
use liwaisi_assistant.Errors.{Error, color_mismatch, space_mismatch, space_violation, empty_place}
use liwaisi_assistant.Token.{
  ColorSet, SpaceKind, surface, computation, Token, same_color_iff, same_space_iff,
}
use liwaisi_assistant.Place.{Place, new_place, deposit, consume_from, consume, len, clear}

-- Every token in the buffer has the colour and the space of the place.
abbrev pub IsTyped : Place → Type 0
IsTyped p = All (λ t. (t.color ≡ p.color) × (t.space ≡ p.space)) p.tokens

-- What `Deposit` answers, by the first check that fails.
abbrev pub DepositSpec : Token → Place → Result Error Place → Type 0
DepositSpec t p (ok q) =
    (t.color ≡ p.color) × (t.space ≡ p.space) × (q ≡ record p { tokens = p.tokens ++ t ∷ [] })
DepositSpec t p (err (space_violation i)) =
    (i ≡ p.id) × (t.space ≡ surface) × (p.space ≡ computation)
DepositSpec t p (err (color_mismatch i)) =
    (i ≡ p.id) × (t.color ≢ p.color) × ¬ ((t.space ≡ surface) × (p.space ≡ computation))
DepositSpec t p (err (space_mismatch i)) =
    (i ≡ p.id)
    × (t.color ≡ p.color)
    × (t.space ≢ p.space)
    × ¬ ((t.space ≡ surface) × (p.space ≡ computation))
DepositSpec t p (err _) = ⊥

-- A deposit is refused for the first of three reasons that holds: a surface token on a place of
-- computation, then another colour, then another space, each error naming the place. It succeeds
-- exactly where none holds, and then the token is the newest one of the otherwise unchanged place.
pub deposit-DepositSpec : (t : Token) (p : Place) → DepositSpec t p (deposit t p)
unfolding deposit
deposit-DepositSpec t p =
    ground (arith, same_color_iff t.color p.color, same_space_iff t.space p.space)

pub deposit_of_typed :
    (t : Token) (p : Place)
    → t.color ≡ p.color
    → t.space ≡ p.space
    → deposit t p ≡ ok (record p { tokens = p.tokens ++ t ∷ [] })
unfolding deposit
deposit_of_typed t p c s =
    ground (arith, same_color_iff t.color p.color, same_space_iff t.space p.space)

All-snoc :
    (P : Token → Type 0) (ts : List Token) (t : Token) → All P ts → P t → All P (ts ++ t ∷ [])
All-snoc P [] t h p = (p, tt)
All-snoc P (u ∷ ts) t h p = (h.0, All-snoc P ts t h.1 p)

pub deposit-IsTyped : (t : Token) (p q : Place) → deposit t p ≡ ok q → IsTyped p → IsTyped q
deposit-IsTyped t p q h typed =
    let spec : DepositSpec t p (ok q) = subst (DepositSpec t p) h (deposit-DepositSpec t p) in
    rw spec.2 (All-snoc _ p.tokens t typed (spec.0, spec.1))

-- What `Consume` answers: the oldest token and the rest, or the error on an empty place.
abbrev pub ConsumeSpec : Place → Result Error (Token × Place) → Type 0
ConsumeSpec p (ok (t, q)) = (p.tokens ≡ t ∷ q.tokens) × (q ≡ record p { tokens = q.tokens })
ConsumeSpec p (err (empty_place i)) = (i ≡ p.id) × (p.tokens ≡ [])
ConsumeSpec p (err _) = ⊥

consume_from-ConsumeSpec :
    (ts : List Token) (p : Place) → p.tokens ≡ ts → ConsumeSpec p (consume_from ts p)
consume_from-ConsumeSpec [] p e = (refl, e)
consume_from-ConsumeSpec (t ∷ ts) p e = (e, refl)

pub consume-ConsumeSpec : (p : Place) → ConsumeSpec p (consume p)
unfolding consume
consume-ConsumeSpec p = consume_from-ConsumeSpec p.tokens p refl

pub consume-IsTyped : (t : Token) (p q : Place) → consume p ≡ ok (t, q) → IsTyped p → IsTyped q
consume-IsTyped t p q h typed =
    let spec : ConsumeSpec p (ok (t, q)) = subst (ConsumeSpec p) h (consume-ConsumeSpec p) in
    let both : All (λ u. (u.color ≡ p.color) × (u.space ≡ p.space)) (t ∷ q.tokens) =
      subst (All _) spec.0 typed in
    rw spec.1 (both.1)

-- A call on a place. Its answer is dropped, and an error leaves the place as it was.
pub data PlaceOp : Type 0 where
  deposit_op : Token → PlaceOp
  consume_op clear_op : PlaceOp

abbrev pub apply : PlaceOp → Place → Place
apply (deposit_op t) p = elim (deposit t p) [ ok q ↦ q | err e ↦ p ]
apply consume_op p = elim (consume p) [ ok (t, q) ↦ q | err e ↦ p ]
apply clear_op p = clear p

abbrev pub run : List PlaceOp → Place → Place
run [] p = p
run (o ∷ os) p = run os (apply o p)

-- The place is typed and keeps the three fields that `NewPlace` sets.
pub record IsSound (id : String) (color : ColorSet) (space : SpaceKind) (p : Place) : Type 0 where
  pub same_id : p.id ≡ id
  pub keeps_color : p.color ≡ color
  pub keeps_space : p.space ≡ space
  pub typed : IsTyped p

module _ (id : String) (color : ColorSet) (space : SpaceKind) where
  deposit-IsSound :
      (t : Token) (p q : Place)
      → deposit t p ≡ ok q
      → IsSound id color space p
      → IsSound id color space q
  deposit-IsSound t p q h s =
      let spec : DepositSpec t p (ok q) = subst (DepositSpec t p) h (deposit-DepositSpec t p) in
      record {
        same_id = ap (λ r. r.id) spec.2 ∙ s.same_id;
        keeps_color = ap (λ r. r.color) spec.2 ∙ s.keeps_color;
        keeps_space = ap (λ r. r.space) spec.2 ∙ s.keeps_space;
        typed = deposit-IsTyped t p q h s.typed;
      }

  consume-IsSound :
      (t : Token) (p q : Place)
      → consume p ≡ ok (t, q)
      → IsSound id color space p
      → IsSound id color space q
  consume-IsSound t p q h s =
      let spec : ConsumeSpec p (ok (t, q)) = subst (ConsumeSpec p) h (consume-ConsumeSpec p) in
      record {
        same_id = ap (λ r. r.id) spec.1 ∙ s.same_id;
        keeps_color = ap (λ r. r.color) spec.1 ∙ s.keeps_color;
        keeps_space = ap (λ r. r.space) spec.1 ∙ s.keeps_space;
        typed = consume-IsTyped t p q h s.typed;
      }

  apply-IsSound :
      (o : PlaceOp) (p : Place) → IsSound id color space p → IsSound id color space (apply o p)
  apply-IsSound (deposit_op t) p s = elim (Result-cases (deposit t p)) [
    | inl (q, e) ↦ rw (e, apply) (deposit-IsSound t p q e s)
    | inr (x, e) ↦ rw (e, apply) s
  ]
  apply-IsSound consume_op p s = elim (Result-cases (consume p)) [
    | inl ((t, q), e) ↦ rw (e, apply) (consume-IsSound t p q e s)
    | inr (x, e) ↦ rw (e, apply) s
  ]
  apply-IsSound clear_op p s =
      unfold clear in
      record {
        same_id = s.same_id;
        keeps_color = s.keeps_color;
        keeps_space = s.keeps_space;
        typed = tt;
      }

  run-IsSound_from :
      (os : List PlaceOp) (p : Place) → IsSound id color space p → IsSound id color space (run os p)
  run-IsSound_from [] p s = s
  run-IsSound_from (o ∷ os) p s = run-IsSound_from os (apply o p) (apply-IsSound o p s)

-- After any list of deposits, consumptions and clears on a new place, the id, the colour and the
-- space are those it was made with, and every token in it has that colour and that space.
pub run-IsSound :
    (id : String) (color : ColorSet) (space : SpaceKind) (os : List PlaceOp)
    → IsSound id color space (run os (new_place id color space))
unfolding new_place
run-IsSound id color space os =
    run-IsSound_from id color space os _
      (record { same_id = refl; keeps_color = refl; keeps_space = refl; typed = tt })

-- `k` calls of `Consume` in a row: what they return, up to the first error, and the place after.
pub consume_times : ℕ → Place → List Token × Place
consume_times zero p = ([], p)
consume_times (suc k) p = elim (consume p) [
  | err e ↦ ([], p)
  | ok (t, q) ↦ (t ∷ (consume_times k q).0, (consume_times k q).1)
]

consume_times_all :
    (ts : List Token) (p : Place)
    → p.tokens ≡ ts
    → consume_times (length ts) p ≡ (ts, record p { tokens = [] })
unfolding consume_times consume
consume_times_all [] p e = ground arith
consume_times_all (t ∷ ts) p e =
    ground (arith, consume_times_all ts (record p { tokens = ts }) refl)

-- A token with the colour and the space of the place is taken by it, and consuming one time more than
-- the place was long then gives the tokens in the order of their deposits, the new one last, and
-- leaves the place empty.
pub deposit-consume_times :
    (t : Token) (p : Place)
    → t.color ≡ p.color
    → t.space ≡ p.space
    → (q : Place) × (deposit t p ≡ ok q)
      × (consume_times (len p + 1) q ≡ (p.tokens ++ t ∷ [], record p { tokens = [] }))
unfolding len
deposit-consume_times t p c s =
    let q = record p { tokens = p.tokens ++ t ∷ [] } in
    (
      q,
      deposit_of_typed t p c s,
      rw (← length-append p.tokens (t ∷ [])) (consume_times_all (p.tokens ++ t ∷ []) q refl),
    )
