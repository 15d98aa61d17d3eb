-- ===== src/SubNet/Outputs.antt =====
-- What a child net gets from its parent and leaves in it (cpn/subnet.go).
use liwaisi_assistant.Base.{
  String, ◌≡◌, refl, sym, ap, ◌∙◌, inl, inr, false, some, List, [], ◌∷◌, ◌++◌, map, Dict, lookup,
  lookup-insert, insert, append_nil, append_assoc, arith, eq_iff, eq_refl, Bool-cases, Option-cases,
  Result-cases, ok, if◌then◌else◌, ◌==◌,
}
use liwaisi_assistant.Token.{Token}
use liwaisi_assistant.Place.{Place, deposit}
use liwaisi_assistant.Place.Laws.{deposit_of_typed}
use liwaisi_assistant.SubNet.{fitted, deposit_into, deposit_outputs}

abbrev pub filled : Place → List Token → Place
filled p ts = record p { tokens = p.tokens ++ map (λ t. fitted t p) ts }

deposit_into-Fills :
    (pid : String) (ts : List Token) (m : Dict Place) (p : Place)
    → lookup pid m ≡ some p
    → ((deposit_into pid ts m).0 ≡ 0) × (lookup pid (deposit_into pid ts m).1 ≡ some (filled p ts))
unfolding deposit_into
deposit_into-Fills pid [] m p h =
    (refl, h ∙ ap some (ap (λ xs. record p { tokens = xs }) (sym (append_nil p.tokens))))
deposit_into-Fills pid (t ∷ ts) m p h =
    let q : Place = record p { tokens = p.tokens ++ fitted t p ∷ [] } in
    let fits : deposit (fitted t p) p ≡ ok q = deposit_of_typed (fitted t p) p refl refl in
    let there : lookup pid (insert pid q m) ≡ some q =
      ground (arith, lookup-insert pid pid q m, eq_refl pid) in
    let (none_failed, full) = deposit_into-Fills pid ts (insert pid q m) q there in
    rw (deposit_into, h)
      (rw fits (
        none_failed,
        full
            ∙ ap some (
                ap (λ xs. record p { tokens = xs })
                  (append_assoc p.tokens (fitted t p ∷ []) (map (λ t. fitted t p) ts))),
      ))

deposit_into-other :
    (pid other : String) (ts : List Token) (m : Dict Place)
    → (pid == other) ≡ false
    → lookup other (deposit_into pid ts m).1 ≡ lookup other m
unfolding deposit_into
deposit_into-other pid other [] m ne = refl
deposit_into-other pid other (t ∷ ts) m ne = elim (Option-cases (lookup pid m)) [
  | inl absent ↦ rw (deposit_into, absent) refl
  | inr (p, there) ↦ elim (Result-cases (deposit (fitted t p) p)) [
    | inr (x, fails) ↦ rw (deposit_into, there) (rw fails (deposit_into-other pid other ts m ne))
    | inl (q, fits) ↦
        rw (deposit_into, there)
          (rw fits (
            deposit_into-other pid other ts (insert pid q m) ne
            ∙ ground (arith, lookup-insert pid other q m)))
  ]
]

no_failure : (pid : String) (ts : List Token) (m : Dict Place) → (deposit_into pid ts m).0 ≡ 0
unfolding deposit_into
no_failure pid [] m = refl
no_failure pid (t ∷ ts) m = elim (Option-cases (lookup pid m)) [
  | inl absent ↦ rw (deposit_into, absent) refl
  | inr (p, there) ↦
      let q : Place = record p { tokens = p.tokens ++ fitted t p ∷ [] } in
      let fits : deposit (fitted t p) p ≡ ok q = deposit_of_typed (fitted t p) p refl refl in
      rw (deposit_into, there) (rw fits (no_failure pid ts (insert pid q m)))
]

map-append {ℓ κ} :
    {A : Type ℓ} {B : Type κ} (f : A → B) (xs ys : List A) → map f (xs ++ ys) ≡ map f xs ++ map f ys
map-append f [] ys = refl
map-append f (x ∷ xs) ys = ap (λ zs. f x ∷ zs) (map-append f xs ys)

filled_twice : (p : Place) (a b : List Token) → filled (filled p a) b ≡ filled p (a ++ b)
filled_twice p a b =
    let f : Token → Token = λ t. fitted t p in
    ap (λ ts. record p { tokens = ts })
      (append_assoc p.tokens (map f a) (map f b)
        ∙ ap (λ ts. p.tokens ++ ts) (sym (map-append f a b)))

-- All the tokens, once for each mention of the place.
abbrev pub shares : String → List Token → List String → List Token
shares pid ts [] = []
shares pid ts (k ∷ ks) = (if k == pid then ts else []) ++ shares pid ts ks

filled_none : (p : Place) → filled p [] ≡ p
filled_none p = ap (λ ts. record p { tokens = ts }) (append_nil p.tokens)

-- For every place of the parent, no deposit of a child's outputs fails, and behind its tokens it has all
-- of them once for each mention of it among the output places, fitted to its colour and space.
pub deposit_outputs-shares :
    (pids : List String) (ts : List Token) (m : Dict Place) (pid : String) (p : Place)
    → lookup pid m ≡ some p
    → ((deposit_outputs pids ts m).0 ≡ 0)
      × (lookup pid (deposit_outputs pids ts m).1 ≡ some (filled p (shares pid ts pids)))
unfolding deposit_outputs
deposit_outputs-shares [] ts m pid p h = (refl, h ∙ ap some (sym (filled_none p)))
deposit_outputs-shares (k ∷ ks) ts m pid p h = elim (Bool-cases (k == pid)) [
  | inl here ↦
      let same : k ≡ pid = (eq_iff k pid).0 here in
      let (zero_one, full) = deposit_into-Fills pid ts m p h in
      let full' : lookup pid (deposit_into k ts m).1 ≡ some (filled p ts) = rw same full in
      let (zero_rest, rest) = deposit_outputs-shares ks ts (deposit_into k ts m).1 pid _ full' in
      (
        omega (arith, no_failure k ts m, zero_rest),
        rw here (rest ∙ ap some (filled_twice p ts (shares pid ts ks))),
      )
  | inr elsewhere ↦
      let kept = deposit_into-other k pid ts m elsewhere ∙ h in
      let (zero_rest, rest) = deposit_outputs-shares ks ts (deposit_into k ts m).1 pid p kept in
      (omega (arith, no_failure k ts m, zero_rest), rw elsewhere rest)
]
