-- ===== src/Gate/Blacklist.antt =====
-- What "deny and blacklist" of back/go-assistant/infra/host/gate/hitl.go changes in the risk bands of
-- policy.go and matcher.go.
use liwaisi_assistant.Base.{
  String, Bool, true, ◌||◌, Option, none, some, List, [], ◌∷◌, ◌++◌, ◌≡◌, ◌≢◌, refl, sym, ap, subst,
  ◌∙◌, ◌↔◌, ◌⊎◌, inl, inr, arith, if◌then◌else◌, Bool-cases, Option-cases,
}
use liwaisi_assistant.Gate.Matcher.{matched_text}
use liwaisi_assistant.Gate.Policy.{
  GateError, cap_exceeded, Pattern, Compile, Band, HostPolicy, matches, compile_all, compile_band,
  Step, then_step, finalize_hitl, finalize_dangerous, finalize_caution, finalize_safe,
  finalize_forbidden, finalize, with_defaults, any_over_cap, forbidden_risk, classify,
}
use liwaisi_assistant.Gate.Decisions.{GateOp, Gate, policy_of, target_of}
use liwaisi_assistant.Gate.Evaluate.{band_of}
use liwaisi_assistant.Gate.Approval.{pattern_of, blacklist}
use liwaisi_assistant.Gate.Learning.{any-snoc}
use liwaisi_assistant.Gate.Remember.{with_policy}

abbrev with_pattern : Pattern → Option (List Pattern) → Option (List Pattern)
with_pattern t none = none
with_pattern t (some ps) = some (ps ++ t ∷ [])

compile_all-snoc :
    (compile : Compile) (pats : List String) (s : String) (t : Pattern)
    → compile s ≡ some t
    → compile_all compile (pats ++ s ∷ []) ≡ with_pattern t (compile_all compile pats)
unfolding compile_all
compile_all-snoc compile [] s t h = rw (h) refl
compile_all-snoc compile (x ∷ pats) s t h = elim (Option-cases (compile x)) [
  | inl e ↦ rw (e, compile_all) refl
  | inr (p, e) ↦
      rw (e, compile_all-snoc compile pats s t h, compile_all)
        (prefixed p (compile_all compile pats))
]
  where
    prefixed :
        (p : Pattern) (rest : Option (List Pattern))
        → elim (with_pattern t rest) [ none ↦ none | some ps ↦ some (p ∷ ps) ]
          ≡ with_pattern t (elim rest [ none ↦ none | some ps ↦ some (p ∷ ps) ])
    prefixed p none = refl
    prefixed p (some ps) = refl

-- A band of one more pattern matches what the band matched, and what the pattern matches.
matches-snoc :
    (compile : Compile) (pats : List String) (s : String) (t : Pattern)
    → compile s ≡ some t
    → (x : String) → (b : Option Band) → b ≡ compile_band compile (pats ++ s ∷ [])
    → b ≢ none
    → matches b x ≡ (matches (compile_band compile pats) x || t x)
unfolding compile_band matches
matches-snoc compile pats s t h x b e held = elim (Option-cases (compile_all compile pats)) [
  | inl c ↦ absurd (held (e ∙ (rw (compile_all-snoc compile pats s t h, c, compile_band) refl)))
  | inr (ps, c) ↦ rw (e, compile_all-snoc compile pats s t h, c, compile_band) (any-snoc x ps t)
]

-- Where finalize succeeds, the forbidden band is the one of the policy's patterns.
then_step-forbidden :
    (b : Option Band) (p : HostPolicy) (next : Step) (f : Option Band)
    → p.forbidden ≡ f
    → next.1.forbidden ≡ f
    → (then_step b p next).1.forbidden ≡ f
then_step-forbidden none p next f h k = h
then_step-forbidden (some b) p next f h k = k

finalize_forbidden-forbidden :
    (compile : Compile) (p : HostPolicy)
    → (finalize_forbidden compile p).1.forbidden ≡ compile_band compile p.forbidden_pat
finalize_forbidden-forbidden compile p0 =
    let f = compile_band compile p0.forbidden_pat in
    let p1 = record p0 { forbidden = f } in
    let p2 = record p1 { safe = compile_band compile p1.safe_pat } in
    let p3 = record p2 { caution = compile_band compile p2.caution_pat } in
    let p4 = record p3 { dangerous = compile_band compile p3.dangerous_pat } in
    let p5 = record p4 { hitl = compile_band compile p4.hitl_pat } in
    then_step-forbidden f p1 (finalize_safe compile p1) f refl (
      then_step-forbidden p2.safe p2 (finalize_caution compile p2) f refl (
        then_step-forbidden p3.caution p3 (finalize_dangerous compile p3) f refl (
          then_step-forbidden p4.dangerous p4 (finalize_hitl compile p4) f refl
            (then_step-forbidden p5.hitl p5 (none, p5) f refl refl))))

-- The forbidden band is the compiled form of the patterns, unless a list is over its cap.
finalize-forbidden :
    (compile : Compile) (p : HostPolicy)
    → (finalize compile p).0 ≡ none
    → (finalize compile p).1.forbidden ≡ compile_band compile p.forbidden_pat
unfolding finalize
finalize-forbidden compile p h = elim (Bool-cases (any_over_cap (with_defaults p))) [
  | inl over ↦ absurd (fails (any_over_cap (with_defaults p)) over h)
  | inr under ↦ rw (under) (finalize_forbidden-forbidden compile (with_defaults p))
]
  where
    fails :
        (b : Bool)
        → b ≡ true
        → (if b
            then (some cap_exceeded, with_defaults p)
            else finalize_forbidden compile (with_defaults p)).0
          ≡ none
        → ⊥
    fails b over e = ground arith

finalize-compiles :
    (compile : Compile) (p : HostPolicy)
    → (finalize compile p).0 ≡ none
    → compile_band compile p.forbidden_pat ≢ none
unfolding finalize
finalize-compiles compile p h e = elim (Bool-cases (any_over_cap (with_defaults p))) [
  | inl over ↦ absurd (
      never (
        subst
          (λ b.
            (if b
              then (some cap_exceeded, with_defaults p)
              else finalize_forbidden compile (with_defaults p)).0
            ≡ none)
          over h))
  | inr under ↦ absurd (
      never (
        subst
          (λ f.
            (then_step f (record (with_defaults p) { forbidden = f })
              (finalize_safe compile (record (with_defaults p) { forbidden = f }))).0
            ≡ none)
          e
          (subst
            (λ b.
              (if b
                then (some cap_exceeded, with_defaults p)
                else finalize_forbidden compile (with_defaults p)).0
              ≡ none)
            under h)))
]
  where
    never : {e : GateError} → ◌≡◌ {A = Option GateError} (some e) none → ⊥
    never h = cc

classify-forbidden_iff :
    (p : HostPolicy) (command : String)
    → (classify p command ≡ forbidden_risk) ↔ (matches p.forbidden (matched_text command) ≡ true)
unfolding classify
classify-forbidden_iff p command = ground arith

blacklisted-matches :
    (compile : Compile) (p : HostPolicy) (s : String) (t : Pattern)
    → p.forbidden ≡ compile_band compile p.forbidden_pat
    → compile s ≡ some t
    → (finalize compile (record p { forbidden_pat = p.forbidden_pat ++ s ∷ [] })).0 ≡ none
    → (x : String)
    → matches
        (finalize compile (record p { forbidden_pat = p.forbidden_pat ++ s ∷ [] })).1.forbidden
        x
      ≡ (matches p.forbidden x || t x)
blacklisted-matches compile p s t compiled compiles succeeds x =
    let q : HostPolicy = record p { forbidden_pat = p.forbidden_pat ++ s ∷ [] } in
    matches-snoc compile p.forbidden_pat s t compiles x (finalize compile q).1.forbidden
      (finalize-forbidden compile q succeeds)
      (λ n. finalize-compiles compile q succeeds (sym (finalize-forbidden compile q succeeds) ∙ n))
    ∙ ap (λ b. matches b x || t x) (sym compiled)

-- After an operation is denied and blacklisted, where its pattern compiles and the policy does, and the
-- forbidden band was the compiled form of its patterns, exactly those operations are in the forbidden
-- band that were in it before, or whose matched text the operation's pattern matches.
pub blacklist-forbidden_iff :
    (p : HostPolicy) (t : Pattern) (op : GateOp) (g : Gate)
    → g.policies ≡ some p
    → p.forbidden ≡ compile_band g.compile p.forbidden_pat
    → g.compile (pattern_of op) ≡ some t
    → (blacklist op g).0 ≡ none
    → (other : GateOp)
    → (band_of (blacklist op g).1 other ≡ forbidden_risk)
      ↔ ((band_of g other ≡ forbidden_risk) ⊎ (t (matched_text (target_of other)) ≡ true))
unfolding blacklist band_of policy_of
blacklist-forbidden_iff p t op g held compiled compiles succeeds other =
    subst
      (λ h.
        (blacklist op h).0 ≡ none
        → (band_of (blacklist op h).1 other ≡ forbidden_risk)
          ↔ ((band_of h other ≡ forbidden_risk) ⊎ (t (matched_text (target_of other)) ≡ true)))
      held_policy in_policy succeeds
  where
    held_policy : with_policy p g ≡ g
    held_policy = ap (λ o. record g { policies = o }) (sym held)

    in_policy :
        (blacklist op (with_policy p g)).0 ≡ none
        → (band_of (blacklist op (with_policy p g)).1 other ≡ forbidden_risk) ↔ (
            (band_of (with_policy p g) other ≡ forbidden_risk)
            ⊎ (t (matched_text (target_of other)) ≡ true))
    in_policy done =
        let q : HostPolicy = record p { forbidden_pat = p.forbidden_pat ++ pattern_of op ∷ [] } in
        ground (
          arith,
          classify-forbidden_iff (finalize g.compile q).1 (target_of other),
          classify-forbidden_iff p (target_of other),
          blacklisted-matches g.compile p (pattern_of op) t compiled compiles done
              (matched_text (target_of other)),
        )
