-- ===== src/Gate/Learning.antt =====
-- What a learned safe pattern changes in the risk bands: back/go-assistant/infra/host/gate/policy.go
-- and matcher.go.
use liwaisi_assistant.Base.{
  String, Bool, true, false, ◌&&◌, ◌||◌, Option, none, some, List, [], ◌∷◌, ◌++◌, ◌≡◌, refl, ok,
  arith, any, if◌then◌else◌,
}
use liwaisi_assistant.Gate.Matcher.{matched_text}
use liwaisi_assistant.Gate.Policy.{
  Pattern, Compile, Band, matches, HostPolicy, added, append_learned_safe_pattern, RiskBand,
  unknown_risk, safe_risk, classify,
}

pub any-snoc :
    (x : String) (ps : List Pattern) (t : Pattern)
    → any (λ p. p x) (ps ++ t ∷ []) ≡ (any (λ p. p x) ps || t x)
any-snoc x [] t = ground arith
any-snoc x (p ∷ ps) t = ground (arith, any-snoc x ps t)

pub matches-added :
    (b : Option Band) (s : String) (t : Pattern) (x : String)
    → matches (some (added b s t)) x ≡ (matches b x || t x)
unfolding matches
matches-added none s t x = ground arith
matches-added (some b) s t x = any-snoc x b.compiled t

-- The policy that one more safe pattern gives.
abbrev pub learned : String → Pattern → HostPolicy → HostPolicy
learned s t p = record p { safe_pat = p.safe_pat ++ s ∷ []; safe = some (added p.safe s t) }

pub append_learned_lem :
    (compile : Compile) (s : String) (t : Pattern) (p : HostPolicy)
    → compile s ≡ some t
    → append_learned_safe_pattern compile s p ≡ ok (learned s t p)
unfolding append_learned_safe_pattern
append_learned_lem compile s t p h = rw (h, append_learned_safe_pattern) refl

abbrev pub is_unknown : RiskBand → Bool
is_unknown unknown_risk = true
is_unknown _ = false

pub classify-learned :
    (s : String) (t : Pattern) (p : HostPolicy) (command : String)
    → classify (learned s t p) command ≡ (
        if is_unknown (classify p command) && t (matched_text command)
        then safe_risk
        else classify p command)
unfolding classify
classify-learned s t p command = rw (matches-added p.safe s t (matched_text command)) ground arith
