-- ===== src/Gate/Policy.antt =====
-- back/go-assistant/infra/host/gate: policy.go, and Classify of matcher.go. `compile` is
-- regexp.Compile, giving the test of a pattern; the YAML and the file of the learned patterns are left
-- out. The budgets are bit patterns of signed numbers.
use liwaisi_assistant.Base.{
  ℕ, String, Bool, false, ◌||◌, Option, none, some, List, [], ◌∷◌, ◌++◌, Dict, Result, ok, err, ltb,
  nat_eq, any, length, if◌then◌else◌, ◌==◌,
}
use liwaisi_assistant.Gate.Matcher.{matched_text}

pub data GateError : Type 0 where
  cap_exceeded invalid_pattern no_policy_holder : GateError
  gate_denied router_missing : GateError
  publish_failed await_failed : ℕ → GateError

-- The test of a compiled pattern.
abbrev pub Pattern : Type 0
Pattern = String → Bool

abbrev pub Compile : Type 0
Compile = String → Option Pattern

pub record Band : Type 0 where
  pub raw : List String
  pub compiled : List Pattern

-- A band that is nil matches nothing.
unfoldable pub matches : Option Band → String → Bool
matches none s = false
matches (some b) s = any (λ p. p s) b.compiled

pub record Defaults : Type 0 where
  pub sandbox : String
  pub cpu_seconds_budget : ℕ
  pub bytes_written_budget : ℕ
  pub outbound_requests_budget : ℕ

pub record SandboxMapping : Type 0 where
  pub preferred : String
  pub fallback : String

pub record HostPolicy : Type 0 where
  pub version : ℕ
  pub defaults : Defaults
  pub forbidden_pat : List String
  pub safe_pat : List String
  pub caution_pat : List String
  pub dangerous_pat : List String
  pub hitl_pat : List String
  pub sandbox_mappings : Dict SandboxMapping
  pub forbidden : Option Band
  pub safe : Option Band
  pub caution : Option Band
  pub dangerous : Option Band
  pub hitl : Option Band

abbrev pub empty_policy : HostPolicy
empty_policy = record {
  version = 0;
  defaults = record {
    sandbox = "";
    cpu_seconds_budget = 0;
    bytes_written_budget = 0;
    outbound_requests_budget = 0;
  };
  forbidden_pat = [];
  safe_pat = [];
  caution_pat = [];
  dangerous_pat = [];
  hitl_pat = [];
  sandbox_mappings = [];
  forbidden = none;
  safe = none;
  caution = none;
  dangerous = none;
  hitl = none;
}

abbrev pub max_patterns : ℕ
max_patterns = 256

abbrev pub or_default : ℕ → ℕ → ℕ
or_default default n = if nat_eq n 0 then default else n

abbrev pub with_defaults : HostPolicy → HostPolicy
with_defaults p = record p {
  version = or_default 1 p.version;
  defaults = record {
    sandbox = if p.defaults.sandbox == "" then "readonly" else p.defaults.sandbox;
    cpu_seconds_budget = or_default 120 p.defaults.cpu_seconds_budget;
    bytes_written_budget = or_default 268435456 p.defaults.bytes_written_budget;
    outbound_requests_budget = or_default 50 p.defaults.outbound_requests_budget;
  };
}

abbrev pub over_cap : List String → Bool
over_cap pats = ltb max_patterns (length pats)

abbrev pub any_over_cap : HostPolicy → Bool
any_over_cap p =
    over_cap p.forbidden_pat
    || over_cap p.safe_pat
    || over_cap p.caution_pat
    || over_cap p.dangerous_pat
    || over_cap p.hitl_pat

abbrev pub added : Option Band → String → Pattern → Band
added none s p = record { raw = s ∷ []; compiled = p ∷ [] }
added (some b) s p = record { raw = b.raw ++ s ∷ []; compiled = b.compiled ++ p ∷ [] }

abbrev pub Step : Type 0
Step = Option GateError × HostPolicy

-- One assignment `p.band, err = compileBand(...)`: the band is nil where it fails.
abbrev pub then_step : Option Band → HostPolicy → Step → Step
then_step none p next = (some invalid_pattern, p)
then_step (some b) p next = next

module _ (compile : Compile) where
  unfoldable pub compile_all : List String → Option (List Pattern)
  compile_all [] = some []
  compile_all (s ∷ pats) = elim (compile s) [
    | none ↦ none
    | some p ↦ elim (compile_all pats) [ none ↦ none | some ps ↦ some (p ∷ ps) ]
  ]

  -- A band of patterns, nil if one of them does not compile.
  unfoldable pub compile_band : List String → Option Band
  unfolding compile_all
  compile_band pats = elim (compile_all pats) [
    | none ↦ none
    | some ps ↦ some (record { raw = pats; compiled = ps })
  ]

  abbrev pub finalize_hitl : HostPolicy → Step
  finalize_hitl p =
      let b = compile_band p.hitl_pat in let p' = record p { hitl = b } in then_step b p' (none, p')

  abbrev pub finalize_dangerous : HostPolicy → Step
  finalize_dangerous p =
      let b = compile_band p.dangerous_pat in
      let p' = record p { dangerous = b } in then_step b p' (finalize_hitl p')

  abbrev pub finalize_caution : HostPolicy → Step
  finalize_caution p =
      let b = compile_band p.caution_pat in
      let p' = record p { caution = b } in then_step b p' (finalize_dangerous p')

  abbrev pub finalize_safe : HostPolicy → Step
  finalize_safe p =
      let b = compile_band p.safe_pat in
      let p' = record p { safe = b } in then_step b p' (finalize_caution p')

  abbrev pub finalize_forbidden : HostPolicy → Step
  finalize_forbidden p =
      let b = compile_band p.forbidden_pat in
      let p' = record p { forbidden = b } in then_step b p' (finalize_safe p')

  unfoldable pub finalize : HostPolicy → Step
  unfolding compile_band
  finalize p =
      let p' = with_defaults p in
      if any_over_cap p' then (some cap_exceeded, p') else finalize_forbidden p'

  unfoldable pub append_learned_safe_pattern : String → HostPolicy → Result GateError HostPolicy
  append_learned_safe_pattern s p = elim (compile s) [
    | none ↦ err invalid_pattern
    | some test ↦
        ok (record p { safe_pat = p.safe_pat ++ s ∷ []; safe = some (added p.safe s test) })
  ]

pub data RiskBand : Type 0 where
  safe_risk caution_risk dangerous_risk forbidden_risk unknown_risk : RiskBand

-- Classify: the first band that matches, the forbidden one first.
unfoldable pub classify : HostPolicy → String → RiskBand
unfolding matches
classify p command =
    let norm = matched_text command in
    if matches p.forbidden norm
    then forbidden_risk
    else if matches p.dangerous norm
    then dangerous_risk
    else if matches p.caution norm
    then caution_risk
    else if matches p.hitl norm
    then caution_risk
    else if matches p.safe norm
    then safe_risk
    else unknown_risk
