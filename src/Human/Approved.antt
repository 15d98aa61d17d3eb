-- ===== src/Human/Approved.antt =====
-- Without an approval nothing is deposited, and the rounds are bounded: back/go-assistant/cpn/hitl.go.
use liwaisi_assistant.Base.{
  not, Option, Dict, if◌then◌else◌, ℕ, zero, suc, ◌+◌, ◌≤◌, String, Bool, true, false, none, some,
  ◌≡◌, refl, ap, ◌∙◌, ◌⊎◌, inl, inr, arith, Result, lookup, Option-cases, Result-cases, Bool-cases,
}
use liwaisi_assistant.Errors.{Error, hitl_misconfigured, hitl_max_revisions}
use liwaisi_assistant.Place.{Place}
use liwaisi_assistant.Token.{
  centaurian, Token, Payload, HitlAction, approve, reject, revise, submit, text, response,
  is_human_color, hitl, hitl_resolved,
}
use liwaisi_assistant.Transition.{Transition}
use liwaisi_assistant.Net.{Cpn, running, waiting, set_state}
use liwaisi_assistant.Executor.{stamped}
use liwaisi_assistant.Behaviour.Delivery.{emit-places}
use liwaisi_assistant.Behaviour.Switching.{set_mode-places}
use liwaisi_assistant.Human.{
  deposited, HumanConfig, Answer, answered, channel_closed, context_done, tell_hitl,
  deposit_bridged, deposit_answer,
}
use liwaisi_assistant.Human.Revision.{
  Revised, stops, open_round, approved, act_on, take_payload, take_round, revise_by, revise_loop,
  fire_hitl_with_revision,
}

-- A person's token that approves: an answer with that action, or a bare text.
unfoldable pub Approves : Payload → Type 0
Approves (response r) = r.action ≡ approve
Approves (text s) = Unit
Approves _ = ⊥

abbrev pub Approving : Token → Type 0
Approving tok = (is_human_color tok.color ≡ true) × Approves tok.payload

-- The places are those that some places become when a token with the colour and the payload of the
-- given one is deposited for a transition.
abbrev pub DepositedFor : Transition → Token → Dict Place → Dict Place → Type 0
DepositedFor t tok before after =
    (out : Token) × (out.color ≡ tok.color)
    × (out.payload ≡ tok.payload)
    × (after ≡ (deposit_bridged t.id out t.output_places before).2)

-- At most so many calls of the model; and no place has changed, or one of the answers up to that round
-- approves, and its token was deposited.
unfoldable pub Reviewed : (ℕ → Answer) → (most : ℕ) → Transition → Dict Place → Revised → Type 0
Reviewed answers most t places r =
    (r.calls ≤ most)
    × ((r.net.places ≡ places)
        ⊎ ((round : ℕ) × (tok : Token) × (round ≤ most)
            × (answers round ≡ answered tok)
            × Approving tok
            × DepositedFor t tok places r.net.places))

deposit_answer-places :
    (now cost : ℕ) (t : Transition) (tok : Token) (c : Cpn)
    → (deposit_answer now cost t tok c).1.places
      ≡ (deposit_bridged t.id (stamped now hitl c tok) t.output_places c.places).2
unfolding deposit_answer
deposit_answer-places now cost t tok c =
    by_error (deposit_bridged t.id (stamped now hitl c tok) t.output_places c.places)
  where
    by_error :
        (r : Option Error × Bool × Dict Place)
        → (deposited now cost (stamped now hitl c tok) c r).1.places ≡ r.2
    by_error (some e, b, m) = refl
    by_error (none, true, m) = set_mode-places now centaurian (record c { places = m })
    by_error (none, false, m) = refl

module _ (answers : ℕ → Answer) (now cost calls most : ℕ) (t : Transition) (places : Dict Place)
    (few : calls ≤ most) (again : String → Cpn → Revised)
    (continues : (s : String) (c : Cpn)
      → c.places ≡ places
      → Reviewed answers most t places (again s c)) where
  approved-Reviewed :
      (c : Cpn) (tok : Token)
      → c.places ≡ places
      → answers calls ≡ answered tok
      → Approving tok
      → Reviewed answers most t places (approved now cost calls t tok c)
  unfolding Reviewed approved
  approved-Reviewed c tok same there good =
      let told : Cpn = tell_hitl now t hitl_resolved c in
      (
        few,
        inr (
          calls,
          tok,
          few,
          there,
          good,
          (
            stamped now hitl told tok,
            refl,
            refl,
            deposit_answer-places now cost t tok told
                ∙ ap (λ m. (deposit_bridged t.id (stamped now hitl told tok) t.output_places m).2)
                    (emit-places now _ c ∙ same),
          ),
        ),
      )

  act_on-Reviewed :
      (c : Cpn) (tok : Token) (a : HitlAction) (s : String)
      → c.places ≡ places
      → answers calls ≡ answered tok
      → is_human_color tok.color ≡ true
      → (a ≡ approve → Approves tok.payload)
      → Reviewed answers most t places
          (act_on now cost calls t tok c again (record { action = a; content = s }))
  unfolding Reviewed act_on
  act_on-Reviewed c tok approve s same there human good =
      approved-Reviewed c tok same there (human, good refl)
  act_on-Reviewed c tok reject s same there human good = (few, inl same)
  act_on-Reviewed c tok revise s same there human good = continues s c same
  act_on-Reviewed c tok submit s same there human good = (few, inl same)

  take_payload-Reviewed :
      (c : Cpn) (tok : Token) (p : Payload)
      → tok.payload ≡ p
      → c.places ≡ places
      → answers calls ≡ answered tok
      → is_human_color tok.color ≡ true
      → Reviewed answers most t places (take_payload now cost calls t tok c again p)
  unfolding Reviewed take_payload Approves
  take_payload-Reviewed c tok (response r) e same there human =
      act_on-Reviewed c tok r.action r.content same there human (λ a. rw (e) a)
  take_payload-Reviewed c tok (text s) e same there human =
      act_on-Reviewed c tok approve s same there human (λ a. rw (e) tt)
  take_payload-Reviewed c tok Payload.nil e same there human = (few, inl same)
  take_payload-Reviewed c tok (Payload.failure x) e same there human = (few, inl same)
  take_payload-Reviewed c tok (Payload.observed x) e same there human = (few, inl same)
  take_payload-Reviewed c tok (Payload.opaque x) e same there human = (few, inl same)

  take_round-Reviewed :
      (c : Cpn) (a : Answer)
      → c.places ≡ places
      → answers calls ≡ a
      → Reviewed answers most t places (take_round now cost calls t c again a)
  unfolding Reviewed take_round
  take_round-Reviewed c channel_closed same there = (few, inl same)
  take_round-Reviewed c context_done same there = (few, inl same)
  take_round-Reviewed c (answered tok) same there = elim (Bool-cases (is_human_color tok.color)) [
    | inl human ↦
        rw (human)
          (take_payload-Reviewed (set_state running c) tok tok.payload refl same there human)
    | inr other ↦ rw (other) (few, inl same)
  ]

revise_by-Reviewed :
    (plus : ℕ → ℕ → ℕ) (answers : ℕ → Answer)
    (correct : (round : ℕ) → Transition → (feedback : String) → Result Error (String × ℕ))
    (rounds cost most : ℕ) (cfg : HumanConfig) (t : Transition) (places : Dict Place)
    → suc rounds ≤ most
    → (later : ℕ → Cpn → Revised)
    → ((cost' : ℕ) (c' : Cpn)
        → c'.places ≡ places
        → Reviewed answers most t places (later cost' c'))
    → (s : String) (c : Cpn) → c.places ≡ places
    → Reviewed answers most t places (revise_by plus correct rounds cost cfg t later s c)
unfolding Reviewed
revise_by-Reviewed plus answers correct rounds cost most cfg t places few later reviewed s c same =
    elim (Option-cases (lookup cfg.correction_llm_id c.transitions)) [
      | inl absent ↦ rw (absent, revise_by) (omega (arith, few), inl same)
      | inr (corr, there) ↦
          rw (there, revise_by)
            (elim (Result-cases (correct rounds corr s)) [
              | inr (e, fails) ↦ rw (fails) (few, inl same)
              | inl (revised, worked) ↦ rw (worked) (reviewed (plus cost revised.1) c same)
            ])
    ]

misconfigured :
    (answers : ℕ → Answer) (most : ℕ) (t : Transition) (c : Cpn)
    → Reviewed answers most t c.places (stops 0 0 (hitl_misconfigured t.id) c)
unfolding Reviewed
misconfigured answers most t c = (omega arith, inl refl)

module _ (now : ℕ) (plus : ℕ → ℕ → ℕ) (answers : (round : ℕ) → Answer)
    (correct : (round : ℕ) → Transition → (feedback : String) → Result Error (String × ℕ)) where
  revise_loop-Reviewed :
      (left rounds cost most : ℕ) (cfg : HumanConfig) (t : Transition) (places : Dict Place)
      (c : Cpn)
      → left + rounds ≤ most
      → c.places ≡ places
      → Reviewed answers most t places
          (revise_loop now plus answers correct left rounds cost cfg t c)
  unfolding Reviewed revise_loop open_round
  revise_loop-Reviewed zero rounds cost most cfg t places c few same =
      take_round-Reviewed answers now cost rounds most t places (omega (arith, few))
        (λ s c'. stops cost rounds hitl_max_revisions c')
        (λ s c' same'. (omega (arith, few), inl same')) (open_round now t c) (answers rounds)
        (emit-places now _ (set_state waiting c) ∙ same) refl
  revise_loop-Reviewed (suc left) rounds cost most cfg t places c few same =
      let later : ℕ → Cpn → Revised =
        λ cost' c'. revise_loop now plus answers correct left (suc rounds) cost' cfg t c' in
      take_round-Reviewed answers now cost rounds most t places (omega (arith, few))
        (revise_by plus correct rounds cost cfg t later)
        (revise_by-Reviewed plus answers correct rounds cost most cfg t places (omega (arith, few))
          later
          (λ cost' c' same'.
            revise_loop-Reviewed left (suc rounds) cost' most cfg t places c' (omega (arith, few))
              same'))
        (open_round now t c) (answers rounds) (emit-places now _ (set_state waiting c) ∙ same) refl

  -- fireHITLWithRevision ends, with at most as many calls of the model as the configuration allows
  -- revisions; and no place has changed, or a person's answer to one of the rounds approves, and the
  -- places are those after a token with its colour and payload is deposited.
  pub fire_hitl_with_revision-Reviewed :
      (cfg : HumanConfig) (t : Transition) (c : Cpn)
      → Reviewed answers cfg.max_revisions t c.places
          (fire_hitl_with_revision now plus answers correct cfg t c)
  unfolding fire_hitl_with_revision
  fire_hitl_with_revision-Reviewed cfg t c = by_channel cfg.has_channel
    where
      by_channel :
          (b : Bool)
          → Reviewed answers cfg.max_revisions t c.places (
              if not b
              then stops 0 0 (hitl_misconfigured t.id) c
              else revise_loop now plus answers correct cfg.max_revisions 0 0 cfg t c)
      by_channel true =
          revise_loop-Reviewed cfg.max_revisions 0 0 cfg.max_revisions cfg t c.places c
            (omega arith) refl
      by_channel false = misconfigured answers cfg.max_revisions t c
