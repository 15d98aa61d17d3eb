-- ===== src/SubNet/Inputs.antt =====
-- The tokens that a child net is started with (`injectTokens` of cpn/subnet.go).
use liwaisi_assistant.Base.{
  ◌+◌, String, ◌≡◌, refl, ◌≢◌, inl, inr, Bool, true, not, Option, none, some, List, [], ◌∷◌, ◌++◌,
  map, keep, values, Dict, lookup, lookup-insert, insert, length-append, keep-append, All, arith,
  eq_refl, Bool-cases, Option-cases, ok, has, ◌∙◌,
}
use liwaisi_assistant.Base.Sort.{number_of}
use liwaisi_assistant.Token.{Token, ColorSet, SpaceKind}
use liwaisi_assistant.Place.{Place, deposit}
use liwaisi_assistant.Place.Laws.{deposit_of_typed}
use liwaisi_assistant.Net.{Cpn}
use liwaisi_assistant.Validate.{sort_by_key, insert_by_key}
use liwaisi_assistant.Validate.Soundness.{All-sort_by_key}
use liwaisi_assistant.Runs.Conservation.{tally, tally-insert}
use liwaisi_assistant.SubNet.{
  is_output, source_places, by_color, fallback, or_else, fitted, inject_token, inject_each,
  inject_tokens,
}

-- Each of these places is in the map.
abbrev AllThere : Dict Place → Dict Place → Type 0
AllThere sources m = All (λ e. has e.0 m ≡ true) sources

AllThere-insert :
    (sources m : Dict Place) (k : String) (q : Place)
    → AllThere sources m
    → AllThere sources (insert k q m)
AllThere-insert [] m k q h = tt
AllThere-insert (e ∷ es) m k q h =
    (ground (arith, lookup-insert k e.0 q m, h.0), AllThere-insert es m k q h.1)

AllThere-more : (es m : Dict Place) (e : String × Place) → AllThere es m → AllThere es (e ∷ m)
unfolding lookup
AllThere-more [] m e h = tt
AllThere-more (x ∷ es) m e h =
    let here : has x.0 (e ∷ m) ≡ true = ground (arith, h.0) in (here, AllThere-more es m e h.1)

all_there : (m : Dict Place) → AllThere m m
unfolding lookup
all_there [] = tt
all_there (e ∷ es) =
    let here : has e.0 (e ∷ es) ≡ true = ground (arith, eq_refl e.0) in
    (here, AllThere-more es es e (all_there es))

AllThere-keep :
    (test : String × Place → Bool) (es m : Dict Place) → AllThere es m → AllThere (keep test es) m
AllThere-keep test [] m h = tt
AllThere-keep test (e ∷ es) m h = elim (Bool-cases (test e)) [
  | inl kept ↦ rw kept (h.0, AllThere-keep test es m h.1)
  | inr left ↦ rw left (AllThere-keep test es m h.1)
]

by_color-there :
    (color : ColorSet) (sources m : Dict Place) (k : String)
    → AllThere sources m
    → by_color color sources ≡ some k
    → has k m ≡ true
unfolding by_color
by_color-there color [] m k all h = cc
by_color-there color (e ∷ es) m k all h = elim (Option-cases (by_color color es)) [
  | inr (j, later) ↦ by_color-there color es m k all.1 (ground arith)
  | inl last ↦ ground (arith, all)
]

fallback-there :
    (sources m : Dict Place) (k : String)
    → AllThere sources m
    → fallback sources ≡ some k
    → has k m ≡ true
unfolding fallback
fallback-there sources m k all h =
    let pairs : Dict String = map (λ e. (e.1.id, e.0)) sources in
    go (sort_by_key pairs) ((All-sort_by_key (λ e. has e.1 m ≡ true) pairs).1 (paired sources all))
      h
  where
    paired :
        (es : Dict Place)
        → AllThere es m
        → All (λ e. has e.1 m ≡ true) (map {B = String × String} (λ e. (e.1.id, e.0)) es)
    paired [] all = tt
    paired (e ∷ es) all = (all.0, paired es all.1)

    go :
        (es : Dict String)
        → All (λ e. has e.1 m ≡ true) es
        → (elim es as (λ x. Option String) [ [] ↦ none | (e ∷ es) ↦ some e.1 ]) ≡ some k
        → has k m ≡ true
    go [] all h = cc
    go (e ∷ es) all h = ground (arith, all.0)

-- What the test says of a token, it says of the token in whatever colour and space.
abbrev pub IgnoresFit : (Token → Bool) → Type 0
IgnoresFit test =
    (t : Token) (c : ColorSet) (s : SpaceKind) → test (record t { color = c; space = s }) ≡ test t

number_of-snoc :
    (test : Token → Bool) (ts : List Token) (t : Token)
    → number_of test (ts ++ t ∷ []) ≡ number_of test ts + number_of test (t ∷ [])
number_of-snoc test ts t =
    ground (arith, keep-append test ts (t ∷ []), length-append (keep test ts) (keep test (t ∷ [])))

number_of-fitted :
    (test : Token → Bool) (t : Token) (p : Place)
    → test (fitted t p) ≡ test t
    → number_of test (fitted t p ∷ []) ≡ number_of test (t ∷ [])
number_of-fitted test t p same = elim (Bool-cases (test t)) [
  | inl passes ↦ rw (same ∙ passes) (rw passes refl)
  | inr fails ↦ rw (same ∙ fails) (rw fails refl)
]

number_of-cons :
    (test : Token → Bool) (t : Token) (ts : List Token)
    → number_of test (t ∷ ts) ≡ number_of test (t ∷ []) + number_of test ts
number_of-cons test t ts = ground arith

inject_each-tally :
    (test : Token → Bool) (sources : Dict Place) (last : String) (ts : List Token) (m : Dict Place)
    → IgnoresFit test
    → AllThere sources m
    → has last m ≡ true
    → tally test (inject_each sources last ts m) ≡ tally test m + number_of test ts
unfolding inject_each inject_token
inject_each-tally test sources last [] m blind all there = omega arith
inject_each-tally test sources last (t ∷ ts) m blind all there =
    let target = or_else (by_color t.color sources) last in
    let known : has target m ≡ true = (elim (Option-cases (by_color t.color sources)) [
      | inl uncolored ↦ rw uncolored there
      | inr (k, colored) ↦ rw colored (by_color-there t.color sources m k all colored)
    ]) in
    elim (Option-cases (lookup target m)) [
      | inl absent ↦ ground (arith, known)
      | inr (p, found) ↦
          let q : Place = record p { tokens = p.tokens ++ fitted t p ∷ [] } in
          let fits : deposit (fitted t p) p ≡ ok q = deposit_of_typed (fitted t p) p refl refl in
          let rest =
            inject_each-tally test sources last ts (insert target q m) blind
              (AllThere-insert sources m target q all)
              (ground (arith, lookup-insert target last q m, there)) in
          let one = tally-insert test target p q m found in
          let longer = number_of-snoc test p.tokens (fitted t p) in
          let same = number_of-fitted test t p (blind t p.color p.space) in
          let split = number_of-cons test t ts in
          rw (inject_each, inject_token, found)
            (rw fits (omega (arith, rest, one, longer, same, split)))
    ]

some_first : (e : String × String) (es : Dict String) → insert_by_key e es ≢ []
unfolding insert_by_key
some_first e [] h = cc
some_first e (f ∷ es) h = ground arith

fallback-none : (sources : Dict Place) → fallback sources ≡ none → sources ≡ []
unfolding fallback sort_by_key
fallback-none [] h = refl
fallback-none (e ∷ es) h =
    let pairs : Dict String = map (λ e. (e.1.id, e.0)) es in
    go (insert_by_key (e.1.id, e.0) (sort_by_key pairs))
      (some_first (e.1.id, e.0) (sort_by_key pairs)) h
  where
    go :
        (sorted : Dict String)
        → sorted ≢ []
        → (elim sorted as (λ x. Option String) [ [] ↦ none | (e ∷ es) ↦ some e.1 ]) ≡ none
        → e ∷ es ≡ []
    go [] ne h = absurd (ne refl)
    go (f ∷ fs) ne h = cc

-- If the child has a place that no transition of it writes, then the tokens that it is started with
-- arrive in it, each once and with all but its colour and space: for every test that ignores those
-- two, the child has as many more tokens that pass it as there are among the tokens given.
pub inject_tokens-tally :
    (test : Token → Bool) (ts : List Token) (child : Cpn)
    → IgnoresFit test
    → source_places child ≢ []
    → tally test (inject_tokens ts child).places ≡ tally test child.places + number_of test ts
unfolding inject_tokens source_places
inject_tokens-tally test ts child blind some_source =
    let sources = source_places child in
    let inside : AllThere sources child.places =
      AllThere-keep (λ e. not (is_output (values child.transitions) e.0)) child.places child.places
        (all_there child.places) in
    elim (Option-cases (fallback sources)) [
      | inl nowhere ↦ absurd (some_source (fallback-none sources nowhere))
      | inr (last, first) ↦
          rw (inject_tokens, first)
            (inject_each-tally test sources last ts child.places blind inside
              (fallback-there sources child.places last inside first))
    ]
