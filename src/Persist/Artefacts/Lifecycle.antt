-- ===== src/Persist/Artefacts/Lifecycle.antt =====
-- What the ledger makes of the states of a set (persist/artefacts_memory.go).
use liwaisi_assistant.Base.{
  ℕ, String, ◌≡◌, refl, ap, ◌∙◌, inl, inr, ◌⊎◌, Bool, true, false, ◌||◌, some, List, [], ◌∷◌, Dict,
  lookup, modify, ok, any, ◌==◌, arith, Bool-cases, lookup-modify,
}
use liwaisi_assistant.Persist.Artefacts.{
  FilePath, Artefact, ArtefactState, quarantined, purged, restored, Ledger, entries, modify_each,
  quarantine, release, is_quarantined, ledger_rollback, ledger_restore,
}

module _ (f : Artefact → Artefact) (ready good : Artefact → Bool)
    (makes : (a : Artefact) → ready a ≡ true → good (f a) ≡ true)
    (keeps : (a : Artefact) → good a ≡ true → ready a ≡ true) where
  -- What a write establishes holds at each id that is written.
  modify_each-good :
      (ids : List String) (id : String) (m : Dict Artefact) (a : Artefact)
      → lookup id m ≡ some a
      → ready a ≡ true
      → (good a ≡ true) ⊎ (any (λ j. j == id) ids ≡ true)
      → (a' : Artefact) × (lookup id (modify_each f ids m) ≡ some a') × (good a' ≡ true)
  unfolding modify_each
  modify_each-good [] id m a there fit (inl is_good) = (a, there, is_good)
  modify_each-good [] id m a there fit (inr never) = absurd (cc)
  modify_each-good (j ∷ ids) id m a there fit h = elim (Bool-cases (j == id)) [
    | inl mine ↦
        let here : lookup id (modify j f m) ≡ some (f a) =
          lookup-modify j id f m ∙ rw mine (rw there refl) in
        modify_each-good ids id (modify j f m) (f a) here (keeps (f a) (makes a fit))
          (inl (makes a fit))
    | inr other ↦
        let here : lookup id (modify j f m) ≡ some a = lookup-modify j id f m ∙ rw other there in
        modify_each-good ids id (modify j f m) a here fit (elsewhere other h)
  ]
    where
      elsewhere :
          (j == id) ≡ false
          → (good a ≡ true) ⊎ (any (λ k. k == id) (j ∷ ids) ≡ true)
          → (good a ≡ true) ⊎ (any (λ k. k == id) ids ≡ true)
      elsewhere other (inl is_good) = inl is_good
      elsewhere other (inr found) = inr (rw other at found)

abbrev is_held : Artefact → Bool
is_held a = is_quarantined a.state

abbrev is_free : ArtefactState → Bool
is_free restored = true
is_free _ = false

abbrev is_released : Artefact → Bool
is_released a = is_free a.state

abbrev held_or_released : Artefact → Bool
held_or_released a = is_held a || is_released a

release-is_released :
    (now : ℕ) (a : Artefact) → held_or_released a ≡ true → is_released (release now a) ≡ true
release-is_released now a h = elim (Bool-cases (is_quarantined a.state)) [
  | inl held ↦ rw held refl
  | inr free ↦ rw free (rw free at h)
]

or_right : (a b : Bool) → b ≡ true → (a || b) ≡ true
or_right a b h = ground arith

state_of_released : (st : ArtefactState) → is_free st ≡ true → st ≡ restored
state_of_released restored h = refl
state_of_released quarantined h = cc
state_of_released purged h = cc
state_of_released ArtefactState.pending h = cc
state_of_released ArtefactState.active h = cc

ledger_rollback_ok :
    (now : ℕ) (event_id set_id : String) (path : FilePath) (actor : String) (l l' : Ledger)
    → ledger_rollback now event_id set_id path actor l ≡ ok l'
    → (l'.artefacts ≡ modify_each (quarantine now path) (entries set_id l.by_set) l.artefacts)
      × (l'.by_set ≡ l.by_set)
unfolding ledger_rollback
ledger_rollback_ok now event_id set_id path actor l l' h = ground arith

ledger_restore_ok :
    (now : ℕ) (event_id set_id actor : String) (l l' : Ledger)
    → ledger_restore now event_id set_id actor l ≡ ok l'
    → l'.artefacts ≡ modify_each (release now) (entries set_id l.by_set) l.artefacts
unfolding ledger_restore
ledger_restore_ok now event_id set_id actor l l' h = ground arith

-- If a set is rolled back and then restored, then each artefact of the set is restored after it,
-- whatever its state was before: also one that was never written, and one that was purged.
pub ledger_restore-restored :
    (now later : ℕ) (event_id event_id' set_id : String) (path : FilePath) (actor : String)
    (l l' l'' : Ledger) (id : String) (a : Artefact)
    → ledger_rollback now event_id set_id path actor l ≡ ok l'
    → ledger_restore later event_id' set_id actor l' ≡ ok l''
    → any (λ j. j == id) (entries set_id l.by_set) ≡ true
    → lookup id l.artefacts ≡ some a
    → (a'' : Artefact) × (lookup id l''.artefacts ≡ some a'') × (a''.state ≡ restored)
ledger_restore-restored now later event_id event_id' set_id path actor l l' l'' id a back again
      member there =
    let (artefacts, by_set) = ledger_rollback_ok now event_id set_id path actor l l' back in
    let ids = entries set_id l.by_set in
    let (b, held_at, held) =
      modify_each-good (quarantine now path) (λ x. true) is_held (λ x h. refl) (λ x h. refl) ids id
        l.artefacts a there refl (inr member) in
    let there' : lookup id l'.artefacts ≡ some b = ap (lookup id) artefacts ∙ held_at in
    let ids' : any (λ j. j == id) (entries set_id l'.by_set) ≡ true =
      ap (λ m. any (λ j. j == id) (entries set_id m)) by_set ∙ member in
    let (c, released_at, released) =
      modify_each-good (release later) held_or_released is_released (release-is_released later)
        (λ x h. or_right (is_held x) (is_released x) h) (entries set_id l'.by_set) id l'.artefacts b
        there' (rw held refl) (inr ids') in
    (
      c,
      ap (lookup id) (ledger_restore_ok later event_id' set_id actor l' l'' again) ∙ released_at,
      state_of_released c.state released,
    )
