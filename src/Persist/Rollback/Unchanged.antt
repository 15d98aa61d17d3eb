-- ===== src/Persist/Rollback/Unchanged.antt =====
-- What a rollback that fails leaves behind (persist/rollback.go).
use liwaisi_assistant.Base.{
  String, ◌≡◌, ◌≢◌, arith, refl, ap, ◌∙◌, inl, inr, true, false, some, List, [], ◌∷◌, ◌++◌, ok,
  is_empty, Bool-cases, Option-cases, Result-cases, ◌==◌,
}
use liwaisi_assistant.Persist.Records.{StoreError}
use liwaisi_assistant.Persist.Artefacts.{FilePath, Artefact}
use liwaisi_assistant.Persist.Rollback.{
  FsMover, LedgerPort, ToolPort, Move, quarantine_dir, staging_dir, is_movable, stuck, move_each,
  into, World, Outcome, commit, staged, rollback,
}
use liwaisi_assistant.Persist.Rollback.Paths.{is_name, staging-Apart-quarantine}
use liwaisi_assistant.Persist.Rollback.Files.{
  Content, IsClear, renamed, FsLaws, renamed-renamed, Made,
}
use liwaisi_assistant.Persist.Rollback.Moves.{
  AllApart, AllClear-of_clear, move_each-Stopped, reverse_all-content,
}

append-same : (xs ys : List Move) → xs ++ ys ≡ xs → ys ≡ []
append-same [] ys h = h
append-same (x ∷ xs) ys h = append-same xs ys (ground arith)

append-more : (xs : List Move) (y : Move) → xs ++ y ∷ [] ≢ xs
append-more xs y h = let none_left = append-same xs (y ∷ []) h in cc

module _ {F : Type 0} (fs : FsMover F) (content : F → Content) (laws : FsLaws fs content) where
  module _ {L T : Type 0} (port : LedgerPort L) (tools : ToolPort T) where
    abbrev pub Unchanged : World F L T → World F L T → Type 0
    Unchanged w w' =
        (content w'.files ≡ content w.files) × (w'.ledger ≡ w.ledger) × (w'.registry ≡ w.registry)

    -- If the outcome is an error, and no move was stuck on the way back, then nothing has changed.
    abbrev FailsUnchanged : World F L T → Outcome F L T → Type 0
    FailsUnchanged w o =
        (e : StoreError) → o.0 ≡ some e → o.1.unreversed ≡ w.unreversed → Unchanged w o.1

    commit-FailsUnchanged :
        (root : FilePath) (set_id actor : String) (arts : List Artefact) (ms : List Move) (f : F)
        (w : World F L T)
        → IsClear (staging_dir root set_id) (content w.files)
        → IsClear (quarantine_dir root set_id) (content f)
        → Made fs content ms (content w.files) (content f)
        → FailsUnchanged w (commit fs port tools root set_id actor arts ms f w)
    unfolding commit
    commit-FailsUnchanged root set_id actor arts ms f w clear free made =
        let staging = staging_dir root set_id in
        let final = quarantine_dir root set_id in
        let committed = (fs.move staging final f).1 in
        elim (Option-cases (fs.move staging final f).0) [
          | inr (n, refused) ↦
              let same = laws.move_failed staging final f n refused in
              rw (refused, commit)
                (λ e h back. (
                  reverse_all-content fs content laws staging ms committed (content w.files) clear
                      (rw same made) (append-same w.unreversed (stuck fs ms committed) back),
                  refl,
                  refl,
                ))
          | inl done ↦ elim (Result-cases (port.rollback set_id final actor w.ledger)) [
            | inl (l, noted) ↦ rw (done, commit) (rw noted (λ e h back. cc))
            | inr (x, fails) ↦
                let back = (fs.move final staging committed).1 in
                elim (Option-cases (fs.move final staging committed).0) [
                  | inr (n, jammed) ↦
                      rw (done, commit)
                        (rw fails
                          (rw jammed (λ e h free'. absurd (append-more w.unreversed _ free'))))
                  | inl undone ↦
                      let same : content back ≡ content f =
                        laws.move_done final staging committed undone
                        ∙ (ap (renamed final staging) (laws.move_done staging final f done)
                            ∙ renamed-renamed staging final (content f) free) in
                      rw (done, commit)
                        (rw fails (
                          rw undone (λ e h free'. (
                            reverse_all-content fs content laws staging ms back (content w.files)
                                clear (rw same made)
                                (append-same w.unreversed (stuck fs ms back) free'),
                            refl,
                            refl,
                          ))))
                ]
          ]
        ]

    staged-FailsUnchanged :
        (root : FilePath) (set_id actor : String) (arts : List Artefact) (f : F) (w : World F L T)
        → content f ≡ content w.files
        → IsClear (staging_dir root set_id) (content w.files)
        → IsClear (quarantine_dir root set_id) (content w.files)
        → AllApart root arts
        → is_name set_id ≡ true
        → FailsUnchanged w (staged fs port tools root set_id actor arts f w)
    unfolding staged
    staged-FailsUnchanged root set_id actor arts f w same clear free apart named =
        let staging = staging_dir root set_id in
        let moved = move_each fs root is_movable (into staging) arts [] f in
        let stopped =
          move_each-Stopped fs content laws root staging (quarantine_dir root set_id) arts [] f
            (content w.files) (λ x. staging-Apart-quarantine root x set_id named) apart
            (AllClear-of_clear root staging arts (content f) (rw same clear)) (rw same free) same in
        elim (Option-cases moved.0) [
          | inl done ↦
              rw (done, staged)
                (commit-FailsUnchanged root set_id actor arts moved.1 moved.2 w clear stopped.1
                  stopped.0)
          | inr (x, fails) ↦
              rw (fails, staged)
                (λ e h back. (
                  reverse_all-content fs content laws staging moved.1 moved.2 (content w.files)
                      clear stopped.0 (append-same w.unreversed (stuck fs moved.1 moved.2) back),
                  refl,
                  refl,
                ))
        ]

    known-FailsUnchanged :
        (root : FilePath) (set_id actor : String) (w : World F L T) (arts : List Artefact)
        → IsClear (staging_dir root set_id) (content w.files)
        → AllApart root arts
        → is_name set_id ≡ true
        → (set_id == "") ≡ false
        → is_empty root ≡ false
        → port.set_for_set set_id w.ledger ≡ ok arts
        → FailsUnchanged w (rollback fs port tools root set_id actor w)
    unfolding rollback
    known-FailsUnchanged root set_id actor w arts clear apart plain named rooted known =
        let made = fs.mkdir_all (staging_dir root set_id) w.files in
        let same = laws.mkdir_content (staging_dir root set_id) w.files in
        rw (named, rollback)
          (rw rooted (
            rw known (elim (Bool-cases (is_empty arts)) [
              | inl nothing ↦ rw nothing (λ e h back. (refl, refl, refl))
              | inr something ↦ elim (Bool-cases (fs.exists (quarantine_dir root set_id) w.files)) [
                | inl gone ↦ rw something (rw gone (λ e h back. (refl, refl, refl)))
                | inr fresh ↦ elim (Option-cases made.0) [
                  | inr (n, refused) ↦
                      rw something (rw fresh (rw refused (λ e h back. (same, refl, refl))))
                  | inl done ↦ rw something (
                      rw fresh (
                        rw done (
                          staged-FailsUnchanged root set_id actor arts made.1 w same clear
                            (laws.exists_clear (quarantine_dir root set_id) w.files fresh) apart
                            plain)))
                ]
              ]
            ])))

    -- If the file system keeps its laws, the id of the set is one plain name, the staging directory of
    -- the set is clear, and no two artefacts of the set that are moved have the same path or one below
    -- the other, then a rollback that answers with an error, whichever, and that logs no move as one
    -- that it could not take back, leaves all files, the ledger and the tools as they were.
    pub rollback_error-Unchanged :
        (root : FilePath) (set_id actor : String) (w : World F L T) (e : StoreError)
        → is_name set_id ≡ true
        → IsClear (staging_dir root set_id) (content w.files)
        → ((arts : List Artefact) → port.set_for_set set_id w.ledger ≡ ok arts → AllApart root arts)
        → (rollback fs port tools root set_id actor w).0 ≡ some e
        → (rollback fs port tools root set_id actor w).1.unreversed ≡ w.unreversed
        → Unchanged w (rollback fs port tools root set_id actor w).1
    unfolding rollback
    rollback_error-Unchanged root set_id actor w e plain clear apart fails back =
        elim (Bool-cases (set_id == "")) [
          | inl unnamed ↦ rw (unnamed, rollback) (refl, refl, refl)
          | inr named ↦ elim (Bool-cases (is_empty root)) [
            | inl rootless ↦ rw (named, rollback) (rw rootless (refl, refl, refl))
            | inr rooted ↦ elim (Result-cases (port.set_for_set set_id w.ledger)) [
              | inr (x, unknown) ↦ rw (named, rollback) (rw rooted (rw unknown (refl, refl, refl)))
              | inl (arts, known) ↦
                  known-FailsUnchanged root set_id actor w arts clear (apart arts known) plain named
                    rooted known e fails back
            ]
          ]
        ]
