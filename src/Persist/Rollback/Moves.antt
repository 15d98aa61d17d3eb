-- ===== src/Persist/Rollback/Moves.antt =====
-- The moves of a rollback into the staging directory, and the way back (persist/rollback.go).
use liwaisi_assistant.Base.{
  ◌≡◌, refl, ◌∙◌, inl, inr, true, Option, some, List, [], ◌∷◌, ◌++◌, All, Bool-cases, Option-cases,
  append_assoc,
}
use liwaisi_assistant.Persist.Records.{StoreError}
use liwaisi_assistant.Persist.Artefacts.{FilePath, Artefact}
use liwaisi_assistant.Persist.Rollback.{
  FsMover, Move, relative, is_movable, undo, stuck, move_each, into, reverse_all,
}
use liwaisi_assistant.Persist.Rollback.Paths.{Apart, Apart-append, below-Apart}
use liwaisi_assistant.Persist.Rollback.Files.{
  Content, IsClear, renamed, FsLaws, renamed-IsClear, Made, undo-content,
}

-- The artefact is moved, as a file of this path below the root.
abbrev pub MovesAs : (root : FilePath) → Artefact → FilePath → Type 0
MovesAs root art rel = (is_movable art.state ≡ true) × (relative root art.path ≡ some rel)

-- No two artefacts that are moved have the same path, or one below the other.
abbrev pub AllApart : (root : FilePath) → List Artefact → Type 0
AllApart root [] = Unit
AllApart root (art ∷ arts) =
    All (λ other. (x y : FilePath) → MovesAs root art x → MovesAs root other y → Apart x y) arts
    × AllApart root arts

-- The place of each artefact in a directory is clear.
abbrev pub AllClear : (root dir : FilePath) → List Artefact → Content → Type 0
AllClear root dir arts c =
    All (λ art. (x : FilePath) → MovesAs root art x → IsClear (dir ++ x) c) arts

IsClear-append : (d x : FilePath) (c : Content) → IsClear d c → IsClear (d ++ x) c
IsClear-append d x c clear r = rw (append_assoc d x r) (clear (x ++ r))

pub AllClear-of_clear :
    (root dir : FilePath) (arts : List Artefact) (c : Content)
    → IsClear dir c
    → AllClear root dir arts c
AllClear-of_clear root dir [] c clear = tt
AllClear-of_clear root dir (art ∷ arts) c clear =
    ((λ x moves. IsClear-append dir x c clear), AllClear-of_clear root dir arts c clear)

-- A move of one artefact keeps the places of the others clear.
renamed-AllClear :
    (root dir from x : FilePath) (art : Artefact) (arts : List Artefact) (c : Content)
    → MovesAs root art x
    → All (λ other. (k y : FilePath) → MovesAs root art k → MovesAs root other y → Apart k y) arts
    → AllClear root dir arts c
    → AllClear root dir arts (renamed from (dir ++ x) c)
renamed-AllClear root dir from x art [] c moves apart clear = tt
renamed-AllClear root dir from x art (other ∷ arts) c moves apart clear = (
  (λ y moves'.
      renamed-IsClear from (dir ++ x) (dir ++ y) c
        (λ r. below-Apart (dir ++ x) (dir ++ y) r (Apart-append dir x y (apart.0 x y moves moves')))
        (clear.0 y moves')),
  renamed-AllClear root dir from x art arts c moves apart.1 clear.1,
)

module _ {F : Type 0} (fs : FsMover F) (content : F → Content) (laws : FsLaws fs content) where
  -- What holds when the moves stop: they were made from the first content, and the directory that is
  -- apart from all targets is still clear.
  abbrev pub Stopped : (c₀ : Content) (away : FilePath) → Option StoreError × List Move × F → Type 0
  Stopped c₀ away s = Made fs content s.1 c₀ (content s.2) × IsClear away (content s.2)

  pub move_each-Stopped :
      (root dir away : FilePath) (arts : List Artefact) (ms : List Move) (f : F) (c₀ : Content)
      → ((x : FilePath) → Apart (dir ++ x) away)
      → AllApart root arts
      → AllClear root dir arts (content f)
      → IsClear away (content f)
      → Made fs content ms c₀ (content f)
      → Stopped c₀ away (move_each fs root is_movable (into dir) arts ms f)
  unfolding move_each
  move_each-Stopped root dir away [] ms f c₀ far apart clear free made = (made, free)
  move_each-Stopped root dir away (art ∷ arts) ms f c₀ far apart clear free made =
      elim (Bool-cases (is_movable art.state)) [
        | inr stays ↦
            rw (stays, move_each)
              (move_each-Stopped root dir away arts ms f c₀ far apart.1 clear.1 free made)
        | inl moves ↦ elim (Option-cases (relative root art.path)) [
          | inl outside ↦ rw (moves, move_each) (rw outside (made, free))
          | inr (x, inside) ↦
              let dst = dir ++ x in
              let next = (fs.move art.path dst f).1 in
              elim (Option-cases (fs.move art.path dst f).0) [
                | inr (e, fails) ↦
                    let same = laws.move_failed art.path dst f e fails in
                    rw (moves, move_each) (rw inside (rw fails (rw same (made, free))))
                | inl done ↦
                    let new = laws.move_done art.path dst f done in
                    let empty = clear.0 x (moves, inside) in
                    let clear' : AllClear root dir arts (content next) = rw new (
                      renamed-AllClear root dir art.path x art arts (content f) (moves, inside)
                        apart.0 clear.1) in
                    let free' : IsClear away (content next) = rw new (
                      renamed-IsClear art.path dst away (content f)
                        (λ r. below-Apart dst away r (far x)) free) in
                    rw (moves, move_each)
                      (rw inside (
                        rw done (
                          move_each-Stopped root dir away arts
                            (record { from = art.path; to = dst } ∷ ms) next c₀ far apart.1 clear'
                            free' (f, done, empty, refl, made))))
              ]
        ]
      ]

  pub reverse_all-content :
      (staging : FilePath) (ms : List Move) (f : F) (c₀ : Content)
      → IsClear staging c₀
      → Made fs content ms c₀ (content f)
      → stuck fs ms f ≡ []
      → content (reverse_all fs staging ms f) ≡ c₀
  unfolding reverse_all
  reverse_all-content staging ms f c₀ clear made free =
      let undone = undo-content fs content laws ms c₀ f made free in
      laws.remove_content staging (undo fs ms f) (rw undone clear) ∙ undone
