-- ===== src/Persist/Rollback/Files.antt =====
-- What the file system promises of a move, and how moves are undone (persist/rollback.go).
use mathlib.Core.Path.{fun_ext}
use liwaisi_assistant.Base.{
  ℕ, String, ◌≡◌, refl, ap, sym, ◌∙◌, inl, inr, false, Option, none, some, List, [], ◌∷◌, ◌++◌,
  Option-cases, arith,
}
use liwaisi_assistant.Persist.Artefacts.{FilePath}
use liwaisi_assistant.Persist.Rollback.{FsMover, Move, below, undo, stuck}
use liwaisi_assistant.Persist.Rollback.Paths.{below-append, append_of_below}

-- The text of the file at a path.
abbrev pub Content : Type 0
Content = FilePath → Option String

-- There is no file at the path, nor below it.
abbrev pub IsClear : FilePath → Content → Type 0
IsClear d c = (r : FilePath) → c (d ++ r) ≡ none

-- All that was at the first path or below it is at the second one.
unfoldable pub renamed : (a b : FilePath) → Content → Content
renamed a b c p = elim (below b p) [
  | some r ↦ c (a ++ r)
  | none ↦ elim (below a p) [ some _ ↦ none | none ↦ c p ]
]

-- A move renames what is at the path, or fails and changes no file. A directory that is made has no
-- files, one without files is removed without a change of files, and a path that is not there has
-- none. Nothing is said on when a move succeeds.
pub record FsLaws {F : Type 0} (fs : FsMover F) (content : F → Content) : Type 0 where
  pub move_done :
      (a b : FilePath) (f : F)
      → (fs.move a b f).0 ≡ none
      → content (fs.move a b f).1 ≡ renamed a b (content f)
  pub move_failed :
      (a b : FilePath) (f : F) (e : ℕ)
      → (fs.move a b f).0 ≡ some e
      → content (fs.move a b f).1 ≡ content f
  pub mkdir_content : (d : FilePath) (f : F) → content (fs.mkdir_all d f).1 ≡ content f
  pub remove_content :
      (d : FilePath) (f : F) → IsClear d (content f) → content (fs.remove_all d f).1 ≡ content f
  pub exists_clear : (d : FilePath) (f : F) → fs.exists d f ≡ false → IsClear d (content f)

-- A rename to a place that is clear is undone by the rename back.
pub renamed-renamed : (a b : FilePath) (c : Content) → IsClear b c → renamed b a (renamed a b c) ≡ c
unfolding renamed
renamed-renamed a b c clear = fun_ext (λ p. elim (Option-cases (below a p)) [
  | inr (r, under_a) ↦
      rw (under_a, renamed)
        (rw (below-append b r, renamed) (ap c (sym (append_of_below a p r under_a))))
  | inl not_a ↦ elim (Option-cases (below b p)) [
    | inr (r, under_b) ↦
        rw (not_a, renamed) (rw under_b (sym (ap c (append_of_below b p r under_b) ∙ clear r)))
    | inl not_b ↦ rw (not_a, renamed) (rw not_b (rw (not_b, renamed) (rw not_a refl)))
  ]
])

-- A rename keeps a place clear that its target is apart from.
pub renamed-IsClear :
    (a b d : FilePath) (c : Content)
    → ((r : FilePath) → below b (d ++ r) ≡ none)
    → IsClear d c
    → IsClear d (renamed a b c)
unfolding renamed
renamed-IsClear a b d c apart clear r = elim (Option-cases (below a (d ++ r))) [
  | inr (k, under_a) ↦ rw (apart r, renamed) (rw under_a refl)
  | inl not_a ↦ rw (apart r, renamed) (rw not_a (clear r))
]

stuck-free :
    {F : Type 0} (fs : FsMover F) (m : Move) (ms : List Move) (g : F)
    → stuck fs (m ∷ ms) g ≡ []
    → ((fs.move m.to m.from g).0 ≡ none) × (stuck fs ms (fs.move m.to m.from g).1 ≡ [])
unfolding stuck
stuck-free {F} fs m ms g free = elim (Option-cases (fs.move m.to m.from g).0) [
  | inl back ↦ (back, ground (arith, back, free))
  | inr (e, fails) ↦ absurd (ground (arith, fails, free))
]

module _ {F : Type 0} (fs : FsMover F) (content : F → Content) where
  -- The content was reached from the first one by the moves, each onto a clear place.
  abbrev pub Made : List Move → Content → Content → Type 0
  Made [] c₀ c = c ≡ c₀
  Made (m ∷ ms) c₀ c =
      (f : F) × ((fs.move m.from m.to f).0 ≡ none)
      × IsClear m.to (content f)
      × (c ≡ content (fs.move m.from m.to f).1)
      × Made ms c₀ (content f)

  module _ (laws : FsLaws fs content) where
    move_back-content :
        (m : Move) (f g : F)
        → (fs.move m.from m.to f).0 ≡ none
        → IsClear m.to (content f)
        → content g ≡ content (fs.move m.from m.to f).1
        → (fs.move m.to m.from g).0 ≡ none
        → content (fs.move m.to m.from g).1 ≡ content f
    move_back-content m f g done clear same back =
        laws.move_done m.to m.from g back
        ∙ (ap (renamed m.to m.from) (same ∙ laws.move_done m.from m.to f done)
            ∙ renamed-renamed m.from m.to (content f) clear)

    -- If no move back fails, undoing the moves gives the first content again.
    pub undo-content :
        (ms : List Move) (c₀ : Content) (g : F)
        → Made ms c₀ (content g)
        → stuck fs ms g ≡ []
        → content (undo fs ms g) ≡ c₀
    unfolding undo
    undo-content [] c₀ g made free = made
    undo-content (m ∷ ms) c₀ g (f, done, clear, same, made) free =
        let (back, rest) = stuck-free fs m ms g free in
        undo-content ms c₀ (fs.move m.to m.from g).1
          (rw (move_back-content m f g done clear same back) made) rest
