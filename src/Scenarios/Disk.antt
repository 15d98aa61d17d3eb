-- ===== src/Scenarios/Disk.antt =====
-- A file system in memory, as a list of files: a move in which a locked path takes part fails.
use mathlib.Core.Path.{fun_ext}
use liwaisi_assistant.Base.{
  ℕ, String, ◌≡◌, refl, ap, sym, ◌∙◌, inl, inr, Bool, true, false, ◌&&◌, ◌||◌, Option, none, some,
  List, [], ◌∷◌, ◌++◌, any, is_some, if◌then◌else◌, ◌==◌, arith, eq_iff, eq_refl, Bool-cases,
  Option-cases,
}
use liwaisi_assistant.Persist.Artefacts.{FilePath}
use liwaisi_assistant.Persist.Rollback.{FsMover, below}
use liwaisi_assistant.Persist.Rollback.Paths.{below-append, append_of_below}
use liwaisi_assistant.Persist.Rollback.Files.{Content, IsClear, renamed, FsLaws}

abbrev pub Disk : Type 0
Disk = List (FilePath × String)

unfoldable pub same_path : FilePath → FilePath → Bool
same_path [] [] = true
same_path [] (y ∷ q) = false
same_path (x ∷ p) [] = false
same_path (x ∷ p) (y ∷ q) = x == y && same_path p q

unfoldable pub file_at : Disk → Content
unfolding same_path
file_at [] p = none
file_at (e ∷ es) p = let rest = file_at es p in if same_path e.0 p then some e.1 else rest

unfoldable pub rename_all : (a b : FilePath) → Disk → Disk
rename_all a b [] = []
rename_all a b (e ∷ es) =
    let rest = rename_all a b es in
    elim (below a e.0) [
      | some r ↦ (b ++ r, e.1) ∷ rest
      | none ↦ if is_some (below b e.0) then rest else e ∷ rest
    ]

unfoldable pub remove_below : FilePath → Disk → Disk
remove_below d [] = []
remove_below d (e ∷ es) =
    let rest = remove_below d es in if is_some (below d e.0) then rest else e ∷ rest

abbrev pub holds : Disk → FilePath → Bool
holds es d = any (λ e. is_some (below d e.0)) es

abbrev pub disk : (locked : FilePath → Bool) → FsMover Disk
disk locked = record {
  move = λ a b es. if locked a || locked b then (some 13, es) else (none, rename_all a b es);
  mkdir_all = λ d es. (none, es);
  remove_all = λ d es. (none, remove_below d es);
  exists = λ d es. holds es d;
}

same_path-eq : (p q : FilePath) → same_path p q ≡ true → p ≡ q
unfolding same_path
same_path-eq [] [] h = refl
same_path-eq [] (y ∷ q) h = cc
same_path-eq (x ∷ p) [] h = cc
same_path-eq (x ∷ p) (y ∷ q) h = ground (arith, eq_iff x y, same_path-eq p q)

same_path_refl : (p : FilePath) → same_path p p ≡ true
unfolding same_path
same_path_refl [] = refl
same_path_refl (x ∷ p) = ground (arith, eq_refl x, same_path_refl p)

same_path-append : (s p q : FilePath) → same_path (s ++ p) (s ++ q) ≡ same_path p q
unfolding same_path
same_path-append [] p q = refl
same_path-append (x ∷ s) p q = ground (arith, eq_refl x, same_path-append s p q)

-- Two paths of which only one is below a directory differ.
below-differ : (d p q r : FilePath) → below d p ≡ some r → below d q ≡ none → same_path p q ≡ false
below-differ d p q r under outside = elim (Bool-cases (same_path p q)) [
  | inr differ ↦ differ
  | inl same ↦ absurd (both (sym under ∙ (ap (below d) (same_path-eq p q same) ∙ outside)))
]
  where
    both : ◌≡◌ {A = Option FilePath} (some r) none → ⊥
    both e = cc

differ_sym : (p q : FilePath) → same_path p q ≡ false → same_path q p ≡ false
differ_sym p q h = elim (Bool-cases (same_path q p)) [
  | inr differ ↦ differ
  | inl same ↦ absurd (both (sym h ∙ (ap (same_path p) (same_path-eq q p same) ∙ same_path_refl p)))
]
  where
    both : false ≡ true → ⊥
    both e = cc

-- A path below the target of the rename.
rename_all-onto :
    (a b p r : FilePath) (es : Disk)
    → below b p ≡ some r
    → file_at (rename_all a b es) p ≡ file_at es (a ++ r)
unfolding rename_all file_at
rename_all-onto a b p r [] onto = refl
rename_all-onto a b p r (e ∷ es) onto =
    let ih = rename_all-onto a b p r es onto in
    elim (Option-cases (below a e.0)) [
      | inr (k, mine) ↦
          let new : same_path (b ++ k) p ≡ same_path k r =
            ap (same_path (b ++ k)) (append_of_below b p r onto) ∙ same_path-append b k r in
          let old : same_path e.0 (a ++ r) ≡ same_path k r =
            ap (λ q. same_path q (a ++ r)) (append_of_below a e.0 k mine)
            ∙ same_path-append a k r in
          rw (mine, rename_all, file_at) (rw new (rw old (rw ih refl)))
      | inl not_mine ↦
          let old : same_path e.0 (a ++ r) ≡ false =
            differ_sym (a ++ r) e.0 (below-differ a (a ++ r) e.0 r (below-append a r) not_mine) in
          elim (Option-cases (below b e.0)) [
            | inr (k, gone) ↦ rw (not_mine, rename_all, file_at) (rw gone (rw old ih))
            | inl not_gone ↦
                let apart : same_path e.0 p ≡ false =
                  differ_sym p e.0 (below-differ b p e.0 r onto not_gone) in
                rw (not_mine, rename_all, file_at) (rw not_gone (rw old (rw apart ih)))
          ]
    ]

-- A path that is below neither.
rename_all-else :
    (a b p : FilePath) (es : Disk)
    → below b p ≡ none
    → below a p ≡ none
    → file_at (rename_all a b es) p ≡ file_at es p
unfolding rename_all file_at
rename_all-else a b p [] not_onto not_from = refl
rename_all-else a b p (e ∷ es) not_onto not_from =
    let ih = rename_all-else a b p es not_onto not_from in
    elim (Option-cases (below a e.0)) [
      | inr (k, mine) ↦
          let new = below-differ b (b ++ k) p k (below-append b k) not_onto in
          let old = below-differ a e.0 p k mine not_from in
          rw (mine, rename_all, file_at) (rw new (rw old ih))
      | inl not_mine ↦ elim (Option-cases (below b e.0)) [
        | inr (k, gone) ↦
            let old = below-differ b e.0 p k gone not_onto in
            rw (not_mine, rename_all, file_at) (rw gone (rw old ih))
        | inl not_gone ↦
            rw (not_mine, rename_all, file_at)
              (rw not_gone (ap (λ rest. if same_path e.0 p then some e.1 else rest) ih))
      ]
    ]

-- A path that is below the source alone.
rename_all-from :
    (a b p l : FilePath) (es : Disk)
    → below b p ≡ none
    → below a p ≡ some l
    → file_at (rename_all a b es) p ≡ none
unfolding rename_all file_at
rename_all-from a b p l [] not_onto from = refl
rename_all-from a b p l (e ∷ es) not_onto from =
    let ih = rename_all-from a b p l es not_onto from in
    elim (Option-cases (below a e.0)) [
      | inr (k, mine) ↦
          let new = below-differ b (b ++ k) p k (below-append b k) not_onto in
          rw (mine, rename_all, file_at) (rw new ih)
      | inl not_mine ↦ elim (Option-cases (below b e.0)) [
        | inr (k, gone) ↦ rw (not_mine, rename_all, file_at) (rw gone ih)
        | inl not_gone ↦
            let old = differ_sym p e.0 (below-differ a p e.0 l from not_mine) in
            rw (not_mine, rename_all, file_at) (rw not_gone (rw old ih))
      ]
    ]

rename_all-content :
    (a b p : FilePath) (es : Disk) → file_at (rename_all a b es) p ≡ renamed a b (file_at es) p
unfolding renamed
rename_all-content a b p es = elim (Option-cases (below b p)) [
  | inr (r, onto) ↦ rename_all-onto a b p r es onto ∙ sym (rw (onto, renamed) refl)
  | inl not_onto ↦ elim (Option-cases (below a p)) [
    | inr (l, from) ↦
        rename_all-from a b p l es not_onto from ∙ sym (rw (not_onto, renamed) (rw from refl))
    | inl not_from ↦
        rename_all-else a b p es not_onto not_from ∙ sym (rw (not_onto, renamed) (rw not_from refl))
  ]
]

remove_below-content :
    (d p : FilePath) (es : Disk)
    → IsClear d (file_at es)
    → file_at (remove_below d es) p ≡ file_at es p
unfolding remove_below file_at
remove_below-content d p [] clear = refl
remove_below-content d p (e ∷ es) clear = elim (Option-cases (below d e.0)) [
  | inr (r, under) ↦
      absurd (held (ap is_some (sym (clear r)) ∙ (present r (append_of_below d e.0 r under))))
  | inl not_under ↦ rw not_under (
      ap (λ rest. if same_path e.0 p then some e.1 else rest)
        (remove_below-content d p es (λ r. rest_clear r)))
]
  where
    held : false ≡ true → ⊥
    held h = cc

    present : (r : FilePath) → e.0 ≡ d ++ r → is_some (file_at (e ∷ es) (d ++ r)) ≡ true
    present r h =
        let same : same_path e.0 (d ++ r) ≡ true = rw (← h) (same_path_refl e.0) in rw same refl

    rest_clear : (r : FilePath) → file_at es (d ++ r) ≡ none
    rest_clear r = elim (Bool-cases (same_path e.0 (d ++ r))) [
      | inr differ ↦ let h = clear r in rw differ at h
      | inl same ↦ let h = clear r in absurd (cc)
    ]

holds-clear : (d : FilePath) (es : Disk) → holds es d ≡ false → IsClear d (file_at es)
unfolding file_at
holds-clear d [] h r = refl
holds-clear d (e ∷ es) h r = elim (Option-cases (below d e.0)) [
  | inr (k, under) ↦ absurd (cc)
  | inl not_under ↦
      let differ : same_path e.0 (d ++ r) ≡ false =
        differ_sym (d ++ r) e.0 (below-differ d (d ++ r) e.0 r (below-append d r) not_under) in
      rw differ (holds-clear d es (rw not_under at h) r)
]

pub disk-FsLaws : (locked : FilePath → Bool) → FsLaws (disk locked) file_at
disk-FsLaws locked = record {
  move_done = λ a b es done. elim (Bool-cases (locked a || locked b)) [
    | inl shut ↦ absurd (no_error (rw shut at done))
    | inr free ↦ rw free (fun_ext (λ p. rename_all-content a b p es))
  ];
  move_failed = λ a b es e fails. elim (Bool-cases (locked a || locked b)) [
    | inl shut ↦ rw shut refl
    | inr free ↦ absurd (error_none (rw free at fails))
  ];
  mkdir_content = λ d es. refl;
  remove_content = λ d es clear. fun_ext (λ p. remove_below-content d p es clear);
  exists_clear = λ d es h. holds-clear d es h;
}
  where
    no_error : ◌≡◌ {A = Option ℕ} (some 13) none → ⊥
    no_error h = cc

    error_none : {e : ℕ} → ◌≡◌ {A = Option ℕ} none (some e) → ⊥
    error_none h = cc
