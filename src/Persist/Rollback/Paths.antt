-- ===== src/Persist/Rollback/Paths.antt =====
-- Paths below one another (persist/rollback.go).
use Prim.Native.Char.{code}
use Prim.Native.String.{◌++◌ as ◌^◌, count}
use text.Mathlib.TextLemmas.{length-append as count-append, nil-append, cons-append}
use liwaisi_assistant.Base.{
  String, Bool, true, false, not, ◌&&◌, nat_eq, ◌+◌, ◌≤◌, ◌≡◌, refl, ◌≢◌, ap, sym, ◌∙◌, inl, inr,
  Option, none, some, [], ◌∷◌, ◌++◌, ◌==◌, arith, eq_iff, eq_refl, Bool-cases, append_assoc,
  ==-of_ne,
}
use liwaisi_assistant.Persist.Artefacts.{FilePath}
use liwaisi_assistant.Persist.Rollback.{below, split_slash, join, quarantine_dir, staging_dir}

pub below-append : (d r : FilePath) → below d (d ++ r) ≡ some r
unfolding below
below-append [] r = refl
below-append (x ∷ d) r = rw (eq_refl x) (below-append d r)

pub append_of_below : (d p r : FilePath) → below d p ≡ some r → p ≡ d ++ r
unfolding below
append_of_below [] p r h = cc
append_of_below (x ∷ d) [] r h = cc
append_of_below (x ∷ d) (y ∷ p) r h = elim (Bool-cases (x == y)) [
  | inl same ↦
      let deeper : below d p ≡ some r = rw same at h in
      ground (arith, (eq_iff x y).0 same, append_of_below d p r deeper)
  | inr other ↦ absurd (no_path (rw other at h))
]
  where
    no_path : ◌≡◌ {A = Option FilePath} none (some r) → ⊥
    no_path e = cc

pub below-append-append : (s x y : FilePath) → below (s ++ x) (s ++ y) ≡ below x y
unfolding below
below-append-append [] x y = refl
below-append-append (c ∷ s) x y = rw (eq_refl c) (below-append-append s x y)

-- Neither path is below the other.
abbrev pub Apart : FilePath → FilePath → Type 0
Apart x y = (below x y ≡ none) × (below y x ≡ none)

-- What is below one of two such paths is not below the other.
pub below-Apart : (x y r : FilePath) → Apart x y → below x (y ++ r) ≡ none
unfolding below
below-Apart [] y r h = absurd (whole h.0)
  where
    whole : ◌≡◌ {A = Option FilePath} (some y) none → ⊥
    whole e = cc
below-Apart (c ∷ x) [] r h = absurd (whole h.1)
  where
    whole : ◌≡◌ {A = Option FilePath} (some (c ∷ x)) none → ⊥
    whole e = cc
below-Apart (c ∷ x) (d ∷ y) r h = elim (Bool-cases (c == d)) [
  | inr other ↦ rw other refl
  | inl same ↦
      let e : c ≡ d = (eq_iff c d).0 same in
      let back : (d == c) ≡ true = (eq_iff d c).1 (sym e) in
      let first : below x y ≡ none = rw same at h.0 in
      let second : below y x ≡ none = rw back at h.1 in rw same (below-Apart x y r (first, second))
]

pub Apart-append : (s x y : FilePath) → Apart x y → Apart (s ++ x) (s ++ y)
Apart-append s x y h = (below-append-append s x y ∙ h.0, below-append-append s y x ∙ h.1)

-- The text is one part of a path, and no special one.
unfoldable pub no_slash : String → Bool
no_slash String.[] = true
no_slash (String.◌∷◌ c s) = not (nat_eq (code c) b'/') && no_slash s

unfoldable pub is_name : String → Bool
unfolding no_slash
is_name s = no_slash s && not (s == "") && not (s == ".") && not (s == "..")

split_slash-name : (s : String) → no_slash s ≡ true → split_slash s ≡ s ∷ []
unfolding split_slash no_slash
split_slash-name String.[] h = refl
split_slash-name (String.◌∷◌ c s) h = elim (Bool-cases (nat_eq (code c) b'/')) [
  | inl slash ↦ absurd (ground (arith, slash, h))
  | inr plain ↦
      let rest = split_slash-name s (ground (arith, plain, h)) in
      rw (plain, split_slash) (rw rest refl)
]

join-name : (p : FilePath) (s : String) → is_name s ≡ true → join p s ≡ p ++ s ∷ []
unfolding join is_name
join-name p s h =
    let plain : no_slash s ≡ true = ground arith in
    rw (split_slash-name s plain, join) (ground (arith, h))

no_slash-append : (a s : String) → no_slash (a ^ s) ≡ (no_slash a && no_slash s)
unfolding no_slash
no_slash-append String.[] s = rw (nil-append s) refl
no_slash-append (String.◌∷◌ c a) s =
    let later = no_slash-append a s in rw (cons-append c a s) (rw later (ground arith))

staging_longer : (s : String) → count (".staging-" ^ s) ≡ count s + 9
staging_longer s = let longer = count-append ".staging-" s in omega (arith, longer)

staging-differs : (s t : String) → count t ≤ 2 → (".staging-" ^ s == t) ≡ false
staging-differs s t short = ==-of_ne (".staging-" ^ s) t (λ e.
    let same : count (".staging-" ^ s) ≡ count t = ap count e in
    absurd (omega (arith, staging_longer s, same, short)))

staging-is_name : (s : String) → is_name s ≡ true → is_name (".staging-" ^ s) ≡ true
unfolding is_name no_slash
staging-is_name s h =
    let plain : no_slash (".staging-" ^ s) ≡ no_slash s = no_slash-append ".staging-" s in
    let not_empty = staging-differs s "" (omega arith) in
    let not_here = staging-differs s "." (omega arith) in
    let not_up = staging-differs s ".." (omega arith) in
    ground (arith, plain, not_empty, not_here, not_up, h)

pub quarantine_dir-name :
    (root : FilePath) (s : String)
    → is_name s ≡ true
    → quarantine_dir root s ≡ root ++ "quarantine" ∷ s ∷ []
unfolding quarantine_dir
quarantine_dir-name root s h =
    join-name (root ++ "quarantine" ∷ []) s h ∙ append_assoc root ("quarantine" ∷ []) (s ∷ [])

pub staging_dir-name :
    (root : FilePath) (s : String)
    → is_name s ≡ true
    → staging_dir root s ≡ root ++ "quarantine" ∷ (".staging-" ^ s) ∷ []
unfolding staging_dir
staging_dir-name root s h =
    join-name (root ++ "quarantine" ∷ []) (".staging-" ^ s) (staging-is_name s h)
    ∙ append_assoc root ("quarantine" ∷ []) ((".staging-" ^ s) ∷ [])

staging-ne : (s : String) → (".staging-" ^ s) ≢ s
staging-ne s e =
    let longer = count-append ".staging-" s in
    let same : count (".staging-" ^ s) ≡ count s = ap count e in
    absurd (omega (arith, longer, same))

names-Apart :
    (set_id : String) (rel : FilePath)
    → Apart ("quarantine" ∷ (".staging-" ^ set_id) ∷ rel) ("quarantine" ∷ set_id ∷ [])
unfolding below
names-Apart set_id rel =
    let ne = ==-of_ne (".staging-" ^ set_id) set_id (staging-ne set_id) in
    let ne' = ==-of_ne set_id (".staging-" ^ set_id) (λ e. staging-ne set_id (sym e)) in
    (rw ne refl, rw ne' refl)

-- If the id of a set is a name, a file in the staging directory of the set is not below its quarantine directory, nor the other way.
pub staging-Apart-quarantine :
    (root rel : FilePath) (set_id : String)
    → is_name set_id ≡ true
    → Apart (staging_dir root set_id ++ rel) (quarantine_dir root set_id)
staging-Apart-quarantine root rel set_id named = rw (staging_dir-name root set_id named) (
    rw (quarantine_dir-name root set_id named) (
      rw (append_assoc root ("quarantine" ∷ (".staging-" ^ set_id) ∷ []) rel) (
        Apart-append root ("quarantine" ∷ (".staging-" ^ set_id) ∷ rel) ("quarantine" ∷ set_id ∷ [])
          (names-Apart set_id rel))))
