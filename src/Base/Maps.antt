-- ===== src/Base/Maps.antt =====
-- A Go map with text keys as an association list: a write replaces the entry in place or adds one at
-- the end, so that the list has one entry for each key. The list's order stands for the order in
-- which the program walks the map, which Go leaves open.
use Prim.Native.String.{String}
use mathlib.Core.Path.{◌≡◌, refl}
use mathlib.Core.Bool.{Bool}
use mathlib.Core.Option.{Option, none, some}
use mathlib.Core.List.{List, [], ◌∷◌, map}
use native.Mathlib.Omega.{arith}
use text.Mathlib.Text.{◌==◌}
use text.Mathlib.TextEquality.{eq_iff}
use liwaisi_assistant.Base.Tests.{if◌then◌else◌, is_some}

abbrev pub Dict {ℓ} : Type ℓ → Type ℓ
Dict V = List (String × V)

module _ {ℓ} {V : Type ℓ} where
  -- `v, ok := m[k]`: the value of the first entry at the key.
  unfoldable pub lookup : (key : String) → Dict V → Option V
  lookup key [] = none
  lookup key (entry ∷ rest) = if entry.0 == key then some entry.1 else lookup key rest

  -- `m[k] = v`.
  unfoldable pub insert : (key : String) → V → Dict V → Dict V
  insert key value [] = (key, value) ∷ []
  insert key value (entry ∷ rest) =
      let written = insert key value rest in
      if entry.0 == key then (key, value) ∷ rest else entry ∷ written

  -- `delete(m, k)`.
  unfoldable pub delete : (key : String) → Dict V → Dict V
  delete key [] = []
  delete key (entry ∷ rest) =
      let remaining = delete key rest in if entry.0 == key then remaining else entry ∷ remaining

  -- A write through the pointer that the map holds at a key: nothing if there is none.
  unfoldable pub modify : (key : String) → (V → V) → Dict V → Dict V
  modify key f [] = []
  modify key f (entry ∷ rest) =
      let written = modify key f rest in
      if entry.0 == key then (entry.0, f entry.1) ∷ rest else entry ∷ written

  abbrev pub values : Dict V → List V
  values = map (λ e. e.1)

  abbrev pub keys : Dict V → List String
  keys = map (λ e. e.0)

  abbrev pub has : String → Dict V → Bool
  has k m = is_some (lookup k m)

  pub lookup-insert :
      (key other : String) (value : V) (m : Dict V)
      → lookup other (insert key value m) ≡ (if key == other then some value else lookup other m)
  unfolding lookup insert
  lookup-insert key other value [] = refl
  lookup-insert key other value (entry ∷ rest) = ground (
    arith,
    lookup-insert key other value rest,
    eq_iff entry.0 key,
    eq_iff entry.0 other,
    eq_iff key other,
  )

  pub lookup-modify :
      (key other : String) (f : V → V) (m : Dict V)
      → lookup other (modify key f m) ≡ (
          if key == other
          then elim (lookup other m) [ none ↦ none | some value ↦ some (f value) ]
          else lookup other m)
  unfolding lookup modify
  lookup-modify key other f [] = ground arith
  lookup-modify key other f (entry ∷ rest) = ground (
    arith,
    lookup-modify key other f rest,
    eq_iff entry.0 key,
    eq_iff entry.0 other,
    eq_iff key other,
  )

  pub lookup-delete :
      (key other : String) (m : Dict V)
      → lookup other (delete key m) ≡ (if key == other then none else lookup other m)
  unfolding lookup delete
  lookup-delete key other [] = ground arith
  lookup-delete key other (entry ∷ rest) = ground (
    arith,
    lookup-delete key other rest,
    eq_iff entry.0 key,
    eq_iff entry.0 other,
    eq_iff key other,
  )
