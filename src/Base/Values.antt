-- ===== src/Base/Values.antt =====
-- A predicate on all values of a map, and what the operations on maps keep of it.
use Prim.Native.String.{String}
use mathlib.Core.Path.{◌≡◌}
use mathlib.Core.Option.{Option, none, some}
use mathlib.Core.List.{[], ◌∷◌}
use mathlib.Core.Logic.{inl, inr}
use text.Mathlib.Text.{◌==◌}
use liwaisi_assistant.Base.Tests.{Bool-cases}
use liwaisi_assistant.Base.Lists.{All}
use liwaisi_assistant.Base.Maps.{Dict, lookup, insert, delete}

module _ {ℓ κ} {V : Type ℓ} (P : V → Type κ) where
  abbrev pub AllValues : Dict V → Type κ
  AllValues m = All (λ e. P e.1) m

  pub insert-AllValues :
      (key : String) (v : V) (m : Dict V) → P v → AllValues m → AllValues (insert key v m)
  unfolding insert
  insert-AllValues key v [] h all = (h, tt)
  insert-AllValues key v (e ∷ rest) h all = elim (Bool-cases (e.0 == key)) [
    | inl here ↦ rw here (h, all.1)
    | inr later ↦ rw later (all.0, insert-AllValues key v rest h all.1)
  ]

  pub delete-AllValues : (key : String) (m : Dict V) → AllValues m → AllValues (delete key m)
  unfolding delete
  delete-AllValues key [] all = tt
  delete-AllValues key (e ∷ rest) all = elim (Bool-cases (e.0 == key)) [
    | inl here ↦ rw here (delete-AllValues key rest all.1)
    | inr later ↦ rw later (all.0, delete-AllValues key rest all.1)
  ]

  pub lookup-AllValues :
      (key : String) (m : Dict V) (v : V) → AllValues m → lookup key m ≡ some v → P v
  unfolding lookup
  lookup-AllValues key [] v all h = absurd (no_value h)
    where
      no_value : ◌≡◌ {A = Option V} none (some v) → ⊥
      no_value e = cc
  lookup-AllValues key (e ∷ rest) v all h = elim (Bool-cases (e.0 == key)) [
    | inl here ↦ let same : some e.1 ≡ some v = rw here at h in subst_value same
    | inr later ↦
        let deeper : lookup key rest ≡ some v = rw later at h in
        lookup-AllValues key rest v all.1 deeper
  ]
    where
      subst_value : some e.1 ≡ some v → P v
      subst_value same = let eq : e.1 ≡ v = cc in rw (← eq) all.0
