-- ===== src/Base/Sort.antt =====
-- sort.Slice, as an insertion sort: Go leaves the order of equal elements open.
use Prim.Native.Nat.{ℕ, suc, ◌≤◌}
use mathlib.Core.Path.{◌≡◌, refl}
use mathlib.Core.Bool.{Bool}
use mathlib.Core.List.{List, [], ◌∷◌}
use native.Mathlib.Omega.{arith}
use liwaisi_assistant.Base.Tests.{ltb, if◌then◌else◌}
use liwaisi_assistant.Base.Lists.{length, All, keep}

module _ {ℓ} {A : Type ℓ} where
  insert_by : (before : A → A → Bool) → A → List A → List A
  insert_by before x [] = x ∷ []
  insert_by before x (y ∷ ys) =
      let rest = insert_by before x ys in if before y x then y ∷ rest else x ∷ y ∷ ys

  unfoldable pub sort_by : (before : A → A → Bool) → List A → List A
  unfolding insert_by
  sort_by before [] = []
  sort_by before (x ∷ xs) = insert_by before x (sort_by before xs)

  length-insert_by :
      (before : A → A → Bool) (x : A) (ys : List A)
      → length (insert_by before x ys) ≡ suc (length ys)
  unfolding insert_by
  length-insert_by before x [] = refl
  length-insert_by before x (y ∷ ys) = ground (arith, length-insert_by before x ys)

  pub length-sort_by :
      (before : A → A → Bool) (xs : List A) → length (sort_by before xs) ≡ length xs
  unfolding sort_by
  length-sort_by before [] = refl
  length-sort_by before (x ∷ xs) =
      omega (arith, length-insert_by before x (sort_by before xs), length-sort_by before xs)

  module _ {κ} (P : A → Type κ) (before : A → A → Bool) where
    insert_by-All : (x : A) (ys : List A) → P x → All P ys → All P (insert_by before x ys)
    unfolding insert_by
    insert_by-All x [] h all = (h, all)
    insert_by-All x (y ∷ ys) h all = ground (arith, insert_by-All x ys)

    -- Sorting keeps what holds of every element.
    pub sort_by-All : (xs : List A) → All P xs → All P (sort_by before xs)
    unfolding sort_by
    sort_by-All [] all = all
    sort_by-All (x ∷ xs) all = insert_by-All x (sort_by before xs) all.0 (sort_by-All xs all.1)

  -- How many elements pass a test.
  abbrev pub number_of : (A → Bool) → List A → ℕ
  number_of p xs = length (keep p xs)

  number_of-insert_by :
      (p : A → Bool) (before : A → A → Bool) (x : A) (ys : List A)
      → number_of p (insert_by before x ys) ≡ number_of p (x ∷ ys)
  unfolding insert_by
  number_of-insert_by p before x [] = refl
  number_of-insert_by p before x (y ∷ ys) = ground (arith, number_of-insert_by p before x ys)

  -- Sorting is a permutation: each test passes as often as before.
  pub number_of-sort_by :
      (p : A → Bool) (before : A → A → Bool) (xs : List A)
      → number_of p (sort_by before xs) ≡ number_of p xs
  unfolding sort_by
  number_of-sort_by p before [] = refl
  number_of-sort_by p before (x ∷ xs) =
      ground
        (arith, number_of-insert_by p before x (sort_by before xs), number_of-sort_by p before xs)

  -- Every element is at least as large by the key as those before it.
  abbrev pub Ascending : (A → ℕ) → List A → Type 0
  Ascending key [] = Unit
  Ascending key (x ∷ xs) = All (λ y. key x ≤ key y) xs × Ascending key xs

  All-le :
      (key : A → ℕ) (a b : ℕ) (xs : List A)
      → a ≤ b
      → All (λ y. b ≤ key y) xs
      → All (λ y. a ≤ key y) xs
  All-le key a b [] h all = tt
  All-le key a b (x ∷ xs) h all = (omega arith, All-le key a b xs h all.1)

  insert_by-Ascending :
      (key : A → ℕ) (x : A) (ys : List A)
      → Ascending key ys
      → Ascending key (insert_by (λ a b. ltb (key a) (key b)) x ys)
  unfolding insert_by
  insert_by-Ascending key x [] asc = (tt, tt)
  insert_by-Ascending key x (y ∷ ys) asc =
      let here = insert_by-All (λ z. key y ≤ key z) (λ a b. ltb (key a) (key b)) x ys in
      let there = insert_by-Ascending key x ys asc.1 in
      let above = All-le key (key x) (key y) ys in ground (arith, here, there, above)

  pub sort_by-Ascending :
      (key : A → ℕ) (xs : List A) → Ascending key (sort_by (λ a b. ltb (key a) (key b)) xs)
  unfolding sort_by
  sort_by-Ascending key [] = tt
  sort_by-Ascending key (x ∷ xs) = insert_by-Ascending key x _ (sort_by-Ascending key xs)
