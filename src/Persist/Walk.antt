-- ===== src/Persist/Walk.antt =====
-- A client of the pages: it asks for the next page as long as there is one (persist/memory.go).
use liwaisi_assistant.Base.{
  ℕ, pos, zero, suc, ◌+◌, ◌≤◌, ◌<◌, String, ◌≡◌, refl, true, false, Option, none, some, List, ◌++◌,
  ltb, leb, length, take, drop, ◌==◌, Bool-cases, leb→le, inl, inr, arith, eq_iff, take-append-drop,
  drop-add, drop_all, ◌∙◌, ap, sym,
}
use liwaisi_assistant.Base.Decimal.{atoi, itoa, int_limit, atoi-itoa}
use liwaisi_assistant.Persist.Records.{Page}
use liwaisi_assistant.Persist.Paging.{offset_of, no_items, cut}

offset_of-itoa : (n : ℕ) → n < int_limit → offset_of (itoa n) ≡ pos n
unfolding offset_of
offset_of-itoa n h = elim (Bool-cases (itoa n == "")) [
  | inr text ↦ rw (text, atoi-itoa n h) refl
  | inl blank ↦ absurd (never ((eq_iff (itoa n) "").0 blank))
]
  where
    never : itoa n ≡ "" → ⊥
    never e =
        let read : atoi "" ≡ some (pos n) = ap atoi (sym e) ∙ atoi-itoa n h in unfold atoi in cc

module _ {ℓ} {A : Type ℓ} where
  -- What the pages hold together, from the page at a cursor on; `none` is a panic, or fuel that ran
  -- out.
  unfoldable pub walk : (fuel : ℕ) → (page_at : String → Option (Page A)) → String → Option (List A)
  walk zero page_at cursor = none
  walk (suc fuel) page_at cursor = elim (page_at cursor) [
    | none ↦ none
    | some page ↦ elim page.has_more [
      | false ↦ some page.items
      | true ↦ elim (walk fuel page_at page.next_cursor) [
        | none ↦ none
        | some later ↦ some (page.items ++ later)
      ]
    ]
  ]

  pub walk-cut :
      (limit fuel offset : ℕ) (cursor : String) (xs : List A)
      → 0 < limit
      → length xs + limit < int_limit
      → offset_of cursor ≡ pos offset
      → offset ≤ length xs
      → length xs < offset + fuel
      → walk fuel (λ c. cut limit (offset_of c) xs) cursor ≡ some (drop offset xs)
  unfolding cut walk
  walk-cut limit zero offset cursor xs pl fits at inside enough = absurd (omega arith)
  walk-cut limit (suc fuel) offset cursor xs pl fits at inside enough =
      elim (Bool-cases (leb (length xs) offset)) [
        | inl past ↦
            let page : cut limit (offset_of cursor) xs ≡ some no_items = rw at (rw past refl) in
            rw (walk, page) (ap some (sym (drop_all offset xs (leb→le (length xs) offset past))))
        | inr within ↦
            let bounded : leb int_limit (offset + limit) ≡ false = ground arith in
            elim (Bool-cases (ltb (offset + limit) (length xs))) [
              | inl more ↦
                  let next = itoa (offset + limit) in
                  let page : cut limit (offset_of cursor) xs
                      ≡ some (record {
                        items = take limit (drop offset xs);
                        next_cursor = next;
                        has_more = true;
                      }) =
                    rw at (rw (within, bounded, more) refl) in
                  let later =
                    walk-cut limit fuel (offset + limit) next xs pl fits
                      (offset_of-itoa (offset + limit) (ground arith)) (ground arith)
                      (ground arith) in
                  rw (walk, page)
                    (rw (walk, later)
                      (ap some (
                        ap (λ rest. take limit (drop offset xs) ++ rest) (drop-add offset limit xs)
                        ∙ take-append-drop limit (drop offset xs))))
              | inr last ↦
                  let page : cut limit (offset_of cursor) xs
                      ≡ some
                          (record { items = drop offset xs; next_cursor = ""; has_more = false }) =
                    rw at (rw (within, bounded, last) refl) in
                  rw (walk, page) refl
            ]
      ]
