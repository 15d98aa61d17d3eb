-- ===== src/Persist/Paging.antt =====
-- paginate of back/go-assistant/cpn/persist/memory.go, and the same lines in the list of flows.
use liwaisi_assistant.Base.{
  ℕ, ℤ, pos, negsuc, suc, ◌+◌, String, true, false, Option, none, some, List, [], ltb, leb,
  if◌then◌else◌, length, take, drop, ◌==◌,
}
use liwaisi_assistant.Base.Decimal.{atoi, itoa, int_limit}
use liwaisi_assistant.Persist.Records.{Page, EventRecord, EventQueryOpts}

abbrev pub default_page_limit : ℕ
default_page_limit = 100

-- `if opts.Limit > 0 { limit = opts.Limit }`.
unfoldable pub limit_or : ℕ → ℤ → ℕ
limit_or default (pos (suc n)) = suc n
limit_or default _ = default

-- The offset that a cursor stands for: zero for none, or for one that is not a number.
unfoldable pub offset_of : String → ℤ
offset_of cursor =
    if cursor == "" then pos 0 else elim (atoi cursor) [ none ↦ pos 0 | some offset ↦ offset ]

module _ {ℓ} {A : Type ℓ} where
  abbrev pub no_items : Page A
  no_items = record { items = []; next_cursor = ""; has_more = false }

  -- `none` is the panic of a slice with a negative bound: of an offset below zero, or of an end that
  -- wraps around.
  unfoldable pub cut : (limit : ℕ) (offset : ℤ) → List A → Option (Page A)
  cut limit (negsuc n) xs = none
  cut limit (pos offset) xs =
      if leb (length xs) offset
      then some no_items
      else if leb int_limit (offset + limit)
      then none
      else if ltb (offset + limit) (length xs)
      then some (record {
        items = take limit (drop offset xs);
        next_cursor = itoa (offset + limit);
        has_more = true;
      })
      else some (record { items = drop offset xs; next_cursor = ""; has_more = false })

unfoldable pub paginate : List EventRecord → Option EventQueryOpts → Option (Page EventRecord)
paginate items none = cut default_page_limit (pos 0) items
paginate items (some opts) =
    cut (limit_or default_page_limit opts.limit) (offset_of opts.cursor) items
