-- ===== src/Persist/Preview.antt =====
-- back/go-assistant/cpn/persist/preview.go. The reading of a title out of a JSON payload is the
-- parameter `title_of`, trimmed, and "" where there is none. A text is cut between characters, where
-- Go cuts between bytes.
use Prim.Native.String.{len, slice}
use text.Mathlib.Text.{starts_with}
use liwaisi_assistant.Base.Text.{trim_space, contains_text}
use liwaisi_assistant.Base.{ℕ, String, Bool, ◌&&◌, ◌||◌, List, [], ◌∷◌, ltb, if◌then◌else◌, ◌==◌}

abbrev pub marker : String
marker = "$$a2ui:"

abbrev pub preview_max_len : ℕ
preview_max_len = 120

unfoldable pub looks_like_routing_json : String → Bool
unfolding contains_text
looks_like_routing_json s =
    starts_with s "{"
    && (contains_text s "\"restated_goal\"" || contains_text s "\"classification\"")

unfoldable pub truncate_preview : String → String
truncate_preview s = if ltb preview_max_len (len s) then slice s 0 preview_max_len else s

unfoldable pub renderable_preview : (title_of : String → String) → List String → String
renderable_preview title_of [] = ""
renderable_preview title_of (raw ∷ older) =
    let s = trim_space raw in
    let rest = renderable_preview title_of older in
    let title = title_of (slice s (len marker) (len s)) in
    if s == ""
    then rest
    else if starts_with s marker
    then (if title == "" then rest else truncate_preview title)
    else if looks_like_routing_json s
    then rest
    else truncate_preview s
