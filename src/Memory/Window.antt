-- ===== src/Memory/Window.antt =====
-- Which messages a context holds, and how far its token estimate is from their bytes
-- (cpn/memory.go).
use Prim.Native.String.{len}
use liwaisi_assistant.Base.{
  drop, ℕ, zero, suc, ℤ, ◌+◌, ◌-◌, ◌*◌, ◌≤◌, ◌≡◌, refl, ap, ◌∙◌, length-append, String, List, [],
  ◌∷◌, ◌++◌, map, keep, length, arith,
}
use liwaisi_assistant.Net.{Message}
use liwaisi_assistant.Memory.{
  LlmMessage, is_summary, filter_raw, estimate_messages, estimate_tokens, summary_of, plain, limit,
  latest, build_context,
}

drop-suffix {ℓ} :
    {A : Type ℓ} (n : ℕ) (xs : List A) → (before : List A) × (xs ≡ before ++ drop n xs)
drop-suffix zero xs = ([], refl)
drop-suffix (suc n) [] = ([], refl)
drop-suffix (suc n) (x ∷ xs) = let (before, e) = drop-suffix n xs in (x ∷ before, ground (arith, e))

length-drop {ℓ} : {A : Type ℓ} (n : ℕ) (xs : List A) → length (drop n xs) ≡ length xs - n
length-drop zero xs = omega arith
length-drop (suc n) [] = omega arith
length-drop (suc n) (x ∷ xs) = omega (arith, length-drop n xs)

-- The turns of a history split into older ones and kept ones, where the older ones are exactly those
-- beyond twice the window size, and the context is a summary message for each summary of the history,
-- then the kept turns, all in the order of the history.
pub build_context-latest :
    (system_prompt : String) (history : List Message) (size : ℤ)
    → (before kept : List Message) × (filter_raw history ≡ before ++ kept)
      × (length kept ≤ limit size)
      × (length before ≡ length (filter_raw history) - limit size)
      × ((build_context system_prompt history size).messages
          ≡ map summary_of (keep (λ m. is_summary m.role) history) ++ map plain kept)
unfolding build_context latest
build_context-latest system_prompt history size =
    let raw = filter_raw history in
    let (before, e) = drop-suffix (length raw - limit size) raw in
    let long = length-drop (length raw - limit size) raw in
    let kept = latest size raw in
    let sum : length raw ≡ length before + length kept = ap length e ∙ length-append before kept in
    (before, kept, e, omega (arith, long), omega (arith, long, sum), refl)

-- The bytes of the contents.
abbrev pub bytes : List LlmMessage → ℕ
bytes [] = 0
bytes (m ∷ ms) = len m.content + bytes ms

estimate_messages-bytes :
    (ms : List LlmMessage)
    → (4 * estimate_messages ms ≤ bytes ms + 16 * length ms)
      × (bytes ms + 13 * length ms ≤ 4 * estimate_messages ms)
unfolding estimate_messages
estimate_messages-bytes [] = (omega arith, omega arith)
estimate_messages-bytes (m ∷ ms) =
    let ih = estimate_messages-bytes ms in (omega (arith, ih), omega (arith, ih))

-- Four times the token estimate of a context is at most its bytes and 16 for each message, and at most
-- 3 less than its bytes and 13 for each message.
pub build_context-estimate :
    (system_prompt : String) (history : List Message) (size : ℤ)
    → let c = build_context system_prompt history size in
      (4 * c.input_token_estimate ≤ len system_prompt + bytes c.messages + 16 * length c.messages)
      × (len system_prompt + bytes c.messages + 13 * length c.messages
          ≤ 4 * c.input_token_estimate + 3)
unfolding build_context estimate_tokens
build_context-estimate system_prompt history size =
    let ms = (build_context system_prompt history size).messages in
    let ih = estimate_messages-bytes ms in (omega (arith, ih), omega (arith, ih))
