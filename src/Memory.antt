-- ===== src/Memory.antt =====
-- back/go-assistant/cpn/memory.go: the context of one call of a language model. The summaries of
-- child nets come first, then the latest turns of the conversation. `len` counts the bytes of a text,
-- as Go's does. A window of more than 2 ^ 62 turns, where Go's doubling overflows, is not modelled.
pub mod Window
use Prim.Native.String.{len, ◌++◌ as ◌^◌}
use liwaisi_assistant.Base.{
  drop, ℕ, zero, suc, ℤ, ◌+◌, ◌-◌, ◌*◌, ◌/◌, String, Bool, true, false, ◌||◌, List, [], ◌∷◌, ◌++◌,
  map, keep, length,
}
use liwaisi_assistant.Net.{Message, MessageRole, user, assistant, observer}

-- The fields of an `LLMMessage` that are set here.
pub record LlmMessage : Type 0 where
  pub role : String
  pub content : String

pub record ContextWindow : Type 0 where
  pub system_prompt : String
  pub messages : List LlmMessage
  pub input_token_estimate : ℕ

abbrev pub role_name : MessageRole → String
role_name user = "user"
role_name assistant = "assistant"
role_name observer = "observer"

abbrev pub is_summary : MessageRole → Bool
is_summary observer = true
is_summary _ = false

abbrev pub is_turn : MessageRole → Bool
is_turn user = true
is_turn assistant = true
is_turn _ = false

unfoldable pub filter_raw : List Message → List Message
filter_raw = keep (λ m. is_turn m.role)

unfoldable pub estimate_messages : List LlmMessage → ℕ
estimate_messages [] = 0
estimate_messages (m ∷ ms) = len m.content / 4 + 4 + estimate_messages ms

unfoldable pub estimate_tokens : (system_prompt : String) → List LlmMessage → ℕ
estimate_tokens system_prompt ms = len system_prompt / 4 + estimate_messages ms

-- The first loop: a message for each summary.
unfoldable pub summary_of : Message → LlmMessage
summary_of m = record {
  role = "assistant";
  content = "[Summary from " ^ m.cpn_role ^ "]: " ^ m.content;
}

abbrev pub plain : Message → LlmMessage
plain m = record { role = role_name m.role; content = m.content }

-- Twice the number of turns, and nothing for a size of 0 or less.
abbrev pub limit : ℤ → ℕ
limit (ℤ.pos n) = n * 2
limit (ℤ.negsuc n) = 0

-- The latest turns. The subtraction on ℕ keeps all of them where there are no more than the limit.
unfoldable pub latest : ℤ → List Message → List Message
latest size raw = drop (length raw - limit size) raw

unfoldable pub build_context :
    (system_prompt : String) → List Message → (context_window_size : ℤ) → ContextWindow
build_context system_prompt history size =
    let observers = map summary_of (keep (λ m. is_summary m.role) history) in
    let messages = observers ++ map plain (latest size (filter_raw history)) in
    record {
      system_prompt = system_prompt;
      messages = messages;
      input_token_estimate = estimate_tokens system_prompt messages;
    }
