-- ===== src/Gate/Introspection.antt =====
-- The commands that brae-awakens may run: back/go-assistant/cpn/awakens/introspection.go, and the
-- sessions that run it, back/go-assistant/infra/host/gate/awakening_mode.go.
use text.Mathlib.Text.{starts_with}
use liwaisi_assistant.Base.{
  String, Bool, false, ◌||◌, Option, none, some, List, [], ◌∷◌, Dict, insert, delete, has, any,
  if◌then◌else◌, ◌==◌,
}
use liwaisi_assistant.Base.Text.{trim_space, contains_text, cut_at_space}
use liwaisi_assistant.Gate.Matcher.{collapse_whitespace}

abbrev pub allow_commands : List String
allow_commands = "uname" ∷ "whoami" ∷ "id" ∷ "env" ∷ "printenv" ∷ "hostname" ∷ "arch" ∷ []

abbrev pub allow_prefixes : List String
allow_prefixes =
    "command -v " ∷ "which " ∷ "ls " ∷ "cat /etc/" ∷ "cat /proc/" ∷ "head -n " ∷ "tail -n "
    ∷ "busybox --list" ∷ "getconf " ∷ []

abbrev pub deny_tokens : List String
deny_tokens =
    ">" ∷ ">>" ∷ "|" ∷ "&&" ∷ "||" ∷ ";" ∷ "$(" ∷ "`" ∷ "/data/secrets" ∷ "/.ssh" ∷ ".env" ∷ ".."
    ∷ []

abbrev pub first_word : String → String
first_word s = elim (cut_at_space s) [ none ↦ s | some cut ↦ cut.0 ]

unfoldable pub is_introspection : String → Bool
is_introspection command =
    let norm = collapse_whitespace (trim_space command) in
    if norm == ""
    then false
    else if any (contains_text norm) deny_tokens
    then false
    else any (λ c. c == first_word norm) allow_commands || any (starts_with norm) allow_prefixes

-- The sessions in awakening mode; a registry that is nil holds none.
abbrev pub Awakening : Type 0
Awakening = Option (Dict (Unit {0}))

unfoldable pub begin_awakening : String → Awakening → Awakening
begin_awakening session none = none
begin_awakening session (some m) = if session == "" then some m else some (insert session tt m)

unfoldable pub end_awakening : String → Awakening → Awakening
end_awakening session none = none
end_awakening session (some m) = if session == "" then some m else some (delete session m)

unfoldable pub is_awakening : String → Awakening → Bool
is_awakening session none = false
is_awakening session (some m) = if session == "" then false else has session m
