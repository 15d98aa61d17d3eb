-- ===== src/Gate/Matcher.antt =====
-- back/go-assistant/infra/host/gate/matcher.go: the normal form of a command. Its texts are read by
-- characters, where Go reads the quotes by bytes.
use Prim.Native.Char.{code}
use Prim.Native.String.{◌++◌ as ◌^◌}
use liwaisi_assistant.Base.{
  ℕ, String, Bool, true, false, ◌&&◌, ◌||◌, Option, none, some, [], ◌∷◌, any, nat_eq, if◌then◌else◌,
  ◌==◌,
}
use liwaisi_assistant.Base.Text.{
  trim_space, cut_at_space, drop_spaces, ends_with, init, contains_text,
}

-- The spaces that Go's loop puts together.
abbrev pub is_blank : ℕ → Bool
is_blank c = nat_eq c 32 || nat_eq c 9 || nat_eq c 10 || nat_eq c 13

unfoldable pub collapse : (last_space : Bool) → String → String
collapse last_space String.[] = String.[]
collapse last_space (String.◌∷◌ c s) =
    let after_space = collapse true s in
    let after_char = collapse false s in
    if is_blank (code c)
    then (if last_space then after_space else String.◌∷◌ " " after_space)
    else String.◌∷◌ c after_char

unfoldable pub collapse_whitespace : String → String
unfolding collapse
collapse_whitespace s = collapse false s

-- The first word and the rest; nothing for the empty text.
unfoldable pub split_first_token : String → Option (String × String)
split_first_token s = elim (cut_at_space s) [
  | some cut ↦ some (cut.0, drop_spaces cut.1)
  | none ↦ if s == "" then none else some (s, "")
]

abbrev pub is_quote : ℕ → Bool
is_quote c = nat_eq c b'"' || nat_eq c 39

unfoldable pub unquote : String → String
unquote String.[] = String.[]
unquote (String.◌∷◌ c String.[]) = String.◌∷◌ c String.[]
unquote (String.◌∷◌ c (String.◌∷◌ d s)) =
    if is_quote (code c) && ends_with (code c) (String.◌∷◌ d s)
    then init (String.◌∷◌ d s)
    else String.◌∷◌ c (String.◌∷◌ d s)

unfoldable pub normalise_command : String → String
unfolding collapse_whitespace split_first_token unquote
normalise_command command =
    let c = collapse_whitespace (trim_space command) in
    elim (split_first_token c) [
      | none ↦ c
      | some (head, rest) ↦ if rest == "" then unquote head else unquote head ^ " " ^ rest
    ]

unfoldable pub is_shell_wrapper_binary : String → Bool
is_shell_wrapper_binary head =
    any (λ s. s == head)
      ("sh" ∷ "bash" ∷ "/bin/sh" ∷ "/bin/bash" ∷ "/usr/bin/sh" ∷ "/usr/bin/bash" ∷ [])

unfoldable pub contains_shell_composition : String → Bool
contains_shell_composition s =
    any (contains_text s) ("&&" ∷ "||" ∷ ";" ∷ "|" ∷ ">>" ∷ ">" ∷ "<" ∷ "$(" ∷ "`" ∷ [])

-- The script of `sh -c`, if it is one plain command.
abbrev pub plain_script : String → Option String
plain_script inner =
    let script = unquote (trim_space inner) in
    if script == "" then none else if contains_shell_composition script then none else some script

abbrev pub script_of : String → Option String
script_of rest = elim (split_first_token rest) [
  | none ↦ none
  | some (flag, inner) ↦
      if inner == ""
      then none
      else if flag == "-c" || flag == "-lc"
      then plain_script inner
      else none
]

unfoldable pub unwrap_shell_wrapper : String → Option String
unfolding is_shell_wrapper_binary contains_shell_composition split_first_token unquote
unwrap_shell_wrapper command = elim (split_first_token command) [
  | none ↦ none
  | some (head, rest) ↦
      if rest == "" then none else if is_shell_wrapper_binary head then script_of rest else none
]

-- What the patterns are matched with.
unfoldable pub matched_text : String → String
unfolding normalise_command unwrap_shell_wrapper
matched_text command = elim (unwrap_shell_wrapper (normalise_command command)) [
  | none ↦ normalise_command command
  | some inner ↦ inner
]
