-- ===== src/Net/Marking.antt =====
-- back/go-assistant/cpn/cpn.go: `TerminalPlaces` and `IsComplete`.
use liwaisi_assistant.Base.{
  String, Bool, false, not, List, values, keep, any, all, is_empty, map, if◌then◌else◌, ◌==◌,
  nat_eq,
}
use liwaisi_assistant.Place.{Place, len}
use liwaisi_assistant.Transition.{Transition}
use liwaisi_assistant.Net.Record.{Cpn}

abbrev pub member : String → List String → Bool
member pid = any (λ q. q == pid)

-- `inputRefs[pid]`: some transition reads the place.
unfoldable pub is_input : List Transition → String → Bool
is_input ts pid = any (λ t. member pid t.input_places) ts

unfoldable pub terminal_places : Cpn → List Place
unfolding is_input
terminal_places c = map (λ e. e.1) (keep (λ e. not (is_input (values c.transitions) e.0)) c.places)

unfoldable pub is_complete : Cpn → Bool
unfolding terminal_places len
is_complete c =
    let terminals = terminal_places c in
    if is_empty terminals then false else all (λ p. not (nat_eq (len p) 0)) terminals
