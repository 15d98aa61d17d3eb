-- ===== src/Scenarios/Children.antt =====
-- The theorems on child nets, on a child of the review net.
use liwaisi_assistant.Base.{
  ℤ, ◌+◌, ◌≡◌, refl, ◌≢◌, Bool, false, some, [], ◌∷◌, lookup, nat_eq, Result, err, arith, eq_iff,
}
use liwaisi_assistant.Base.Sort.{number_of}
use liwaisi_assistant.Errors.{Error, external}
use liwaisi_assistant.Token.{Token, json, error, computation, NodeKind, Mode}
use liwaisi_assistant.Transition.{Transition, new_transition}
use liwaisi_assistant.Net.{Cpn, Message, new_cpn}
use liwaisi_assistant.Runs.Conservation.{total, tally}
use liwaisi_assistant.Runs.Typing.Deposits.{AllTyped}
use liwaisi_assistant.Runs.SameEnd.{Reported}
use liwaisi_assistant.SubNet.{source_places, is_output, inject_tokens, deposit_outputs, child_done}
use liwaisi_assistant.SubNet.Inputs.{inject_tokens-tally}
use liwaisi_assistant.SubNet.Outputs.{filled, shares, deposit_outputs-shares}
use liwaisi_assistant.SubNet.Reports.{child_done-routes}
use liwaisi_assistant.Scenarios.Data.{draft, approval, drafts, place_of, places, net}

abbrev helper : Cpn
helper =
    new_cpn "child" "helper" (ℤ.pos 1) Mode.mas "s1"
      (("task", place_of "task" json computation [])
        ∷ ("answer", place_of "answer" json computation (draft ∷ []))
        ∷ [])
      (("work", new_transition "work" NodeKind.tool ("task" ∷ []) ("answer" ∷ [])) ∷ [])

has_source : source_places helper ≢ []
unfolding source_places is_output new_cpn new_transition
has_source h = cc

-- The tokens that come from the outermost net.
abbrev from_root : Token → Bool
from_root t = elim t.origin_depth [ ℤ.pos n ↦ nat_eq n 0 | ℤ.negsuc n ↦ false ]

inject_tokens-tally_example :
    tally from_root (inject_tokens (draft ∷ approval ∷ []) helper).places
    ≡ tally from_root helper.places + number_of from_root (draft ∷ approval ∷ [])
inject_tokens-tally_example =
    inject_tokens-tally from_root (draft ∷ approval ∷ []) helper (λ t c s. refl) has_source

drafts_there : lookup "drafts" places ≡ some drafts
unfolding lookup
drafts_there = refl

deposit_outputs-shares_example :
    ((deposit_outputs ("drafts" ∷ "done" ∷ []) (approval ∷ []) places).0 ≡ 0)
    × (lookup "drafts" (deposit_outputs ("drafts" ∷ "done" ∷ []) (approval ∷ []) places).1
        ≡ some (filled drafts (shares "drafts" (approval ∷ []) ("drafts" ∷ "done" ∷ []))))
deposit_outputs-shares_example =
    deposit_outputs-shares ("drafts" ∷ "done" ∷ []) (approval ∷ []) places "drafts" drafts
      drafts_there

abbrev plain : Transition
plain = new_transition "helper" NodeKind.subnet ("drafts" ∷ []) ("done" ∷ [])

abbrev guarded : Transition
guarded = record plain { error_place = "errors" }

abbrev no_summary : Result Error Message
no_summary = err (external 7)

places-AllTyped : AllTyped net.places
unfolding new_cpn
places-AllTyped = (((refl, refl), ((refl, refl), tt)), (((refl, refl), tt), (tt, (tt, (tt, tt)))))

net-Reported : Reported net
unfolding new_cpn
net-Reported f n = cc

unguarded : plain.error_place ≡ ""
unfolding new_transition
unguarded = refl

named : guarded.error_place ≢ ""
named = ground (arith, eq_iff "errors" "")

errors_there : lookup "errors" net.places ≡ some (place_of "errors" error computation [])
unfolding lookup new_cpn
errors_there = refl

child_done-routes_example :
    (total (child_done 9 guarded helper (some (external 1)) no_summary net).places
      ≡ total net.places + 1)
    × ((child_done 9 guarded helper (some (external 1)) no_summary net).state ≡ net.state)
    × ((child_done 9 guarded helper (some (external 1)) no_summary net).error ≡ net.error)
child_done-routes_example =
    child_done-routes 9 guarded helper (external 1) no_summary net
      (place_of "errors" error computation []) named errors_there refl
