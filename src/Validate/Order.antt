-- ===== src/Validate/Order.antt =====
-- `Validate` (cpn/validate.go) reads of each transition only its key and its own problems.
use liwaisi_assistant.Base.{
  String, ◌≡◌, refl, ap, ◌∙◌, sym, List, [], ◌∷◌, ◌++◌, Dict, modify, map, arith,
}
use liwaisi_assistant.Errors.{Problem}
use liwaisi_assistant.Place.{Place}
use liwaisi_assistant.Transition.{Transition}
use liwaisi_assistant.Validate.{check_transition, check_all, insert_by_key, sort_by_key, validate}

module _ (places : Dict Place) where
  abbrev entry : String × Transition → String × List Problem
  entry e = (e.0, check_transition places e.1)

  abbrev view : Dict Transition → Dict (List Problem)
  view = map entry

  abbrev join : Dict (List Problem) → List Problem
  join [] = []
  join (e ∷ es) = e.1 ++ join es

  check_all-view : (es : Dict Transition) → check_all places es ≡ join (view es)
  unfolding check_all
  check_all-view [] = refl
  check_all-view (e ∷ es) = ap (λ ps. check_transition places e.1 ++ ps) (check_all-view es)

  view-insert_by_key :
      (e : String × Transition) (es : Dict Transition)
      → view (insert_by_key e es) ≡ insert_by_key (entry e) (view es)
  unfolding insert_by_key
  view-insert_by_key e [] = refl
  view-insert_by_key e (f ∷ es) = ground (arith, view-insert_by_key e es)

  view-sort_by_key : (es : Dict Transition) → view (sort_by_key es) ≡ sort_by_key (view es)
  unfolding sort_by_key
  view-sort_by_key [] = refl
  view-sort_by_key (e ∷ es) =
      view-insert_by_key e (sort_by_key es) ∙ ap (insert_by_key (entry e)) (view-sort_by_key es)

  view-modify :
      (k : String) (f : Transition → Transition)
      → ((t : Transition) → check_transition places (f t) ≡ check_transition places t)
      → (es : Dict Transition) → view (modify k f es) ≡ view es
  unfolding modify
  view-modify k f same [] = refl
  view-modify k f same (e ∷ es) = ground (arith, same e.1, view-modify k f same es)

-- A write through a pointer that changes no problem of the transition changes no answer.
pub validate-modify :
    (places : Dict Place) (k : String) (f : Transition → Transition) (es : Dict Transition)
    → ((t : Transition) → check_transition places (f t) ≡ check_transition places t)
    → validate places (modify k f es) ≡ validate places es
unfolding validate
validate-modify places k f es same =
    let all : check_all places (sort_by_key (modify k f es)) ≡ check_all places (sort_by_key es) =
      check_all-view places (sort_by_key (modify k f es))
      ∙ ap (join places) (
          view-sort_by_key places (modify k f es)
          ∙ ap sort_by_key (view-modify places k f same es)
          ∙ sym (view-sort_by_key places es))
      ∙ sym (check_all-view places (sort_by_key es)) in
    rw (all, validate)
