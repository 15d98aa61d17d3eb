-- ===== src/Scenarios/Dialogs.antt =====
-- The theorems on sessions and contexts, on one user's dialog.
use liwaisi_assistant.Base.{
  ℤ, ◌-◌, ◌≤◌, String, ◌≡◌, refl, ◌≢◌, true, some, List, [], ◌∷◌, ◌++◌, map, keep, length, lookup,
  insert, ok, err, arith, eq_iff,
}
use liwaisi_assistant.Errors.{already_registered, no_hitl_waiting}
use liwaisi_assistant.Token.{NodeKind, approve, HitlResponse}
use liwaisi_assistant.Transition.{new_transition}
use liwaisi_assistant.Net.{Cpn, new_cpn, Message, MessageRole, user, assistant, observer}
use liwaisi_assistant.Session.{
  Inbox, Session, web, new_session, register_hitl, register_tool_hitl, unregister_hitl,
  resolve_hitl, human_token, has_room,
}
use liwaisi_assistant.Session.Delivery.{resolve_hitl-delivers}
use liwaisi_assistant.Memory.{is_summary, filter_raw, summary_of, plain, limit, build_context}
use liwaisi_assistant.Memory.Window.{build_context-latest}
use liwaisi_assistant.Scenarios.Data.{net}

abbrev root : Cpn
root = record net {
  transitions = ("ask", new_transition "ask" NodeKind.hitl ("drafts" ∷ []) ("approvals" ∷ [])) ∷ [];
}

abbrev session : Session
session = new_session 1 "s1" "u1" web (some root)

abbrev inbox : Inbox
inbox = record { capacity = 1; waiting = 0; queue = [] }

abbrev yes_please : HitlResponse
yes_please = record { action = approve; content = "" }

abbrev waiting : Session
waiting = record session { hitl_inject = ("ask", inbox) ∷ [] }

registers : register_hitl "ask" inbox session ≡ ok waiting
unfolding register_hitl register_tool_hitl lookup insert new_session new_cpn new_transition
registers = refl

roomy : has_room inbox ≡ true
unfolding has_room
roomy = refl

not_asked : ◌≢◌ {A = String} "plan" "ask"
not_asked = ground (arith, eq_iff "plan" "ask")

resolve_hitl-delivers_example :
    (s'' : Session) × (resolve_hitl 5 true true "ask" yes_please waiting ≡ some (ok s''))
    × (lookup "ask" s''.hitl_inject
        ≡ some (record inbox { queue = inbox.queue ++ human_token 5 yes_please session ∷ [] }))
    × (lookup "plan" s''.hitl_inject ≡ lookup "plan" session.hitl_inject)
    × (register_hitl "ask" inbox s'' ≡ err (already_registered "ask"))
    × (resolve_hitl 5 true true "ask" yes_please (unregister_hitl "ask" s'')
        ≡ some (err (no_hitl_waiting "ask")))
resolve_hitl-delivers_example =
    resolve_hitl-delivers "ask" "plan" inbox session waiting 5 yes_please true registers roomy
      not_asked

abbrev said : MessageRole → String → Message
said role content = record {
  id = "";
  role = role;
  content = content;
  cpn_id = "root";
  cpn_role = "reviewer";
  cpn_depth = ℤ.pos 0;
  timestamp = 0;
  parent_message_id = "";
}

abbrev dialog : List Message
dialog = said user "hello" ∷ said assistant "hi" ∷ said observer "done" ∷ said user "again" ∷ []

build_context-latest_example :
    (before kept : List Message) × (filter_raw dialog ≡ before ++ kept)
    × (length kept ≤ limit (ℤ.pos 1))
    × (length before ≡ length (filter_raw dialog) - limit (ℤ.pos 1))
    × ((build_context "be kind" dialog (ℤ.pos 1)).messages
        ≡ map summary_of (keep (λ m. is_summary m.role) dialog) ++ map plain kept)
build_context-latest_example = build_context-latest "be kind" dialog (ℤ.pos 1)
