-- ===== src/Scenarios/Stores.antt =====
-- The theorems on the stores, on a session with a few messages, events and requests.
use liwaisi_assistant.Base.{
  ℕ, pos, String, ◌≡◌, refl, ◌≢◌, Option, none, some, List, [], ◌∷◌, ◌++◌, lookup, arith, eq_iff,
}
use liwaisi_assistant.Base.Values.{AllValues}
use liwaisi_assistant.Persist.Records.{
  StoreError, canceled, active, MessageRecord, SessionRecord, EventRecord, EventQueryOpts,
  PendingRequest, request_not_found,
}
use liwaisi_assistant.Persist.Paging.{limit_or}
use liwaisi_assistant.Persist.Walk.{walk}
use liwaisi_assistant.Persist.Events.{Events, all_present, append}
use liwaisi_assistant.Persist.Events.Pages.{session_page, query_by_session-walk}
use liwaisi_assistant.Persist.Requests.{pull, split_expired, before, is_for}
use liwaisi_assistant.Persist.Requests.Queues.{
  Call, enqueue_call, dequeue_call, list_call, expire_call, done, taken, listed, counted, refused,
  store_run, queues_run,
}
use liwaisi_assistant.Persist.Requests.Refines.{store_run-refines}
use liwaisi_assistant.Persist.Sessions.Calls as Calls
use liwaisi_assistant.Persist.Sessions.Unique.{IsUnique, run-AllUnique}
use liwaisi_assistant.Persist.Sessions.Extends.{Extends, run-Extends}

abbrev request : (transition : String) → (expires : ℕ) → PendingRequest
request transition expires = record {
  session_id = "s1";
  transition_id = transition;
  cpn_id = "root";
  cpn_role = "main";
  proposal = "{}";
  created_at = 1;
  expires_at = pos expires;
}

abbrev calls : List (Option StoreError × Call)
calls =
    (none, enqueue_call (request "ask" 90))
    ∷ (none, enqueue_call (request "merge" 5))
    ∷ (none, enqueue_call (request "ask" 70))
    ∷ (none, expire_call 20 10)
    ∷ (none, dequeue_call "s1" "ask")
    ∷ (some canceled, list_call "s1")
    ∷ (none, list_call "s1")
    ∷ (none, dequeue_call "s1" "merge")
    ∷ []

store_run-refines_example : store_run calls [] ≡ queues_run calls []
store_run-refines_example = store_run-refines calls

answers :
    store_run calls []
    ≡ done
      ∷ done
      ∷ done
      ∷ counted 1
      ∷ taken (request "ask" 90)
      ∷ refused canceled
      ∷ listed (request "ask" 70 ∷ [])
      ∷ refused request_not_found
      ∷ []
unfolding store_run pull split_expired before is_for
answers = refl

abbrev event : (id session : String) → EventRecord
event id session = record {
  id = id;
  type = "token_deposited";
  session_id = session;
  cpn_id = "root";
  cpn_role = "main";
  cpn_depth = pos 0;
  transition_id = "ask";
  transition_kind = "hitl";
  token_snapshot = "{}";
  payload = "{}";
  timestamp = 3;
}

abbrev opts : EventQueryOpts
opts = record {
  session_id = "";
  cpn_id = "";
  event_type = "";
  from = 0;
  to = 0;
  limit = pos 2;
  cursor = "";
}

abbrev old : Events
old = event "e1" "s1" ∷ event "e2" "s2" ∷ []

abbrev new : Events
new = event "e3" "s1" ∷ event "e4" "s1" ∷ []

query_by_session-walk_example :
    walk 4 (session_page "s1" opts (old ++ new)) "" ≡ some (event "e1" "s1" ∷ new)
query_by_session-walk_example =
    query_by_session-walk "s1" opts (some (event "e3" "s1") ∷ some (event "e4" "s1") ∷ []) new old
      (old ++ new) (unfold all_present in refl) (unfold append all_present in refl)
      (unfold limit_or in omega arith)

abbrev message : (id content : String) → MessageRecord
message id content = record {
  id = id;
  session_id = "s1";
  role = "user";
  content = content;
  cpn_id = "root";
  cpn_role = "main";
  cpn_depth = pos 0;
  timestamp = 4;
  parent_message_id = "";
}

abbrev dialog : SessionRecord
dialog = record {
  id = "s1";
  user_id = "u1";
  channel = "web";
  state = active;
  created_at = 1;
  last_activity_at = 1;
  closed_at = none;
  metadata = "";
  messages = message "m1" "hello" ∷ [];
  title = "Plan";
  deleted_at = none;
  forked_from_session_id = "";
  fork_message_count = 0;
}

abbrev session_calls : List (Option StoreError × Calls.Call)
session_calls =
    (none, Calls.creates dialog)
    ∷ (none, Calls.appends "s1" (message "m2" "more"))
    ∷ (some canceled, Calls.closes 7 "s1")
    ∷ (none, Calls.appends "s1" (message "m2" "again"))
    ∷ (none, Calls.forks 8 "s2" "s1" (pos 0) "u1" "web")
    ∷ []

run-AllUnique_example : AllValues IsUnique (Calls.run session_calls [])
run-AllUnique_example = run-AllUnique session_calls ((refl, tt), (tt, (tt, (tt, (tt, tt)))))

not_s1 : ◌≢◌ {A = String} "s2" "s1"
not_s1 = ground (arith, eq_iff "s2" "s1")

run-Extends_example : Extends "s1" dialog (Calls.run session_calls (("s1", dialog) ∷ []))
run-Extends_example =
    run-Extends session_calls "s1" dialog (("s1", dialog) ∷ []) (tt, (tt, (tt, (tt, (not_s1, tt)))))
      (unfold lookup in refl)
