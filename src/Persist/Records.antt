-- ===== src/Persist/Records.antt =====
-- back/go-assistant/cpn/persist: the records of types.go, the errors of errors.go and a page of
-- results. Each call begins with a look at its context: `ctx` is the error that the context has. A
-- raw JSON message is a text, a price a value of a type `Usd` that only the ledger computes with.
use liwaisi_assistant.Base.{ℕ, ℤ, String, Bool, Option, none, some, List, Result, err}

pub data StoreError : Type 0 where
  canceled deadline_exceeded session_not_found session_exists session_closed : StoreError
  flow_not_found event_append_failed request_not_found ledger_not_found invalid_input : StoreError
  artefact_not_found artefact_set_empty already_rolled_back not_quarantined : StoreError
  set_id_required root_empty : StoreError
  outside_root : (path : List String) → StoreError
  fs_failed : (number : ℕ) → StoreError

-- `if err := ctx.Err(); err != nil { return err }`, and what comes after it.
abbrev pub alive {ℓ} : {A : Type ℓ} → Option StoreError → Result StoreError A → Result StoreError A
alive none rest = rest
alive (some e) rest = err e

pub record Page {ℓ} (A : Type ℓ) : Type ℓ where
  pub items : List A
  pub next_cursor : String
  pub has_more : Bool

pub data SessionState : Type 0 where
  active closed expired : SessionState

pub record MessageRecord : Type 0 where
  pub id : String
  pub session_id : String
  pub role : String
  pub content : String
  pub cpn_id : String
  pub cpn_role : String
  pub cpn_depth : ℤ
  pub timestamp : ℕ
  pub parent_message_id : String

pub record SessionRecord : Type 0 where
  pub id : String
  pub user_id : String
  pub channel : String
  pub state : SessionState
  pub created_at : ℕ
  pub last_activity_at : ℕ
  pub closed_at : Option ℕ
  pub metadata : String
  pub messages : List MessageRecord
  pub title : String
  pub deleted_at : Option ℕ
  pub forked_from_session_id : String
  pub fork_message_count : ℕ

pub record SessionListItem : Type 0 where
  pub id : String
  pub title : String
  pub state : SessionState
  pub last_message_preview : String
  pub last_activity_at : ℕ
  pub created_at : ℕ
  pub message_count : ℕ
  pub forked_from_session_id : String

pub record ListOpts : Type 0 where
  pub limit : ℤ
  pub cursor : String

pub record EventRecord : Type 0 where
  pub id : String
  pub type : String
  pub session_id : String
  pub cpn_id : String
  pub cpn_role : String
  pub cpn_depth : ℤ
  pub transition_id : String
  pub transition_kind : String
  pub token_snapshot : String
  pub payload : String
  pub timestamp : ℕ

-- A time of zero is Go's zero time, which stands for no bound.
pub record EventQueryOpts : Type 0 where
  pub session_id : String
  pub cpn_id : String
  pub event_type : String
  pub from : ℕ
  pub to : ℕ
  pub limit : ℤ
  pub cursor : String

pub record PendingRequest : Type 0 where
  pub session_id : String
  pub transition_id : String
  pub cpn_id : String
  pub cpn_role : String
  pub proposal : String
  pub created_at : ℕ
  pub expires_at : ℤ
