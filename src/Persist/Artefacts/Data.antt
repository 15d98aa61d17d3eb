-- ===== src/Persist/Artefacts/Data.antt =====
-- back/go-assistant/cpn/persist/artefacts.go: the data of the ledger, and its map of lists.
use liwaisi_assistant.Base.{
  ℕ, ℤ, String, Bool, true, false, Option, none, some, List, [], ◌∷◌, ◌++◌, Dict, lookup, insert,
  is_yes,
}

abbrev pub FilePath : Type 0
FilePath = List String

-- `unset` is the empty classification of an intent.
pub data Classification : Type 0 where
  source binary config log man other unset : Classification

Classification-discrete : Discrete Classification
Classification-discrete = hlevel

unfoldable pub same_class : Classification → Classification → Bool
unfolding Classification-discrete
same_class c d = is_yes (Classification-discrete c d)

pub data ArtefactState : Type 0 where
  pending active quarantined purged restored : ArtefactState

ArtefactState-discrete : Discrete ArtefactState
ArtefactState-discrete = hlevel

unfoldable pub same_state : ArtefactState → ArtefactState → Bool
unfolding ArtefactState-discrete
same_state c d = is_yes (ArtefactState-discrete c d)

pub record WriteIntent : Type 0 where
  pub forge_run_id : String
  pub set_id : String
  pub host_id : String
  pub flow_hash : String
  pub authoring_cpn_id : String
  pub transition_id : String
  pub session_id : String
  pub classification : Classification
  pub actor : String

pub record Artefact : Type 0 where
  pub id : String
  pub path : FilePath
  pub classification : Classification
  pub set_id : String
  pub forge_run_id : String
  pub host_id : String
  pub flow_hash : String
  pub authoring_cpn_id : String
  pub transition_id : String
  pub session_id : String
  pub sha256 : String
  pub size : ℕ
  pub mime : String
  pub mode : ℕ
  pub state : ArtefactState
  pub created_at : ℕ
  pub quarantined_at : Option ℕ
  pub restored_at : Option ℕ
  pub purged_at : Option ℕ
  pub quarantine_path : FilePath

pub record ArtefactFilter : Type 0 where
  pub forge_run_id : String
  pub set_id : String
  pub classification_in : List Classification
  pub state : Option ArtefactState
  pub limit : ℤ
  pub offset : ℤ

pub data EventKind : Type 0 where
  rollback_kind restore_kind purge_kind : EventKind
  other_kind : String → EventKind

pub record ArtefactEvent : Type 0 where
  pub event_id : String
  pub set_id : String
  pub kind : EventKind
  pub actor : String
  pub at : ℕ

pub record Ledger : Type 0 where
  pub artefacts : Dict Artefact
  pub by_set : Dict (List String)
  pub by_forge : Dict (List String)
  pub events : Dict (List ArtefactEvent)

abbrev pub new_ledger : Ledger
new_ledger = record { artefacts = []; by_set = []; by_forge = []; events = [] }

-- A missing key of a map of lists is the empty list.
abbrev pub entries {ℓ} : {A : Type ℓ} → String → Dict (List A) → List A
entries k m = elim (lookup k m) [ none ↦ [] | some xs ↦ xs ]

abbrev pub append_at {ℓ} : {A : Type ℓ} → String → A → Dict (List A) → Dict (List A)
append_at k x m = insert k (entries k m ++ x ∷ []) m

abbrev pub record_at : ArtefactEvent → Ledger → Ledger
record_at e l = record l { events = append_at e.set_id e l.events }

abbrev pub is_quarantined : ArtefactState → Bool
is_quarantined quarantined = true
is_quarantined _ = false
