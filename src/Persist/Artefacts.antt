-- ===== src/Persist/Artefacts.antt =====
-- back/go-assistant/cpn/persist: artefacts.go, and MemoryArtefactLedger of artefacts_memory.go. A path
-- is the list of the names in it, absolute and clean. The clock and the fresh ids are arguments: a
-- call that writes an event for each set is given an id for each.
mod Data
mod Purge
pub mod Lifecycle
pub mod Overdue
unfoldable pub use Data.*
unfoldable pub use Purge.*
use Prim.Native.String.{◌++◌ as ◌^◌, compare}
use text.Mathlib.Text.{is_lt}
use liwaisi_assistant.Base.{
  ℕ, ℤ, pos, negsuc, suc, String, Bool, true, false, ◌&&◌, ◌||◌, not, Option, none, some, List, [],
  ◌∷◌, ◌++◌, Dict, lookup, insert, modify, values, Result, ok, err, ltb, leb, nat_eq, is_yes,
  if◌then◌else◌, keep, any, all, is_empty, length, take, drop, ◌==◌,
}
use liwaisi_assistant.Base.Sort.{sort_by}
use liwaisi_assistant.Persist.Records.{
  StoreError, artefact_not_found, artefact_set_empty, already_rolled_back, not_quarantined,
}

abbrev pub set_of : (id : String) → WriteIntent → String
set_of id intent = if intent.set_id == "" then "singleton-" ^ id else intent.set_id

abbrev pub class_of : Classification → Classification
class_of unset = other
class_of c = c

unfoldable pub pending_artefact :
    (now : ℕ) (id : String) → WriteIntent → FilePath → (mode : ℕ) → Artefact
pending_artefact now id intent path mode = record {
  id = id;
  path = path;
  classification = class_of intent.classification;
  set_id = set_of id intent;
  forge_run_id = intent.forge_run_id;
  host_id = intent.host_id;
  flow_hash = intent.flow_hash;
  authoring_cpn_id = intent.authoring_cpn_id;
  transition_id = intent.transition_id;
  session_id = intent.session_id;
  sha256 = "";
  size = 0;
  mime = "";
  mode = mode;
  state = pending;
  created_at = now;
  quarantined_at = none;
  restored_at = none;
  purged_at = none;
  quarantine_path = [];
}

unfoldable pub pre_write :
    (now : ℕ) (id : String) → WriteIntent → FilePath → (mode : ℕ) → Ledger → Ledger
unfolding pending_artefact
pre_write now id intent path mode l = record l {
  artefacts = insert id (pending_artefact now id intent path mode) l.artefacts;
  by_set = append_at (set_of id intent) id l.by_set;
  by_forge =
      if intent.forge_run_id == "" then l.by_forge else append_at intent.forge_run_id id l.by_forge;
}

unfoldable pub post_write :
    (id sha256 : String) (size : ℕ) (mime : String) → Ledger → Result StoreError Ledger
post_write id sha256 size mime l = elim (lookup id l.artefacts) [
  | none ↦ err artefact_not_found
  | some art ↦
      let written : Artefact = record art {
        sha256 = sha256;
        size = size;
        mime = mime;
        state = active;
      } in
      ok (record l { artefacts = insert id written l.artefacts })
]

unfoldable pub get_by_id : String → Ledger → Result StoreError Artefact
get_by_id id l = elim (lookup id l.artefacts) [ none ↦ err artefact_not_found | some art ↦ ok art ]

-- The artefacts that the ids name, in the order of the ids.
unfoldable pub resolve : Dict Artefact → List String → List Artefact
resolve m [] = []
resolve m (id ∷ ids) =
    let rest = resolve m ids in elim (lookup id m) [ none ↦ rest | some art ↦ art ∷ rest ]

abbrev pub oldest_first : List Artefact → List Artefact
oldest_first = sort_by (λ a b. ltb a.created_at b.created_at)

unfoldable pub set_for_forge_run : String → Ledger → List Artefact
unfolding resolve
set_for_forge_run forge_run_id l =
    oldest_first (resolve l.artefacts (entries forge_run_id l.by_forge))

unfoldable pub set_for_set : String → Ledger → Result StoreError (List Artefact)
unfolding resolve
set_for_set set_id l =
    let ids = entries set_id l.by_set in
    if is_empty ids then err artefact_set_empty else ok (oldest_first (resolve l.artefacts ids))

abbrev pub is_gone : ArtefactState → Bool
is_gone quarantined = true
is_gone purged = true
is_gone _ = false

-- Whether the artefact of an id is quarantined or purged, or is not there.
unfoldable pub gone_at : Dict Artefact → String → Bool
gone_at m id = elim (lookup id m) [ none ↦ true | some art ↦ is_gone art.state ]

abbrev pub quarantine : (now : ℕ) (path : FilePath) → Artefact → Artefact
quarantine now path art = record art {
  quarantined_at = some now;
  quarantine_path = path;
  state = quarantined;
}

-- A write to the artefact of each id.
unfoldable pub modify_each : (Artefact → Artefact) → List String → Dict Artefact → Dict Artefact
modify_each f [] m = m
modify_each f (id ∷ ids) m = modify_each f ids (modify id f m)

unfoldable pub ledger_rollback :
    (now : ℕ) (event_id : String)
    → (set_id : String) → FilePath
    → (actor : String) → Ledger
    → Result StoreError Ledger
unfolding gone_at modify_each
ledger_rollback now event_id set_id path actor l =
    let ids = entries set_id l.by_set in
    if is_empty ids
    then err artefact_set_empty
    else if all (gone_at l.artefacts) ids
    then err already_rolled_back
    else ok (
        record_at
          (record {
            event_id = event_id;
            set_id = set_id;
            kind = rollback_kind;
            actor = actor;
            at = now;
          })
          (record l { artefacts = modify_each (quarantine now path) ids l.artefacts }))

unfoldable pub quarantined_at_id : Dict Artefact → String → Bool
quarantined_at_id m id = elim (lookup id m) [ none ↦ false | some art ↦ is_quarantined art.state ]

abbrev pub release : (now : ℕ) → Artefact → Artefact
release now art =
    if is_quarantined art.state
    then record art { restored_at = some now; state = restored }
    else art

unfoldable pub ledger_restore :
    (now : ℕ) (event_id : String) → (set_id actor : String) → Ledger → Result StoreError Ledger
unfolding quarantined_at_id modify_each
ledger_restore now event_id set_id actor l =
    let ids = entries set_id l.by_set in
    if is_empty ids
    then err artefact_set_empty
    else if any (quarantined_at_id l.artefacts) ids
    then ok (
        record_at
          (record {
            event_id = event_id;
            set_id = set_id;
            kind = restore_kind;
            actor = actor;
            at = now;
          })
          (record l { artefacts = modify_each (release now) ids l.artefacts }))
    else err not_quarantined

unfoldable pub passes : (host_id : String) → ArtefactFilter → Artefact → Bool
passes host_id f art =
    (host_id == "" || art.host_id == host_id)
    && (f.forge_run_id == "" || art.forge_run_id == f.forge_run_id)
    && (f.set_id == "" || art.set_id == f.set_id)
    && elim f.state [ none ↦ true | some st ↦ same_state art.state st ]
    && (is_empty f.classification_in || any (same_class art.classification) f.classification_in)

abbrev pub skip : ℤ → List Artefact → List Artefact
skip (pos n) arts = drop n arts
skip (negsuc n) arts = arts

abbrev pub at_most : ℤ → List Artefact → List Artefact
at_most (pos (suc n)) arts = take (suc n) arts
at_most _ arts = arts

unfoldable pub list_by_host : (host_id : String) → ArtefactFilter → Ledger → List Artefact
unfolding passes
list_by_host host_id f l =
    at_most f.limit (skip f.offset (oldest_first (keep (passes host_id f) (values l.artefacts))))

unfoldable pub record_event : (now : ℕ) (fresh_id : String) → ArtefactEvent → Ledger → Ledger
record_event now fresh_id e l =
    record_at
      (record e {
        event_id = if e.event_id == "" then fresh_id else e.event_id;
        at = if nat_eq e.at 0 then now else e.at;
      })
      l

unfoldable pub list_events : String → Ledger → List ArtefactEvent
list_events set_id l = sort_by (λ a b. ltb a.at b.at) (entries set_id l.events)
