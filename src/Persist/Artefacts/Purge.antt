-- ===== src/Persist/Artefacts/Purge.antt =====
-- PurgeExpired of back/go-assistant/cpn/persist/artefacts_memory.go.
use Prim.Native.String.{compare}
use text.Mathlib.Text.{is_lt}
use liwaisi_assistant.Base.{
  ℕ, String, Bool, false, ◌&&◌, none, some, List, [], ◌∷◌, Dict, ltb, if◌then◌else◌, any, ◌==◌,
}
use liwaisi_assistant.Base.Sort.{sort_by}
use liwaisi_assistant.Persist.Artefacts.Data.{
  Artefact, Ledger, record_at, is_quarantined, purged, purge_kind,
}

-- Whether a quarantine is older than the cutoff.
unfoldable pub is_overdue : (cutoff : ℕ) → Artefact → Bool
is_overdue cutoff art =
    is_quarantined art.state && elim art.quarantined_at [ none ↦ false | some at ↦ ltb at cutoff ]

abbrev pub purge : (now : ℕ) → Artefact → Artefact
purge now art = record art { purged_at = some now; state = purged }

-- The map after the purge, and the artefacts purged.
unfoldable pub purge_each : (now cutoff : ℕ) → Dict Artefact → Dict Artefact × List Artefact
unfolding is_overdue
purge_each now cutoff [] = ([], [])
purge_each now cutoff (e ∷ m) =
    let rest = purge_each now cutoff m in
    if is_overdue cutoff e.1
    then ((e.0, purge now e.1) ∷ rest.0, purge now e.1 ∷ rest.1)
    else (e ∷ rest.0, rest.1)

-- The sets of some artefacts, each once.
unfoldable pub sets_of : List Artefact → List String
sets_of [] = []
sets_of (art ∷ arts) =
    let rest = sets_of arts in if any (λ s. s == art.set_id) rest then rest else art.set_id ∷ rest

unfoldable pub record_purges :
    (now : ℕ) (event_ids : String → String) (actor : String) → List String → Ledger → Ledger
record_purges now event_ids actor [] l = l
record_purges now event_ids actor (s ∷ sets) l = record_purges now event_ids actor sets (
    record_at
      (record { event_id = event_ids s; set_id = s; kind = purge_kind; actor = actor; at = now }) l)

abbrev pub by_id : List Artefact → List Artefact
by_id = sort_by (λ a b. is_lt (compare a.id b.id))

unfoldable pub purge_expired :
    (now : ℕ) (event_ids : String → String) (cutoff : ℕ) (actor : String)
    → Ledger
    → List Artefact × Ledger
unfolding purge_each sets_of record_purges
purge_expired now event_ids cutoff actor l =
    let p = purge_each now cutoff l.artefacts in
    (by_id p.1, record_purges now event_ids actor (sets_of p.1) (record l { artefacts = p.0 }))
