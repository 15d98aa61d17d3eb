-- ===== src/Persist/Rollback/Sweep.antt =====
-- back/go-assistant/cpn/persist/purge.go: PurgeService.Run.
use liwaisi_assistant.Base.{
  ℕ, ◌-◌, ◌*◌, String, Option, none, some, List, [], ◌∷◌, Dict, insert, Result, ok, err,
  if◌then◌else◌, is_empty, nat_eq, length,
}
use liwaisi_assistant.Persist.Records.{StoreError}
use liwaisi_assistant.Persist.Artefacts.{FilePath, Artefact, ArtefactEvent, other_kind}
use liwaisi_assistant.Persist.Rollback.Ports.{FsMover, LedgerPort, World}

-- The directories of the sets that are purged: one for each set, the last one named.
unfoldable pub touched : List Artefact → Dict FilePath → Dict FilePath
touched [] m = m
touched (art ∷ arts) m =
    touched arts
      (if is_empty art.quarantine_path then m else insert art.set_id art.quarantine_path m)

abbrev pub fs_complete : (now : ℕ) (set_id : String) → ArtefactEvent
fs_complete now set_id = record {
  event_id = "";
  set_id = set_id;
  kind = other_kind "purge_fs_complete";
  actor = "purge-service";
  at = now;
}

abbrev pub purge_cutoff : (now grace_days cutoff : ℕ) → ℕ
purge_cutoff now grace_days cutoff =
    if nat_eq cutoff 0 then now - grace_days * (24 * 60 * 60 * 1000000000) else cutoff

module _ {F L T : Type 0} (fs : FsMover F) (port : LedgerPort L) where
  -- Each directory is removed, and the removals that succeed are noted; the first error is kept.
  unfoldable pub remove_dirs :
      (now : ℕ) → Dict FilePath → Option ℕ → World F L T → Option ℕ × World F L T
  remove_dirs now [] first w = (first, w)
  remove_dirs now (d ∷ ds) first w =
      let removed = fs.remove_all d.1 w.files in
      elim removed.0 [
        | some e ↦
            remove_dirs now ds (elim first [ none ↦ some e | some x ↦ some x ])
              (record w { files = removed.1 })
        | none ↦ remove_dirs now ds first (record w {
          files = removed.1;
          ledger = port.record_event (fs_complete now d.0) w.ledger;
        })
      ]

  -- A cutoff of zero stands for the grace window before now, in nanoseconds.
  unfoldable pub run_purge :
      (now grace_days cutoff : ℕ) → World F L T → Result StoreError ℕ × Option ℕ × World F L T
  unfolding touched remove_dirs
  run_purge now grace_days cutoff w =
      elim (port.purge_expired (purge_cutoff now grace_days cutoff) "purge-service" w.ledger) [
        | err e ↦ (err e, none, w)
        | ok (rows, l) ↦
            let r = remove_dirs now (touched rows []) none (record w { ledger = l }) in
            (ok (length rows), r.0, r.1)
      ]
