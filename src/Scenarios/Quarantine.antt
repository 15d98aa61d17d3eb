-- ===== src/Scenarios/Quarantine.antt =====
-- The theorems on artefacts, on a forged tool with two files.
use liwaisi_assistant.Base.{
  ℕ, suc, subst, insert, modify, String, ◌≡◌, refl, Bool, true, false, Option, none, some, List, [],
  ◌∷◌, lookup, All, length, any, ok, ◌==◌,
}
use liwaisi_assistant.Base.Values.{AllValues}
use liwaisi_assistant.Base.Sort.{number_of, sort_by}
use liwaisi_assistant.Persist.Records.{fs_failed}
use liwaisi_assistant.Persist.Artefacts.{
  FilePath, Artefact, ArtefactState, active, quarantined, purged, restored, binary, Ledger,
  new_ledger, is_overdue, purge_expired, ledger_rollback, ledger_restore, quarantine, release,
  record_at, rollback_kind, restore_kind, modify_each, entries, set_for_set,
}
use liwaisi_assistant.Persist.Artefacts.Lifecycle.{ledger_restore-restored}
use liwaisi_assistant.Persist.Artefacts.Overdue.{IsKept, IsPurged, purge_expired_lem}
use liwaisi_assistant.Persist.Rollback.{
  ToolPort, LedgerPort, World, memory_ledger, rollback, below, relative, staging_dir, split_slash,
  join,
}
use liwaisi_assistant.Persist.Rollback.Moves.{AllApart}
use liwaisi_assistant.Persist.Rollback.Paths.{Apart, is_name, no_slash}
use liwaisi_assistant.Persist.Rollback.Unchanged.{Unchanged, rollback_error-Unchanged}
use liwaisi_assistant.Persist.Rollback.Files.{IsClear}
use liwaisi_assistant.Scenarios.Disk.{Disk, same_path, disk, file_at, disk-FsLaws}

abbrev artefact : (id : String) → FilePath → ArtefactState → Option ℕ → Artefact
artefact id path state at = record {
  id = id;
  path = path;
  classification = binary;
  set_id = "set";
  forge_run_id = "run";
  host_id = "host";
  flow_hash = "";
  authoring_cpn_id = "";
  transition_id = "";
  session_id = "s1";
  sha256 = "";
  size = 3;
  mime = "";
  mode = 493;
  state = state;
  created_at = 1;
  quarantined_at = at;
  restored_at = none;
  purged_at = none;
  quarantine_path = [];
}

abbrev tool : FilePath
tool = "brae" ∷ "bin" ∷ "tool" ∷ []

abbrev notes : FilePath
notes = "brae" ∷ "etc" ∷ "notes" ∷ []

abbrev ledger_of : Artefact → Artefact → Ledger
ledger_of a b = record new_ledger {
  artefacts = ("a", a) ∷ ("b", b) ∷ [];
  by_set = ("set", "a" ∷ "b" ∷ []) ∷ [];
}

abbrev half_purged : Ledger
half_purged = ledger_of (artefact "a" tool active none) (artefact "b" notes purged (some 2))

abbrev away : FilePath
away = "brae" ∷ "quarantine" ∷ "set" ∷ []

abbrev quarantined_ledger : Ledger
quarantined_ledger =
    record_at
      (record { event_id = "v1"; set_id = "set"; kind = rollback_kind; actor = "ops"; at = 5 })
      (ledger_of (quarantine 5 away (artefact "a" tool active none))
        (quarantine 5 away (artefact "b" notes purged (some 2))))

abbrev restored_ledger : Ledger
restored_ledger =
    record_at
      (record { event_id = "v2"; set_id = "set"; kind = restore_kind; actor = "ops"; at = 6 })
      (record quarantined_ledger {
        artefacts = modify_each (release 6) ("a" ∷ "b" ∷ []) quarantined_ledger.artefacts;
      })

quarantines : ledger_rollback 5 "v1" "set" away "ops" half_purged ≡ ok quarantined_ledger
unfolding ledger_rollback modify_each lookup modify insert
quarantines = refl

restores : ledger_restore 6 "v2" "set" "ops" quarantined_ledger ≡ ok restored_ledger
unfolding ledger_restore lookup insert modify
restores = refl

member : any (λ j. j == "b") (entries "set" half_purged.by_set) ≡ true
unfolding lookup
member = refl

there : lookup "b" half_purged.artefacts ≡ some (artefact "b" notes purged (some 2))
unfolding lookup
there = refl

ledger_restore-restored_example :
    (a : Artefact) × (lookup "b" restored_ledger.artefacts ≡ some a) × (a.state ≡ restored)
ledger_restore-restored_example =
    ledger_restore-restored 5 6 "v1" "v2" "set" away "ops" half_purged quarantined_ledger
      restored_ledger "b" (artefact "b" notes purged (some 2)) quarantines restores member there

abbrev overdue : Ledger
overdue =
    ledger_of (artefact "a" tool quarantined (some 2)) (artefact "b" notes quarantined (some 9))

purge_expired_lem_example :
    (length (purge_expired 10 (λ s. s) 5 "purge" overdue).0
      ≡ number_of (λ e. is_overdue 5 e.1) overdue.artefacts)
    × All IsPurged (purge_expired 10 (λ s. s) 5 "purge" overdue).0
    × AllValues (IsKept 5) (purge_expired 10 (λ s. s) 5 "purge" overdue).1.artefacts
    × ((id : String) (a : Artefact)
        → lookup id overdue.artefacts ≡ some a
        → is_overdue 5 a ≡ false
        → lookup id (purge_expired 10 (λ s. s) 5 "purge" overdue).1.artefacts ≡ some a)
purge_expired_lem_example = purge_expired_lem 10 (λ s. s) 5 "purge" overdue

abbrev tools : ToolPort ℕ
tools = record {
  lookup_by_binary_path = λ p n. some "forge.tool";
  deprecate = λ name reason n. suc n;
}

abbrev locked : FilePath → Bool
locked p = same_path p notes

abbrev world : World Disk Ledger ℕ
world = record {
  files = (tool, "elf") ∷ (notes, "text") ∷ [];
  ledger = ledger_of (artefact "a" tool active none) (artefact "b" notes active none);
  registry = 0;
  unreversed = [];
}

abbrev port : LedgerPort Ledger
port = memory_ledger 5 "v1" (λ s. s)

fails : (rollback (disk locked) port tools ("brae" ∷ []) "set" "ops" world).0 ≡ some (fs_failed 13)
unfolding rollback set_for_set lookup sort_by below relative same_path split_slash join
fails = refl

taken_back : (rollback (disk locked) port tools ("brae" ∷ []) "set" "ops" world).1.unreversed ≡ []
unfolding rollback set_for_set lookup sort_by below relative same_path split_slash join
taken_back = refl

plain : is_name "set" ≡ true
unfolding is_name no_slash
plain = refl

clear : IsClear (staging_dir ("brae" ∷ []) "set") (file_at world.files)
clear =
    (disk-FsLaws locked).exists_clear (staging_dir ("brae" ∷ []) "set") world.files
      (unfold below split_slash join staging_dir in refl)

abbrev two : List Artefact
two = artefact "a" tool active none ∷ artefact "b" notes active none ∷ []

files-Apart : (x y : FilePath) → "bin" ∷ "tool" ∷ [] ≡ x → "etc" ∷ "notes" ∷ [] ≡ y → Apart x y
unfolding below
files-Apart x y ex ey =
    subst (λ z. Apart z y) ex (subst (Apart ("bin" ∷ "tool" ∷ [])) ey (refl, refl))

in_bin : (x : FilePath) → relative ("brae" ∷ []) tool ≡ some x → "bin" ∷ "tool" ∷ [] ≡ x
unfolding relative below
in_bin x h = cc

in_etc : (y : FilePath) → relative ("brae" ∷ []) notes ≡ some y → "etc" ∷ "notes" ∷ [] ≡ y
unfolding relative below
in_etc y h = cc

apart :
    (arts : List Artefact)
    → port.set_for_set "set" world.ledger ≡ ok arts
    → AllApart ("brae" ∷ []) arts
apart arts known =
    let e : two ≡ arts = unfold set_for_set sort_by lookup in cc in
    subst (AllApart ("brae" ∷ [])) e (
      ((λ x y as_tool as_notes. files-Apart x y (in_bin x as_tool.1) (in_etc y as_notes.1)), tt),
      (tt, tt),
    )

rollback_error-Unchanged_example :
    Unchanged
      (disk locked)
      file_at
      (disk-FsLaws locked)
      port
      tools
      world
      (rollback (disk locked) port tools ("brae" ∷ []) "set" "ops" world).1
rollback_error-Unchanged_example =
    rollback_error-Unchanged (disk locked) file_at (disk-FsLaws locked) port tools ("brae" ∷ [])
      "set" "ops" world (fs_failed 13) plain clear apart fails taken_back
