-- ===== src/Persist/Rollback.antt =====
-- back/go-assistant/cpn/persist/rollback.go and purge.go: the two-phase move of a set of artefacts
-- into quarantine, and back. The file system, the ledger and the tool registry are the interfaces of
-- the source, with the state of each in its own type.
mod Ports
mod Sweep
pub mod Paths
pub mod Files
pub mod Moves
pub mod Unchanged
unfoldable pub use Ports.*
unfoldable pub use Sweep.*
use Prim.Native.String.{◌++◌ as ◌^◌}
use text.Mathlib.Text.{starts_with}
use liwaisi_assistant.Base.{
  ℕ, ◌-◌, ◌*◌, String, ◌≡◌, Bool, true, false, ◌||◌, Option, none, some, List, [], ◌∷◌, ◌++◌, Dict,
  insert, Result, ok, err, if◌then◌else◌, is_empty, nat_eq, length, ◌==◌,
}
use liwaisi_assistant.Persist.Records.{
  StoreError, artefact_set_empty, already_rolled_back, not_quarantined, set_id_required, root_empty,
  outside_root, fs_failed,
}
use liwaisi_assistant.Persist.Artefacts.{
  FilePath, Artefact, ArtefactEvent, EventKind, other_kind, Classification, binary, ArtefactState,
  active, restored, is_quarantined, Ledger, set_for_set, ledger_rollback, ledger_restore,
  purge_expired, record_event,
}

module _ {F : Type 0} (fs : FsMover F) where
  -- The moves back, the latest first; an error is only logged.
  unfoldable pub undo : (newest_first : List Move) → F → F
  undo [] f = f
  undo (m ∷ ms) f = undo ms (fs.move m.to m.from f).1

  -- The moves among them that cannot be made back.
  unfoldable pub stuck : (newest_first : List Move) → F → List Move
  stuck [] f = []
  stuck (m ∷ ms) f =
      let back = fs.move m.to m.from f in
      let rest = stuck ms back.1 in elim back.0 [ none ↦ rest | some _ ↦ m ∷ rest ]

  -- The moves of the artefacts that pass a test, between their paths and those under a directory, until one fails: the moves
  -- made, the latest first.
  unfoldable pub move_each :
      (root : FilePath) (wanted : ArtefactState → Bool) (way : FilePath → FilePath → Move)
      → List Artefact
      → List Move
      → F
      → Option StoreError × List Move × F
  move_each root wanted way [] ms f = (none, ms, f)
  move_each root wanted way (art ∷ arts) ms f =
      let skipped = move_each root wanted way arts ms f in
      elim (wanted art.state) [
        | false ↦ skipped
        | true ↦ elim (relative root art.path) [
          | none ↦ (some (outside_root art.path), ms, f)
          | some rel ↦
              let mv = way art.path rel in
              let later = move_each root wanted way arts (mv ∷ ms) (fs.move mv.from mv.to f).1 in
              elim (fs.move mv.from mv.to f).0 [
                | none ↦ later
                | some e ↦ (some (fs_failed e), ms, (fs.move mv.from mv.to f).1)
              ]
        ]
      ]

  -- The moves back, and the staging directory removed.
  unfoldable pub reverse_all : (staging : FilePath) → List Move → F → F
  unfolding undo
  reverse_all staging ms f = (fs.remove_all staging (undo ms f)).1

module _ {T : Type 0} (tools : ToolPort T) where
  unfoldable pub deprecate_tools : List Artefact → T → T
  deprecate_tools [] t = t
  deprecate_tools (art ∷ arts) t = elim art.classification [
    | binary ↦ elim (tools.lookup_by_binary_path art.path t) [
      | none ↦ deprecate_tools arts t
      | some name ↦
          deprecate_tools arts
            (if name == "" then t else tools.deprecate name "artefact_rolled_back" t)
    ]
    | _ ↦ deprecate_tools arts t
  ]

module _ {F L T : Type 0} (fs : FsMover F) (port : LedgerPort L) (tools : ToolPort T) where
  -- After the moves: the commit, the ledger, the tools.
  unfoldable pub commit :
      (root : FilePath) (set_id actor : String)
      → List Artefact
      → List Move
      → F
      → World F L T
      → Outcome F L T
  unfolding reverse_all stuck deprecate_tools quarantine_dir staging_dir
  commit root set_id actor arts ms f w =
      let staging = staging_dir root set_id in
      let final = quarantine_dir root set_id in
      let committed = fs.move staging final f in
      elim committed.0 [
        | some e ↦ (
          some (fs_failed e),
          record w {
            files = reverse_all fs staging ms committed.1;
            unreversed = w.unreversed ++ stuck fs ms committed.1;
          },
        )
        | none ↦ elim (port.rollback set_id final actor w.ledger) [
          | ok l ↦ (
            none,
            record {
              files = committed.1;
              ledger = l;
              registry = deprecate_tools tools arts w.registry;
              unreversed = w.unreversed;
            },
          )
          | err e ↦
              let back = fs.move final staging committed.1 in
              elim back.0 [
                | some _ ↦ (
                  some e,
                  record w {
                    files = back.1;
                    unreversed = w.unreversed ++ record { from = staging; to = final } ∷ [];
                  },
                )
                | none ↦ (
                  some e,
                  record w {
                    files = reverse_all fs staging ms back.1;
                    unreversed = w.unreversed ++ stuck fs ms back.1;
                  },
                )
              ]
        ]
      ]

  unfoldable pub staged :
      (root : FilePath) (set_id actor : String) → List Artefact → F → World F L T → Outcome F L T
  unfolding move_each reverse_all stuck commit staging_dir
  staged root set_id actor arts f w =
      let staging = staging_dir root set_id in
      let moved = move_each fs root is_movable (into staging) arts [] f in
      elim moved.0 [
        | some e ↦ (
          some e,
          record w {
            files = reverse_all fs staging moved.1 moved.2;
            unreversed = w.unreversed ++ stuck fs moved.1 moved.2;
          },
        )
        | none ↦ commit root set_id actor arts moved.1 moved.2 w
      ]

  unfoldable pub rollback : (root : FilePath) (set_id actor : String) → World F L T → Outcome F L T
  unfolding staged quarantine_dir staging_dir
  rollback root set_id actor w =
      if set_id == ""
      then (some set_id_required, w)
      else if is_empty root
      then (some root_empty, w)
      else elim (port.set_for_set set_id w.ledger) [
        | err e ↦ (some e, w)
        | ok arts ↦
            let made = fs.mkdir_all (staging_dir root set_id) w.files in
            if is_empty arts
            then (some artefact_set_empty, w)
            else if fs.exists (quarantine_dir root set_id) w.files
            then (some already_rolled_back, w)
            else elim made.0 [
              | some e ↦ (some (fs_failed e), record w { files = made.1 })
              | none ↦ staged root set_id actor arts made.1 w
            ]
      ]

  unfoldable pub restore : (root : FilePath) (set_id actor : String) → World F L T → Outcome F L T
  unfolding move_each undo stuck quarantine_dir
  restore root set_id actor w =
      let final = quarantine_dir root set_id in
      if set_id == "" then (some set_id_required, w) else elim (port.set_for_set set_id w.ledger) [
        | err e ↦ (some e, w)
        | ok arts ↦
            let moved = move_each fs root is_quarantined (out_of final) arts [] w.files in
            if fs.exists final w.files
            then elim moved.0 [
              | some e ↦ (
                some e,
                record w {
                  files = undo fs moved.1 moved.2;
                  unreversed = w.unreversed ++ stuck fs moved.1 moved.2;
                },
              )
              | none ↦
                  let cleared = (fs.remove_all final moved.2).1 in
                  elim (port.restore set_id actor w.ledger) [
                    | err e ↦ (some e, record w { files = cleared })
                    | ok l ↦ (none, record w { files = cleared; ledger = l })
                  ]
            ]
            else (some not_quarantined, w)
      ]
