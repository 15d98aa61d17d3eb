-- ===== src/Persist/Rollback/Ports.antt =====
-- back/go-assistant/cpn/persist/rollback.go: the ports of the services, and paths below a root.
use Prim.Native.String.{◌++◌ as ◌^◌}
use Prim.Native.Char.{Char, code}
use text.Mathlib.Text.{starts_with}
use liwaisi_assistant.Base.{
  ℕ, String, Bool, true, false, Option, none, some, List, [], ◌∷◌, ◌++◌, Result, ok, if◌then◌else◌,
  ◌==◌, ◌||◌, nat_eq,
}
use liwaisi_assistant.Persist.Records.{StoreError}
use liwaisi_assistant.Persist.Artefacts.{
  FilePath, Artefact, ArtefactEvent, ArtefactState, active, restored, Ledger, set_for_set,
  ledger_rollback, ledger_restore, purge_expired, record_event,
}

-- FSMover: each call may fail, and leaves a state in either case.
pub record FsMover (F : Type 0) : Type 0 where
  pub move : (src dst : FilePath) → F → Option ℕ × F
  pub mkdir_all : FilePath → F → Option ℕ × F
  pub remove_all : FilePath → F → Option ℕ × F
  pub exists : FilePath → F → Bool

-- What the services use of AuthoredArtefactLedger.
pub record LedgerPort (L : Type 0) : Type 0 where
  pub set_for_set : (set_id : String) → L → Result StoreError (List Artefact)
  pub rollback : (set_id : String) → FilePath → (actor : String) → L → Result StoreError L
  pub restore : (set_id actor : String) → L → Result StoreError L
  pub purge_expired : (cutoff : ℕ) (actor : String) → L → Result StoreError (List Artefact × L)
  pub record_event : ArtefactEvent → L → L

-- ToolDeprecator; the error of Deprecate is only logged.
pub record ToolPort (T : Type 0) : Type 0 where
  pub lookup_by_binary_path : FilePath → T → Option String
  pub deprecate : (qualified_name reason : String) → T → T

-- The ledger in memory, at a time and with the fresh ids of the events.
abbrev pub memory_ledger :
    (now : ℕ) (event_id : String) (event_ids : String → String) → LedgerPort Ledger
memory_ledger now event_id event_ids = record {
  set_for_set = set_for_set;
  rollback = ledger_rollback now event_id;
  restore = ledger_restore now event_id;
  purge_expired = λ cutoff actor l. ok (purge_expired now event_ids cutoff actor l);
  record_event = record_event now event_id;
}

-- The parts of a text between its slashes.
unfoldable pub split_slash : String → List String
split_slash String.[] = "" ∷ []
split_slash (String.◌∷◌ c s) =
    let rest = split_slash s in if nat_eq (code c) b'/' then "" ∷ rest else to_first c rest
  where
    to_first : Char → List String → List String
    to_first c [] = String.◌∷◌ c "" ∷ []
    to_first c (x ∷ xs) = String.◌∷◌ c x ∷ xs

abbrev pub parent : FilePath → FilePath
parent [] = []
parent (x ∷ []) = []
parent (x ∷ y ∷ p) = x ∷ parent (y ∷ p)

-- One step of filepath.Clean.
abbrev pub step_into : FilePath → String → FilePath
step_into p part =
    if part == "" || part == "." then p else if part == ".." then parent p else p ++ part ∷ []

abbrev pub walk_into : FilePath → List String → FilePath
walk_into p [] = p
walk_into p (part ∷ parts) = walk_into (step_into p part) parts

-- filepath.Join of a clean rooted path and a text.
unfoldable pub join : FilePath → String → FilePath
unfolding split_slash
join p s = walk_into p (split_slash s)

unfoldable pub quarantine_dir : (root : FilePath) (set_id : String) → FilePath
quarantine_dir root set_id = join (root ++ "quarantine" ∷ []) set_id

unfoldable pub staging_dir : (root : FilePath) (set_id : String) → FilePath
staging_dir root set_id = join (root ++ "quarantine" ∷ []) (".staging-" ^ set_id)

-- A path below a root, from the root on; nothing if it is not below it.
unfoldable pub below : (root : FilePath) → FilePath → Option FilePath
below [] p = some p
below (r ∷ root) [] = none
below (r ∷ root) (x ∷ p) = let rest = below root p in if r == x then rest else none

abbrev pub leaves_root : FilePath → Bool
leaves_root [] = false
leaves_root (x ∷ p) = starts_with x ".."

-- filepath.Rel, and the test of its result for a leading "..".
unfoldable pub relative : (root : FilePath) → FilePath → Option FilePath
unfolding below
relative root p = elim (below root p) [
  | none ↦ none
  | some rel ↦ if leaves_root rel then none else some rel
]

pub record Move : Type 0 where
  pub from : FilePath
  pub to : FilePath

abbrev pub is_movable : ArtefactState → Bool
is_movable active = true
is_movable restored = true
is_movable _ = false

abbrev pub into : (dir : FilePath) → FilePath → FilePath → Move
into dir path rel = record { from = path; to = dir ++ rel }

abbrev pub out_of : (dir : FilePath) → FilePath → FilePath → Move
out_of dir path rel = record { from = dir ++ rel; to = path }

pub record World (F L T : Type 0) : Type 0 where
  pub files : F
  pub ledger : L
  pub registry : T
  -- The moves that could not be made back, as they are logged.
  pub unreversed : List Move

abbrev pub Outcome : (F L T : Type 0) → Type 0
Outcome F L T = Option StoreError × World F L T
