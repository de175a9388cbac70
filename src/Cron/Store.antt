-- ===== src/Cron/Store.antt =====
-- The files of the scheduler: the task list and the run history
-- (packages/telemetry-core/src/cron/store.ts), and the snapshots (cron/snapshot.ts).
use patze_control.Base.{
  ℕ, ◌-◌, Bool, true, false, not, ◌&&◌, Option, none, some, String, List, [], ◌∷◌, ◌++◌, ◌==◌, eqb,
  leb, ltb, if◌then◌else◌, length, take, drop, keep, or_else,
}
use mathlib.Core.List.{reverse}
use patze_control.Cron.Types.{ScheduledTask, TaskRunRecord, run_history_max}

-- What tasks.json holds: a document with its version and its tasks, if they are an array, or a text
-- that cannot be parsed.
pub data TasksFile : Type 0 where
  document : ℕ → Option (List ScheduledTask) → TasksFile
  malformed : TasksFile

abbrev parsed_tasks : TasksFile → Option (List ScheduledTask)
parsed_tasks malformed = none
parsed_tasks (document version tasks) = if eqb version 1 then tasks else none

unfoldable pub load : Option TasksFile → List ScheduledTask
load none = []
load (some file) = or_else (parsed_tasks file) []

-- The lines of the run history that `pruneRunLog` leaves.
unfoldable pub prune_run_log : List TaskRunRecord → List TaskRunRecord
prune_run_log lines =
    if leb (length lines) run_history_max
    then lines
    else drop (length lines - run_history_max) lines

unfoldable pub append_run_record : TaskRunRecord → List TaskRunRecord → List TaskRunRecord
unfolding prune_run_log
append_run_record record_of_run lines = prune_run_log (lines ++ (record_of_run ∷ []))

-- An empty id counts as none.
unfoldable pub load_run_history : Option String → List TaskRunRecord → List TaskRunRecord
load_run_history none records = records
load_run_history (some id) records =
    if id == "" then records else keep (λ r. r.task_id == id) records

pub data SnapshotSource : Type 0 where
  add update remove rollback manual : SnapshotSource

abbrev pub same_source : SnapshotSource → SnapshotSource → Bool
same_source add add = true
same_source update update = true
same_source remove remove = true
same_source rollback rollback = true
same_source manual manual = true
same_source _ _ = false

-- The id `${Date.now()}-${source}`, as its two parts.
pub record SnapshotId : Type 0 where
  pub time : ℕ
  pub source : SnapshotSource

abbrev pub same_id : SnapshotId → SnapshotId → Bool
same_id a b = eqb a.time b.time && same_source a.source b.source

-- `createdAt` is the time of the id.
pub record TaskSnapshot : Type 0 where
  pub id : SnapshotId
  pub description : String
  pub task_count : ℕ

abbrev pub max_snapshots : ℕ
max_snapshots = 100

pub record TaskSnapshotStore : Type 0 where
  pub files : List (SnapshotId × List ScheduledTask)
  pub index : List TaskSnapshot

abbrev pub no_snapshots : TaskSnapshotStore
no_snapshots = record { files = []; index = [] }

unfoldable pub unlink :
    SnapshotId → List (SnapshotId × List ScheduledTask) → List (SnapshotId × List ScheduledTask)
unlink id files = keep (λ file. not (same_id file.0 id)) files

unfoldable pub unlink_all :
    List TaskSnapshot
    → List (SnapshotId × List ScheduledTask)
    → List (SnapshotId × List ScheduledTask)
unfolding unlink
unlink_all [] files = files
unlink_all (old ∷ rest) files = unlink_all rest (unlink old.id files)

-- Writing a file replaces one of the same name.
unfoldable pub write_file :
    SnapshotId
    → List ScheduledTask
    → List (SnapshotId × List ScheduledTask)
    → List (SnapshotId × List ScheduledTask)
unfolding unlink
write_file id tasks files = (id, tasks) ∷ unlink id files

unfoldable pub capture :
    List ScheduledTask → SnapshotSource → String → ℕ → TaskSnapshotStore → TaskSnapshotStore
unfolding write_file unlink_all
capture tasks source description now store =
    let id : SnapshotId = record { time = now; source = source } in
    let files = write_file id tasks store.files in
    let index =
      store.index
      ++ (record { id = id; description = description; task_count = length tasks } ∷ []) in
    let excess = length index - max_snapshots in
    if ltb max_snapshots (length index)
    then record { files = unlink_all (take excess index) files; index = drop excess index }
    else record { files = files; index = index }

unfoldable pub list_snapshots : Option ℕ → Option ℕ → TaskSnapshotStore → List TaskSnapshot
list_snapshots limit offset store =
    take (or_else limit 20) (drop (or_else offset 0) (reverse store.index))

-- The names that a caller can give: that of a snapshot, `index`, and any other text.
pub data SnapshotName : Type 0 where
  of_snapshot : SnapshotId → SnapshotName
  of_index : SnapshotName
  other : SnapshotName

-- What is read under a name: no file, the tasks of a snapshot, or a document without tasks.
pub data SnapshotData : Type 0 where
  absent : SnapshotData
  tasks_of : List ScheduledTask → SnapshotData
  without_tasks : SnapshotData

unfoldable pub read_file : SnapshotId → List (SnapshotId × List ScheduledTask) → SnapshotData
read_file id [] = absent
read_file id ((name, tasks) ∷ files) =
    let rest = read_file id files in if same_id name id then tasks_of tasks else rest

abbrev is_written : List TaskSnapshot → SnapshotData
is_written [] = absent
is_written (s ∷ ss) = without_tasks

-- `index.json` lies in the directory of the snapshots, and exists once one has been captured.
unfoldable pub get_snapshot_data : SnapshotName → TaskSnapshotStore → SnapshotData
unfolding read_file
get_snapshot_data (of_snapshot id) store = read_file id store.files
get_snapshot_data of_index store = is_written store.index
get_snapshot_data other store = absent
