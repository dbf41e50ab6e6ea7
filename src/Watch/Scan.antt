-- ===== src/Watch/Scan.antt =====
-- The scans of the watcher (pkg/source/file/watch.go): new files, jobs that hold their file too
-- long, and zombie jobs.
use Prim.Native.String.{◌++◌ as join, len}
use text.Mathlib.Text.{get?}
use loggie.Prelude.{
  ℕ, ◌+◌, ◌-◌, Bool, true, false, not, ◌&&◌, ◌||◌, Option, none, some, List, [], ◌∷◌, String,
  str_eq, ltb, length, is_some, if◌then◌else◌, lookup,
}
use loggie.Value.{Fields, end}
use loggie.Job.{Job, watch_uid_of}
use loggie.Watch.{
  Watcher, Cell, CollectConfig, WatchTask, FileInfo, Env, found, not_exist, stat_failed, job_at,
}
use loggie.Watch.Events.{event_rename, event_create}

unfoldable pub ignore_system_file : String → Bool
ignore_system_file name =
    str_eq name "" || (str_eq name "." || (str_eq name ".." || str_eq name "/"))

unfoldable pub is_ignore_older : ℕ → CollectConfig → FileInfo → Bool
is_ignore_older now config info = elim config.ignore_older [
  | none ↦ false
  | some d ↦ ltb 0 d && ltb d (now - info.mod_time)
]

-- `legalFile`: the absolute name and the file's information, if the file may be collected.
unfoldable pub legal_file : Env → String → WatchTask → Bool → Option (String × FileInfo)
unfolding ignore_system_file is_ignore_older
legal_file env filename task with_ignore_older =
    if ignore_system_file filename then none else elim (env.abs filename) [
      | none ↦ none
      | some name ↦ if env.excluded task name then none else elim (env.stat name) [
        | not_exist ↦ none
        | stat_failed ↦ none
        | found info ↦ if info.is_dir then none else elim (env.symlink name) [
          | none ↦ none
          | some link ↦
              if link && task.config.ignore_symlink
              then none
              else if with_ignore_older && is_ignore_older env.now task.config info
              then none
              else some (name, info)
        ]
      ]
    ]

-- `newJob`. The counter of the job indices is a counter of the watcher here.
unfoldable pub new_job : Env → WatchTask → String → String → ℕ → Fields → Job
new_job env task name uid index fields =
    let (line_end, encode_line_end) = env.line_ends task.pipeline_name task.source_name in
    record {
      uid = uid;
      watch_uid = "";
      index = index;
      filename = name;
      a_file_name = name;
      file = none;
      status = none;
      a_status = none;
      end_offset = 0;
      next_offset = 0;
      current_line_number = 0;
      current_lines = 0;
      delete_time = none;
      rename_time = none;
      stop_time = none;
      identifier = "";
      job_fields = fields;
      epoch = task.epoch;
      pipeline_name = task.pipeline_name;
      source_name = task.source_name;
      eof_count = 0;
      last_active_time = 0;
      line_end = line_end;
      encode_line_end = encode_line_end;
      produced = [];
    }

-- `GenerateIdentifier`: `none` is an error. `head` answers the first bytes, as many as were asked
-- for or fewer.
unfoldable pub generate_identifier : Env → ℕ → Job → Option Job
generate_identifier env read_size j =
    if not (str_eq j.identifier "") then some j else elim (env.stat j.filename) [
      | not_exist ↦ none
      | stat_failed ↦ none
      | found info ↦
          if ltb info.size read_size then some j else elim (env.head j.filename read_size) [
            | none ↦ none
            | some bytes ↦
                if ltb (length bytes) read_size
                then none
                else some (record j { identifier = env.md5 bytes })
          ]
    ]

-- `IsSame`, of jobs that are not the same object.
unfoldable pub is_same : Job → Job → Bool
is_same j other =
    str_eq (watch_uid_of j) (watch_uid_of other) && str_eq j.identifier other.identifier

-- A legal file with its identifier: a new job, or a job that is known under another name.
unfoldable pub match_file : Env → Cell → Watcher → Watcher
unfolding is_same
match_file env x w = elim (lookup (watch_uid_of x.job) w.all_jobs) [
  | none ↦ event_create env x w
  | some a ↦
      let exist = job_at w a in
      if str_eq x.job.filename exist.filename
      then w
      else if is_some exist.file
      then w
      else if is_same exist x.job
      then event_rename env x.job.filename a w
      else w
]

unfoldable pub create_or_rename : Env → WatchTask → Fields → String → Watcher → Watcher
unfolding legal_file new_job generate_identifier match_file
create_or_rename env task fields filename w = elim (legal_file env filename task true) [
  | none ↦ w
  | some (name, info) ↦
      let job = new_job env task name info.uid (w.job_index + 1) fields in
      let counted = record w { job_index = w.job_index + 1 } in
      elim (generate_identifier env task.config.first_n_bytes_for_identifier job) [
        | none ↦ counted
        | some j ↦ match_file env (record { job = j; config = task.config }) counted
      ]
]

unfoldable pub create_all : Env → WatchTask → Fields → List String → Watcher → Watcher
unfolding create_or_rename
create_all env task fields [] w = w
create_all env task fields (f ∷ fs) w =
    create_all env task fields fs (create_or_rename env task fields f w)

unfoldable pub scan_paths : Env → WatchTask → Fields → List String → Watcher → Watcher
unfolding create_all
scan_paths env task fields [] w = w
scan_paths env task fields (path ∷ paths) w = elim (env.glob path) [
  | none ↦ scan_paths env task fields paths w
  | some files ↦ scan_paths env task fields paths (create_all env task fields files w)
]

-- `strings.HasSuffix`
unfoldable pub ends_with : String → String → Bool
ends_with s suffix = elim (get? s (len s - len suffix) (len s)) [
  | none ↦ false
  | some tail ↦ str_eq tail suffix
]

unfoldable pub recursive_path : String → String
unfolding ends_with
recursive_path path =
    let once = if ends_with path "**" then join path "/*" else path in
    if ends_with once "**/" then join once "*" else once

unfoldable pub get_recursive_path : List String → List String
unfolding recursive_path
get_recursive_path [] = []
get_recursive_path (p ∷ ps) = recursive_path p ∷ get_recursive_path ps

-- `external.SystemContainerLogsPath`
unfoldable pub is_dynamic_path : String → List String → Bool
is_dynamic_path name (p ∷ []) = str_eq p name
is_dynamic_path name _ = false

unfoldable pub scan_pairs : Env → WatchTask → List (List String × Fields) → Watcher → Watcher
unfolding get_recursive_path scan_paths
scan_pairs env task [] w = w
scan_pairs env task ((paths, fields) ∷ pairs) w =
    scan_pairs env task pairs (scan_paths env task fields (get_recursive_path paths) w)

unfoldable pub scan_task_new_files : String → Env → WatchTask → Watcher → Watcher
unfolding is_dynamic_path scan_pairs
scan_task_new_files dynamic env task w =
    if is_dynamic_path dynamic task.config.paths
    then elim (env.dynamic_paths task.pipeline_name task.source_name) [
      | none ↦ w
      | some pairs ↦ scan_pairs env task pairs w
    ]
    else scan_paths env task end task.config.paths w
