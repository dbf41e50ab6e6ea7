-- ===== src/Watch.antt =====
-- The watcher of files (pkg/source/file/watch.go, pkg/source/file/task.go). Jobs are shared by the
-- watcher's maps, its channels and the workers, so they are cells of a store and the maps hold
-- addresses. The channels are lists, the oldest first. What the operating system, the registry and
-- the runtime answer during one turn of the loop is an `Env`. `WatchUid` caches its value in
-- the job, which nobody can tell, so no cell changes for it.
use loggie.Prelude.{
  ℕ, ◌-◌, Bool, true, false, ◌&&◌, ◌||◌, Option, none, some, List, [], ◌∷◌, ◌++◌, String, str_eq,
  ◌==◌, ltb, length, is_some, if◌then◌else◌, Dict, lookup, insert, delete,
}
use Prim.Native.String.{◌++◌ as join}
use loggie.Value.{Epoch, Fields}
use loggie.Job.{
  Job, Opening, watch_uid_of, is_stop, is_delete, is_rename, clean_rename, release, sync,
}
use loggie.Persist.{Registry, no_registry, DbOpt, DbOptType, update_name, delete_by_job_uid}
pub mod Events
pub mod Scan
pub mod Loop
pub mod Run
pub mod Keeping
pub mod Limit
pub mod Creating
pub mod Finalizing
pub mod Panics
pub mod Shrinking
pub mod Stopping
pub mod Examples
pub mod Fds

pub record CollectConfig : Type 0 where
  pub paths : List String
  pub ignore_older : Option ℕ
  pub ignore_symlink : Bool
  pub first_n_bytes_for_identifier : ℕ
  pub fd_hold_timeout_when_inactive : ℕ
  pub fd_hold_timeout_when_remove : ℕ
  pub reread_truncated : Bool
  pub read_from_tail : Bool

-- `stop_time` is `none` while it is the zero time; `waits` is nil while it is empty.
pub record WatchTask : Type 0 where
  pub epoch : Epoch
  pub pipeline_name : String
  pub source_name : String
  pub config : CollectConfig
  pub stop_time : Option ℕ
  pub waits : Dict ℕ

unfoldable pub watch_task_key : WatchTask → String
watch_task_key wt = join wt.pipeline_name (join ":" wt.source_name)

abbrev pub task_is_stop : WatchTask → Bool
task_is_stop wt = is_some wt.stop_time

-- A job, and what it reads of its task.
pub record Cell : Type 0 where
  pub job : Job
  pub config : CollectConfig

unfoldable pub is_parent_of : WatchTask → Cell → Bool
is_parent_of wt x =
    str_eq x.job.pipeline_name wt.pipeline_name && str_eq x.job.source_name wt.source_name

pub record FileInfo : Type 0 where
  pub uid : String
  pub size : ℕ
  pub mod_time : ℕ
  pub is_dir : Bool

-- What `os.Stat` answers.
pub data StatAnswer : Type 0 where
  found : FileInfo → StatAnswer
  not_exist stat_failed : StatAnswer

-- `order` is the order in which the runtime visits a map's keys.
pub record Env : Type 0 where
  pub now : ℕ
  pub abs : String → Option String
  pub stat : String → StatAnswer
  pub symlink : String → Option Bool
  pub glob : String → Option (List String)
  pub opening : Job → Opening
  pub head : String → ℕ → Option (List ℕ)
  pub md5 : List ℕ → String
  pub find_by : String → String → String → Registry
  pub registries : List Registry
  pub excluded : WatchTask → String → Bool
  pub line_ends : String → String → List ℕ × List ℕ
  pub dynamic_paths : String → String → Option (List (List String × Fields))
  pub order : List String → List String

pub record WatchConfig : Type 0 where
  pub max_open_fds : ℕ
  pub max_eof_count : ℕ
  pub clean_when_removed : Bool
  pub task_stop_timeout : ℕ
  pub nil_of_time : ℕ

-- `done` lists the keys of the tasks whose stopping has been waited for to the end, `db_opts` what
-- the registry was asked to do, the oldest first. `current_open_fds` is an int of the source.
pub record Watcher : Type 0 where
  pub config : WatchConfig
  pub source_watch_tasks : Dict WatchTask
  pub stopping_tasks : Dict WatchTask
  pub os_watch_files : Dict Bool
  pub store : ℕ → Cell
  pub fresh : ℕ
  pub all_jobs : Dict ℕ
  pub zombie_jobs : Dict ℕ
  pub current_open_fds : ℕ
  pub active_chan : List ℕ
  pub zombie_chan : List ℕ
  pub job_index : ℕ
  pub db_opts : List DbOpt
  pub done : List String

abbrev pub job_at : Watcher → ℕ → Job
job_at w a = (w.store a).job

abbrev pub write_cell : (ℕ → Cell) → ℕ → Job → ℕ → Cell
write_cell s a j b = if b == a then record (s a) { job = j } else s b

abbrev pub put_job : ℕ → Job → Watcher → Watcher
put_job a j w = record w { store = write_cell w.store a j }

abbrev pub key_of : Watcher → ℕ → String
key_of w a = watch_uid_of (job_at w a)

abbrev pub is_zombie_job : Watcher → ℕ → Bool
is_zombie_job w a = is_some (lookup (key_of w a) w.zombie_jobs)

unfoldable pub add_os_notify : String → Watcher → Watcher
add_os_notify file w = elim (lookup file w.os_watch_files) [
  | some _ ↦ w
  | none ↦ record w { os_watch_files = insert file true w.os_watch_files }
]

unfoldable pub remove_os_notify : String → Watcher → Watcher
remove_os_notify file w = elim (lookup file w.os_watch_files) [
  | none ↦ w
  | some _ ↦ record w { os_watch_files = delete file w.os_watch_files }
]

-- `if job.Release() { w.currentOpenFds-- }`
unfoldable pub release_job : ℕ → Watcher → Watcher
release_job a w =
    let (j, released) = release (job_at w a) in
    let next = put_job a j w in
    if released then record next { current_open_fds = w.current_open_fds - 1 } else next

abbrev pub registry_of : Job → Registry
registry_of j = record no_registry {
  pipeline_name = j.pipeline_name;
  source_name = j.source_name;
  filename = j.filename;
  job_uid = j.uid;
}

abbrev pub ask : DbOptType → Bool → Registry → Watcher → Watcher
ask t now r w = record w {
  db_opts = w.db_opts ++ record { r = r; opt_type = t; immediately = now } ∷ [];
}

unfoldable pub handle_rename_job : ℕ → Watcher → Watcher
handle_rename_job a w =
    put_job a (clean_rename w.config.nil_of_time (job_at w a))
      (ask update_name false (registry_of (job_at w a)) w)

-- The log line reads the time of deletion, which `job_delete` stores with the status.
unfoldable pub handle_remove_job : ℕ → Watcher → Watcher
handle_remove_job a w =
    if w.config.clean_when_removed
    then ask delete_by_job_uid false (registry_of (job_at w a)) w
    else w

-- The loop over the tasks that wait for jobs to stop: the tasks left, and the keys of those done.
unfoldable pub settle_tasks : String → Dict WatchTask → Dict WatchTask × List String
settle_tasks uid [] = ([], [])
settle_tasks uid ((k, task) ∷ tasks) =
    let (left, done) = settle_tasks uid tasks in
    let waits = delete uid task.waits in
    if length waits == 0
    then (left, k ∷ done)
    else ((k, record task { waits = waits }) ∷ left, done)

abbrev pub forget : String → Watcher → Watcher
forget key w = record w { zombie_jobs = delete key w.zombie_jobs; all_jobs = delete key w.all_jobs }

abbrev pub when : Bool → (Watcher → Watcher) → Watcher → Watcher
when true f w = f w
when false f w = w

abbrev pub settle : String → Watcher → Watcher
settle key w =
    let (left, done) = settle_tasks key w.stopping_tasks in
    record w { stopping_tasks = left; done = w.done ++ done }

unfoldable pub finalize_job : ℕ → Watcher → Watcher
finalize_job a w =
    let key = key_of w a in
    let w1 = release_job a (remove_os_notify (job_at w a).filename (forget key w)) in
    let w2 = when (is_rename w.config.nil_of_time (job_at w1 a)) (handle_rename_job a) w1 in
    settle key (when (is_delete (job_at w2 a)) (handle_remove_job a) w2)

-- What `DecideJob` does with a synchronised job. Metrics are left out.
unfoldable pub decided : ℕ → Job → Watcher → Watcher
decided a j w =
    let next =
      put_job a (record j { current_lines = if j.end_offset == 0 then j.current_lines else 0 }) w in
    if is_stop j || ltb w.config.max_eof_count j.eof_count
    then record next { zombie_chan = next.zombie_chan ++ a ∷ [] }
    else record next { active_chan = next.active_chan ++ a ∷ [] }

-- `DecideJob`, called by a worker; `none` where `Sync` panics.
unfoldable pub decide_job : ℕ → Watcher → Option Watcher
unfolding decided
decide_job a w = elim (sync (job_at w a)) [ none ↦ none | some j ↦ some (decided a j w) ]

unfoldable pub decide_zombie_job : ℕ → Watcher → Watcher
decide_zombie_job a w =
    if is_zombie_job w a
    then w
    else add_os_notify (job_at w a).filename
        (record w { zombie_jobs = insert (key_of w a) a w.zombie_jobs })
