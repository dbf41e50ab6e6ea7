-- ===== src/Watch/Run.antt =====
-- The messages that the watcher takes (`run` of pkg/source/file/watch.go), those of the workers
-- (pkg/source/file/reader_worker.go) among them, one turn of the loop after another.
use loggie.Prelude.{
  ℕ, ◌-◌, Bool, true, false, ◌||◌, Option, none, some, List, [], ◌∷◌, String, str_eq, ◌==◌, ltb,
  if◌then◌else◌, Dict, lookup,
}
use loggie.Job.{Job, is_stop, is_delete, job_stop}
use loggie.Watch.{
  Watcher, Cell, WatchConfig, WatchTask, FileInfo, Env, found, job_at, put_job, finalize_job,
  decide_job, decide_zombie_job,
}
use loggie.Watch.Events.{event_remove, event_write}
use loggie.Watch.Scan.{ignore_system_file}
use loggie.Watch.Loop.{keys, visit, all_of, scan_new_files, scan, start_task, stop_task}

-- What `fsnotify` reports: one of its operations, or several at once.
pub data NotifyOp : Type 0 where
  chmod create remove rename write several : NotifyOp

unfoldable pub notify_remove : Env → String → ℕ → Watcher → Option Watcher
notify_remove env name a w =
    let job = job_at w a in
    some (
      if is_delete job || is_stop job
      then w
      else if str_eq name job.filename
      then event_remove env a w
      else w)

unfoldable pub notify_write : Env → FileInfo → ℕ → Watcher → Option Watcher
notify_write env info a w =
    some (if str_eq (job_at w a).uid info.uid then event_write env info.size a w else w)

-- The operations that the watcher cares for, on a file by its absolute name.
unfoldable pub notify : Env → NotifyOp → String → Watcher → Option Watcher
notify env remove name w = visit all_of (notify_remove env name) (env.order (keys w.all_jobs)) w
notify env write name w = elim (env.stat name) [
  | found info ↦ visit all_of (notify_write env info) (env.order (keys w.all_jobs)) w
  | _ ↦ some w
]
notify env _ name w = some w

unfoldable pub os_notify : Env → NotifyOp → String → Watcher → Option Watcher
unfolding notify
os_notify env op name w =
    if ignore_system_file name
    then some w
    else elim (env.abs name) [ none ↦ some w | some full ↦ notify env op full w ]

abbrev pub stop_job : Env → ℕ → Watcher → Watcher
stop_job env a w = put_job a (job_stop env.now (job_at w a)) w

unfoldable pub stop_and_finalize : Env → ℕ → Watcher → Option Watcher
stop_and_finalize env a w = some (finalize_job a (stop_job env a w))

-- The jobs that a task waits for, of the tasks that the watcher still has.
abbrev pub task_waits : Option WatchTask → Dict ℕ
task_waits none = []
task_waits (some task) = task.waits

abbrev pub waits_of : String → Watcher → Dict ℕ
waits_of key w = task_waits (lookup key w.stopping_tasks)

-- The time since the zero time is longer than any.
abbrev pub is_timeout : Env → Watcher → WatchTask → Bool
is_timeout env w task = elim task.stop_time [
  | none ↦ true
  | some t ↦ ltb w.config.task_stop_timeout (env.now - t)
]

-- `checkWaitForStopTask`, for the tasks with these keys.
unfoldable pub check_tasks : Env → List String → Watcher → Option Watcher
unfolding stop_and_finalize
check_tasks env [] w = some w
check_tasks env (k ∷ ks) w = elim (lookup k w.stopping_tasks) [
  | none ↦ check_tasks env ks w
  | some task ↦
      if is_timeout env w task
      then elim (visit (waits_of k) (stop_and_finalize env) (env.order (keys task.waits)) w) [
        | none ↦ none
        | some next ↦ check_tasks env ks next
      ]
      else check_tasks env ks w
]

unfoldable pub check_wait_for_stop_task : Env → Watcher → Option Watcher
unfolding check_tasks
check_wait_for_stop_task env w = check_tasks env (env.order (keys w.stopping_tasks)) w

-- `Stop`, once the loop is over.
unfoldable pub stop_watcher : Env → Watcher → Option Watcher
unfolding stop_and_finalize
stop_watcher env w = visit all_of (stop_and_finalize env) (env.order (keys w.all_jobs)) w

-- A job taken out of the channel that it waits in.
unfoldable pub take_active : ℕ → List ℕ → List ℕ
take_active a [] = []
take_active a (b ∷ bs) = let left = take_active a bs in if b == a then bs else b ∷ left

abbrev pub member : ℕ → List ℕ → Bool
member a [] = false
member a (b ∷ bs) = b == a || member a bs

-- A turn of a worker: it takes a job out of its task's channel (which of those that wait there is
-- `a`'s business), does `work` to it, and hands it back.
unfoldable pub worker_turn : (Job → Job) → ℕ → Watcher → Option Watcher
unfolding take_active
worker_turn work a w =
    let taken = record w { active_chan = take_active a w.active_chan } in
    if member a w.active_chan then decide_job a (put_job a (work (job_at w a)) taken) else some w

abbrev pub take_zombie : List ℕ → Watcher → Watcher
take_zombie [] w = w
take_zombie (a ∷ rest) w = decide_zombie_job a (record w { zombie_chan = rest })

unfoldable pub next_zombie : Watcher → Watcher
next_zombie w = take_zombie w.zombie_chan w

pub data Message : Type 0 where
  starts stops : WatchTask → Message
  zombie_comes scan_ticks maintenance_ticks : Message
  notifies : NotifyOp → String → Message
  works : (Job → Job) → ℕ → Message

-- One turn of the loop, or of a worker. Metrics and the cleaning of files are left out.
unfoldable pub turn : String → Env → Message → Watcher → Option Watcher
unfolding next_zombie
turn dynamic env (starts task) w =
    some
      (start_task env task (scan_new_files dynamic env (env.order (keys w.source_watch_tasks)) w))
turn dynamic env (stops task) w = some (stop_task env task w)
turn dynamic env zombie_comes w = some (next_zombie w)
turn dynamic env scan_ticks w = scan dynamic env w
turn dynamic env maintenance_ticks w = check_wait_for_stop_task env w
turn dynamic env (notifies op name) w = os_notify env op name w
turn dynamic env (works work a) w = worker_turn work a w

unfoldable pub run : String → List (Env × Message) → Watcher → Option Watcher
run dynamic [] w = some w
run dynamic ((env, m) ∷ ms) w = elim (turn dynamic env m w) [
  | none ↦ none
  | some next ↦ run dynamic ms next
]

-- `newWatcher`: no job and no open file. What a cell holds before it is a job's does not matter.
abbrev pub new_watcher : WatchConfig → Cell → Watcher
new_watcher config x = record {
  config = config;
  source_watch_tasks = [];
  stopping_tasks = [];
  os_watch_files = [];
  store = λ _. x;
  fresh = 0;
  all_jobs = [];
  zombie_jobs = [];
  current_open_fds = 0;
  active_chan = [];
  zombie_chan = [];
  job_index = 0;
  db_opts = [];
  done = [];
}
