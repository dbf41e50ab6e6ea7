-- ===== src/Watch/Loop.antt =====
-- The loop of the watcher (pkg/source/file/watch.go): what is done with a task, a message of the
-- operating system, a tick of a timer and a job that a worker is done with. A Go loop over a map
-- visits its keys in an order that the runtime chooses, and skips what was deleted before its turn.
-- `none` is a panic.
use loggie.Prelude.{
  ℕ, ◌-◌, true, false, not, ◌&&◌, ◌||◌, Option, none, some, List, [], ◌∷◌, ◌++◌, String, str_eq,
  ltb, length, is_some, if◌then◌else◌, Dict, lookup, insert, delete,
}
use loggie.Job.{is_stop, is_delete, is_delete_timeout, is_rename, job_stop}
use loggie.Persist.{Registry, delete_by_id}
use loggie.Watch.{
  Watcher, WatchTask, FileInfo, Env, found, not_exist, stat_failed, job_at, put_job, key_of,
  is_zombie_job, is_parent_of, watch_task_key, task_is_stop, release_job, ask, handle_rename_job,
  when, finalize_job, decide_zombie_job,
}
use loggie.Watch.Events.{event_remove, event_write}
use loggie.Watch.Scan.{is_ignore_older, scan_task_new_files}

abbrev pub keys {ℓ} : {A : Type ℓ} → Dict A → List String
keys [] = []
keys ((k, _) ∷ dict) = k ∷ keys dict

unfoldable pub visit :
    (Watcher → Dict ℕ) → (ℕ → Watcher → Option Watcher) → List String → Watcher → Option Watcher
visit jobs f [] w = some w
visit jobs f (k ∷ ks) w = elim (lookup k (jobs w)) [
  | none ↦ visit jobs f ks w
  | some a ↦ elim (f a w) [ none ↦ none | some next ↦ visit jobs f ks next ]
]

abbrev pub all_of : Watcher → Dict ℕ
all_of w = w.all_jobs

abbrev pub zombies_of : Watcher → Dict ℕ
zombies_of w = w.zombie_jobs

-- One job of `scanActiveJob`.
unfoldable pub scan_active_at : Env → ℕ → Watcher → Option Watcher
scan_active_at env a w =
    let job = job_at w a in
    let config = (w.store a).config in
    let stopped = put_job a (job_stop env.now job) w in
    if is_stop job || is_zombie_job w a
    then some w
    else elim (is_delete_timeout env.now config.fd_hold_timeout_when_remove job) [
      | none ↦ none
      | some true ↦ some stopped
      | some false ↦ some (
          if ltb config.fd_hold_timeout_when_inactive (env.now - job.last_active_time)
          then release_job a stopped
          else w)
    ]

unfoldable pub scan_active_job : Env → Watcher → Option Watcher
scan_active_job env w = visit all_of (scan_active_at env) (env.order (keys w.all_jobs)) w

unfoldable pub scan_new_files : String → Env → List String → Watcher → Watcher
scan_new_files dynamic env [] w = w
scan_new_files dynamic env (k ∷ ks) w = elim (lookup k w.source_watch_tasks) [
  | none ↦ scan_new_files dynamic env ks w
  | some task ↦ scan_new_files dynamic env ks (scan_task_new_files dynamic env task w)
]

-- What `checkRemove` answers: the file is gone, which was handled, or is still the job's.
pub data Checked : Type 0 where
  removed : Watcher → Checked
  still : FileInfo → Checked

-- `JobUid` of a nil `FileInfo` panics.
unfoldable pub check_remove : Env → ℕ → Watcher → Option Checked
check_remove env a w = elim (env.stat (job_at w a).filename) [
  | not_exist ↦ some (removed (event_remove env a w))
  | stat_failed ↦ none
  | found info ↦
      some (if str_eq info.uid (job_at w a).uid then still info else removed (event_remove env a w))
]

unfoldable pub any_written : Env → ℕ → FileInfo → Watcher → Watcher
any_written env a info w =
    if ltb (job_at w a).next_offset info.size
      && not (is_ignore_older env.now (w.store a).config info)
    then event_write env info.size a w
    else w

-- A zombie job without a handle, whose file is still there.
unfoldable pub scan_idle : Env → ℕ → FileInfo → Watcher → Watcher
unfolding any_written
scan_idle env a info w =
    let job = job_at w a in
    let again = record job { end_offset = 0; next_offset = 0; current_line_number = 0 } in
    if ltb info.size job.end_offset && (w.store a).config.reread_truncated
    then event_write env info.size a (put_job a again w)
    else any_written env a info w

-- A zombie job that holds its file.
unfoldable pub scan_held : Env → ℕ → Watcher → Watcher
unfolding any_written
scan_held env a w =
    let job = job_at w a in
    let free = release_job a w in
    if ltb (w.store a).config.fd_hold_timeout_when_inactive (env.now - job.last_active_time)
    then when (is_rename w.config.nil_of_time (job_at free a)) (handle_rename_job a) free
    else elim (env.stat job.filename) [ found info ↦ any_written env a info w | _ ↦ w ]

-- What is done once `checkRemove` has answered.
abbrev pub unless_removed : (FileInfo → Watcher) → Option Checked → Option Watcher
unless_removed f none = none
unless_removed f (some (removed gone)) = some gone
unless_removed f (some (still info)) = some (f info)

-- One job of `scanZombieJob`.
unfoldable pub scan_zombie_at : Env → ℕ → Watcher → Option Watcher
unfolding check_remove scan_idle scan_held
scan_zombie_at env a w =
    if is_delete (job_at w a)
    then some (finalize_job a w)
    else if is_stop (job_at w a)
    then unless_removed (λ _. finalize_job a w) (check_remove env a w)
    else if is_some (job_at w a).file
    then some (scan_held env a w)
    else unless_removed (λ info. scan_idle env a info w) (check_remove env a w)

unfoldable pub scan_zombie_job : Env → Watcher → Option Watcher
scan_zombie_job env w = visit zombies_of (scan_zombie_at env) (env.order (keys w.zombie_jobs)) w

unfoldable pub scan : String → Env → Watcher → Option Watcher
scan dynamic env w = elim (scan_active_job env w) [
  | none ↦ none
  | some x ↦
      scan_zombie_job env (scan_new_files dynamic env (env.order (keys x.source_watch_tasks)) x)
]

unfoldable pub clean_registries : Env → WatchTask → List Registry → Watcher → Watcher
clean_registries env task [] w = w
clean_registries env task (r ∷ rs) w =
    let cleaned = clean_registries env task rs (ask delete_by_id true r w) in
    let kept = clean_registries env task rs w in
    if str_eq r.pipeline_name task.pipeline_name && str_eq r.source_name task.source_name
    then elim (env.stat r.filename) [ not_exist ↦ cleaned | _ ↦ kept ]
    else kept

unfoldable pub clean_watch_task_registry : Env → WatchTask → Watcher → Watcher
unfolding clean_registries
clean_watch_task_registry env task w =
    when w.config.clean_when_removed (clean_registries env task env.registries) w

unfoldable pub start_task : Env → WatchTask → Watcher → Watcher
unfolding watch_task_key clean_watch_task_registry
start_task env task w =
    if task_is_stop task
    then w
    else clean_watch_task_registry env task
        (record w { source_watch_tasks = insert (watch_task_key task) task w.source_watch_tasks })

-- One job, when a task stops: a zombie is finalized, any other job is waited for.
unfoldable pub stop_one : Env → WatchTask → ℕ → Watcher → Dict ℕ → Watcher × Dict ℕ
stop_one env task a w waits =
    let stopped = put_job a (job_stop env.now (job_at w a)) w in
    if not (is_parent_of task (w.store a))
    then (w, waits)
    else if is_zombie_job stopped a
    then (finalize_job a stopped, waits)
    else (stopped, insert (key_of stopped a) a waits)

unfoldable pub stop_jobs : Env → WatchTask → List String → Watcher → Dict ℕ → Watcher × Dict ℕ
unfolding stop_one
stop_jobs env task [] w waits = (w, waits)
stop_jobs env task (k ∷ ks) w waits = elim (lookup k w.all_jobs) [
  | none ↦ stop_jobs env task ks w waits
  | some a ↦ let (next, more) = stop_one env task a w waits in stop_jobs env task ks next more
]

unfoldable pub decide_zombies : List ℕ → Watcher → Watcher
decide_zombies [] w = w
decide_zombies (a ∷ more) w = decide_zombies more (decide_zombie_job a w)

-- The goroutine that `aggressivelyStopWatchTask` starts is more turns of a worker, by messages of
-- their own.
unfoldable pub aggressively_stop_watch_task : Watcher → Watcher
unfolding decide_zombies
aggressively_stop_watch_task w = decide_zombies w.zombie_chan (record w { zombie_chan = [] })

unfoldable pub stop_task : Env → WatchTask → Watcher → Watcher
unfolding watch_task_key stop_jobs aggressively_stop_watch_task
stop_task env task w =
    let key = watch_task_key task in
    let left = record w { source_watch_tasks = delete key w.source_watch_tasks } in
    let (next, waits) = stop_jobs env task (env.order (keys w.all_jobs)) left [] in
    let waiting = record next {
      stopping_tasks = insert key (record task { waits = waits }) next.stopping_tasks;
    } in
    if ltb 0 (length waits)
    then aggressively_stop_watch_task waiting
    else record next { done = next.done ++ key ∷ [] }
