-- ===== src/Watch/Examples.antt =====
-- A watcher at concrete messages.
use loggie.Prelude.{
  ℕ, ◌≡◌, ◌≤◌, ◌↔◌, refl, ap, Option, Bool, Bool-cases, true, false, none, some, List, [], ◌∷◌,
  String, str_eq, if◌then◌else◌, lookup, inl, inr, arith,
}
use loggie.Job.{job_active, active_open, set_next_offset}
use loggie.Job.Examples.{the_job, the_file}
use loggie.Persist.{no_registry}
use loggie.Watch.{
  CollectConfig, WatchTask, WatchConfig, Cell, Watcher, Env, FileInfo, StatAnswer, found, not_exist,
  stat_failed, job_at, finalize_job, key_of,
}
use loggie.Watch.Events.{event_create, placed_job}
use loggie.Watch.Loop.{stop_task, scan_new_files, scan_zombie_at}
use loggie.Watch.Run.{
  Message, starts, stops, scan_ticks, maintenance_ticks, zombie_comes, works, notifies, write, run,
  new_watcher,
}
use loggie.Watch.Fds.{open_fds, Valid, valid}
use loggie.Watch.Limit.{scan_new_files-Limited}
use loggie.Watch.Creating.{Created, event_create-Created}
use loggie.Watch.Finalizing.{Gone, finalize_job-Gone}
use loggie.Watch.Panics.{Unknown, scan_zombie_at-panics}
use loggie.Watch.Stopping.{TaskStopped, stop_task-TaskStopped}
use loggie.Watch.Fds.Run.{Counted, Works, run-Counted}
use loggie.Watch.Fds.Loop.{Answers}

abbrev collect : CollectConfig
collect = record {
  paths = "*.log" ∷ [];
  ignore_older = none;
  ignore_symlink = false;
  first_n_bytes_for_identifier = 4;
  fd_hold_timeout_when_inactive = 300;
  fd_hold_timeout_when_remove = 300;
  reread_truncated = true;
  read_from_tail = false;
}

abbrev the_task : WatchTask
the_task = record {
  epoch = record { pipeline_name = "p"; reload_count = 1; start_time = 7 };
  pipeline_name = "p";
  source_name = "s";
  config = collect;
  stop_time = none;
  waits = [];
}

abbrev limits : WatchConfig
limits = record {
  max_open_fds = 2;
  max_eof_count = 3;
  clean_when_removed = true;
  task_stop_timeout = 30;
  nil_of_time = 1;
}

abbrev the_info : FileInfo
the_info = record { uid = "1-2"; size = 40; mod_time = 8; is_dir = false }

abbrev the_stat : String → StatAnswer
the_stat file = if str_eq file "a.log" then found the_info else not_exist

-- A file that was read and acked up to 12.
abbrev the_env : Env
the_env = record {
  now = 9;
  abs = λ s. some s;
  stat = the_stat;
  symlink = λ _. some false;
  glob = λ _. some ("a.log" ∷ []);
  opening = λ _. the_file;
  head = λ _ _. some (97 ∷ 98 ∷ 99 ∷ 100 ∷ []);
  md5 = λ _. "x";
  find_by = λ _ _ _. record no_registry { offset = 12 };
  registries = [];
  excluded = λ _ _. false;
  line_ends = λ _ _. (10 ∷ [], 10 ∷ []);
  dynamic_paths = λ _ _. none;
  order = λ ks. ks;
}

abbrev the_cell : Cell
the_cell = record { job = record the_job { next_offset = 0 }; config = collect }

abbrev start : Watcher
start = new_watcher limits the_cell

eof : Works (works (λ j. record j { eof_count = 9 }) 0)
eof j = (refl, λ s. record { stored = s.stored; dated = s.dated; a_dated = s.a_dated })

abbrev ms : List (Env × Message)
ms =
    (the_env, starts the_task)
    ∷ (the_env, scan_ticks)
    ∷ (the_env, works (λ j. record j { eof_count = 9 }) 0)
    ∷ (the_env, zombie_comes)
    ∷ (the_env, notifies write "a.log")
    ∷ (the_env, stops the_task)
    ∷ (the_env, scan_ticks)
    ∷ (the_env, maintenance_ticks)
    ∷ []

abbrev is_failed : StatAnswer → Bool
is_failed stat_failed = true
is_failed _ = false

the-Answers : Answers the_env
the-Answers file h = elim (Bool-cases (str_eq file "a.log")) [
  | inl e ↦ absurd (ground (arith, ap is_failed (simp e at h)))
  | inr e ↦ absurd (ground (arith, ap is_failed (simp e at h)))
]

run-Counted_example : Counted (run "containerLogs" ms start)
run-Counted_example = run-Counted "containerLogs" limits the_cell ms (
  (the-Answers, tt),
  (
    (the-Answers, tt),
    (
      (the-Answers, eof),
      (
        (the-Answers, tt),
        ((the-Answers, tt), ((the-Answers, tt), ((the-Answers, tt), ((the-Answers, tt), tt)))),
      ),
    ),
  ),
)

-- The watcher with one task, before its first scan.
abbrev with_task : Watcher
with_task = record start { source_watch_tasks = ("p:s", the_task) ∷ [] }

with_task-Valid : Valid 0 with_task
unfolding open_fds
with_task-Valid =
    valid (record { sized = omega arith; counted = refl; sound = λ a h. absurd (omega (arith, h)) })
      tt tt tt tt tt

abbrev scanned : Watcher
scanned = scan_new_files "containerLogs" the_env ("p:s" ∷ []) with_task

scan_new_files-Limited_example :
    (open_fds scanned.store scanned.fresh ≤ 2)
    × (scanned.current_open_fds ≡ open_fds scanned.store scanned.fresh)
unfolding open_fds
scan_new_files-Limited_example =
    scan_new_files-Limited 0 "containerLogs" the_env ("p:s" ∷ []) with_task with_task-Valid
      (omega arith)

event_create-Created_example :
    Created the_env the_cell 40 start (event_create the_env the_cell start)
unfolding lookup job_active active_open placed_job set_next_offset
event_create-Created_example =
    event_create-Created the_env the_cell start the_info (omega arith) refl refl refl refl refl

finalize_job-Gone_example : Gone (key_of start 0) 0 (finalize_job 0 start)
finalize_job-Gone_example = finalize_job-Gone 0 start

abbrev blind : Env
blind = record the_env { stat = λ _. stat_failed }

scan_zombie_at-panics_example : (scan_zombie_at blind 0 start ≡ none) ↔ Unknown blind 0 start
scan_zombie_at-panics_example = scan_zombie_at-panics blind 0 start

-- A job of the task that waits for a worker, while the task stops.
abbrev busy : Watcher
busy = record start {
  fresh = 1;
  all_jobs = ("p:s:1-2", 0) ∷ [];
  active_chan = 0 ∷ [];
  source_watch_tasks = ("p:s", the_task) ∷ [];
}

stop_task-TaskStopped_example : TaskStopped the_task (stop_task the_env the_task busy)
stop_task-TaskStopped_example = stop_task-TaskStopped the_env the_task busy (λ ks k h. h)

-- After the first four messages the job is a zombie that holds its file open at the acked offset.
four : Option ℕ × (ℕ × ℕ)
four =
    elim (run "containerLogs"
      ((the_env, starts the_task)
        ∷ (the_env, scan_ticks)
        ∷ (the_env, works (λ j. record j { eof_count = 9 }) 0)
        ∷ (the_env, zombie_comes)
        ∷ [])
      start) [ none ↦ (none, (0, 0)) | some w ↦ ((job_at w 0).file, (w.current_open_fds, w.fresh)) ]
