-- ===== src/Watch/Fds/Run.antt =====
-- The watcher's count of open files, message after message.
use loggie.Prelude.{
  sym, subst, ℕ, ◌<◌, ◌≡◌, refl, true, ◌||◌, Option, some, List, [], ◌∷◌, ◌==◌, String, str_eq,
  lookup, Each-lookup, All, arith, Bool-cases, Option-cases, inl, inr,
}
use loggie.Job.{Job, is_stop, is_delete}
use loggie.Job.Files.{fds, Sound}
use loggie.Watch.{Watcher, Cell, WatchConfig, FileInfo, Env, job_at}
use loggie.Watch.Scan.{ignore_system_file}
use loggie.Watch.Loop.{keys, all_of}
use loggie.Watch.Run.{
  NotifyOp, chmod, create, remove, rename, write, several, notify_remove, notify_write, notify,
  os_notify, stop_job, stop_and_finalize, task_waits, waits_of, is_timeout, check_tasks,
  check_wait_for_stop_task, take_active, member, worker_turn, take_zombie, next_zombie, Message,
  starts, stops, zombie_comes, scan_ticks, maintenance_ticks, notifies, works, turn, run,
  new_watcher,
}
use loggie.Watch.Fds.{valid, Valid, Goes, Bounded, open_fds, lower, job-Valid}
use loggie.Watch.Fds.Jobs.{finalize_job-Valid, decide_zombie_job-Valid, decide_job-Goes}
use loggie.Watch.Fds.Events.{event_remove-Valid, event_write-Valid}
use loggie.Watch.Keeping.{StatAnswer-cases}
use loggie.Watch.Fds.Scan.{scan_new_files-Valid}
use loggie.Watch.Fds.Tasks.{start_task-Valid, stop_task-Valid}
use loggie.Watch.Fds.Loop.{goes, visit-Goes, stop-Valid, Answers, scan-Goes}

-- What a worker does to a job neither opens nor closes its file, nor unmarks it.
abbrev pub Works : Message → Type 0
Works (works work a) = (j : Job) → (fds (work j) ≡ fds j) × (Sound j → Sound (work j))
Works _ = Unit

abbrev pub Fair : Env × Message → Type 0
Fair (env, m) = Answers env × Works m

module _ (n : ℕ) (env : Env) where
  notify_remove-Goes :
      (name : String) (w : Watcher) (a : ℕ)
      → Valid n w
      → a < n
      → Goes n (notify_remove env name a w)
  unfolding notify_remove
  notify_remove-Goes name w a v h =
      elim (Bool-cases (is_delete (job_at w a) || is_stop (job_at w a))) [
        | inl e ↦ simp (notify_remove, e) (goes n w v)
        | inr e ↦ elim (Bool-cases (str_eq name (job_at w a).filename)) [
          | inl f ↦ simp (notify_remove, e, f) (goes n _ (event_remove-Valid n env w a v h))
          | inr f ↦ simp (notify_remove, e, f) (goes n w v)
        ]
      ]

  notify_write-Goes :
      (info : FileInfo) (w : Watcher) (a : ℕ)
      → Valid n w
      → a < n
      → Goes n (notify_write env info a w)
  unfolding notify_write
  notify_write-Goes info w a v h = elim (Bool-cases (str_eq (job_at w a).uid info.uid)) [
    | inl e ↦ simp (notify_write, e) (goes n _ (event_write-Valid n env info.size w a v h))
    | inr e ↦ simp (notify_write, e) (goes n w v)
  ]

  stop_and_finalize-Goes :
      (w : Watcher) (a : ℕ) → Valid n w → a < n → Goes n (stop_and_finalize env a w)
  unfolding stop_and_finalize
  stop_and_finalize-Goes w a v h =
      goes n _ (finalize_job-Valid n (stop_job env a w) a (stop-Valid n env w a v h) h)

notify-Goes :
    (n : ℕ) (env : Env) (op : NotifyOp) (name : String) (w : Watcher)
    → Valid n w
    → Goes n (notify env op name w)
unfolding notify
notify-Goes n env chmod name w v = goes n w v
notify-Goes n env create name w v = goes n w v
notify-Goes n env rename name w v = goes n w v
notify-Goes n env several name w v = goes n w v
notify-Goes n env remove name w v =
    visit-Goes n all_of (notify_remove env name) (λ x c. c.all) (λ m. notify_remove-Goes m env name)
      (env.order (keys w.all_jobs)) w v
notify-Goes n env write name w v = elim (StatAnswer-cases (env.stat name)) [
  | inr (inl g) ↦ simp (notify, g) (goes n w v)
  | inr (inr g) ↦ simp (notify, g) (goes n w v)
  | inl (info, g) ↦
      simp (notify, g)
        (visit-Goes n all_of (notify_write env info) (λ x c. c.all)
          (λ m. notify_write-Goes m env info) (env.order (keys w.all_jobs)) w v)
]

os_notify-Goes :
    (n : ℕ) (env : Env) (op : NotifyOp) (name : String) (w : Watcher)
    → Valid n w
    → Goes n (os_notify env op name w)
unfolding os_notify
os_notify-Goes n env op name w v = elim (Bool-cases (ignore_system_file name)) [
  | inl e ↦ simp (os_notify, e) (goes n w v)
  | inr e ↦ elim (Option-cases (env.abs name)) [
    | inl f ↦ simp (os_notify, e, f) (goes n w v)
    | inr (full, f) ↦ simp (os_notify, e, f) (notify-Goes n env op full w v)
  ]
]

waits-Bounded : (n : ℕ) (k : String) (w : Watcher) → Valid n w → Bounded w.fresh (waits_of k w)
waits-Bounded n k w v = elim (Option-cases (lookup k w.stopping_tasks)) [
  | inl e ↦ subst (λ o. Bounded w.fresh (task_waits o)) (sym e) tt
  | inr (t, e) ↦
      subst (λ o. Bounded w.fresh (task_waits o)) (sym e)
        (Each-lookup (λ x. Bounded w.fresh x.waits) k t w.stopping_tasks v.stopping e)
]

check_tasks-Goes :
    (n : ℕ) (env : Env) (ks : List String) (w : Watcher) → Valid n w → Goes n (check_tasks env ks w)
unfolding check_tasks
check_tasks-Goes n env [] w v = goes n w v
check_tasks-Goes n env (k ∷ ks) w v = elim (Option-cases (lookup k w.stopping_tasks)) [
  | inl e ↦ simp (check_tasks, e) (check_tasks-Goes n env ks w v)
  | inr (task, e) ↦ elim (Bool-cases (is_timeout env w task)) [
    | inr f ↦ simp (check_tasks, e, f) (check_tasks-Goes n env ks w v)
    | inl f ↦
        let r =
          visit-Goes n (waits_of k) (stop_and_finalize env) (waits-Bounded n k)
            (λ m. stop_and_finalize-Goes m env) (env.order (keys task.waits)) w v in
        simp (check_tasks, e, f, r.returns) (check_tasks-Goes n env ks r.after r.valid)
  ]
]

take_active-All :
    (m a : ℕ) (xs : List ℕ) → All (λ b. b < m) xs → All (λ b. b < m) (take_active a xs)
unfolding take_active
take_active-All m a [] h = tt
take_active-All m a (b ∷ bs) h = elim (Bool-cases (b == a)) [
  | inl e ↦ simp e h.1
  | inr e ↦ simp e (h.0, take_active-All m a bs h.1)
]

member-below : (m a : ℕ) (xs : List ℕ) → All (λ b. b < m) xs → member a xs ≡ true → a < m
member-below m a [] h e = absurd (ground (arith, e))
member-below m a (b ∷ bs) h e = elim (Bool-cases (b == a)) [
  | inl c ↦ ground (arith, c, h.0)
  | inr c ↦ member-below m a bs h.1 (simp c at e)
]

worker_turn-Goes :
    (n : ℕ) (work : Job → Job) (a : ℕ) (w : Watcher)
    → ((j : Job) → (fds (work j) ≡ fds j) × (Sound j → Sound (work j)))
    → Valid n w
    → Goes n (worker_turn work a w)
unfolding worker_turn
worker_turn-Goes n work a w k v = elim (Bool-cases (member a w.active_chan)) [
  | inr e ↦ simp (worker_turn, e) (goes n w v)
  | inl e ↦
      let below = member-below w.fresh a w.active_chan v.active e in
      let taken = record w { active_chan = take_active a w.active_chan } in
      let fine : Valid w.fresh taken =
        valid (record { sized = omega arith; counted = v.cells.counted; sound = v.cells.sound })
          v.all v.zombies (take_active-All w.fresh a w.active_chan v.active) v.zombie v.stopping in
      let (same, sound) = k (job_at w a) in
      let worked =
        job-Valid w.fresh taken a (work (job_at w a)) fine below same
          (sound (v.cells.sound a below)) in
      let r = decide_job-Goes w.fresh _ a worked below in
      simp (worker_turn, e)
        (record {
          after = r.after;
          returns = r.returns;
          valid = lower n w.fresh r.after v.cells.sized r.valid;
        })
]

take_zombie-Valid :
    (n : ℕ) (jobs : List ℕ) (w : Watcher)
    → All (λ a. a < w.fresh) jobs
    → Valid n w
    → Valid n (take_zombie jobs w)
take_zombie-Valid n [] w h v = v
take_zombie-Valid n (a ∷ rest) w h v =
    let left : Valid w.fresh (record w { zombie_chan = rest }) =
      valid (record { sized = omega arith; counted = v.cells.counted; sound = v.cells.sound }) v.all
        v.zombies v.active h.1 v.stopping in
    lower n w.fresh _ v.cells.sized (decide_zombie_job-Valid w.fresh _ a left h.0)

turn-Goes :
    (n : ℕ) (dynamic : String) (env : Env) (m : Message) (w : Watcher)
    → Fair (env, m)
    → Valid n w
    → Goes n (turn dynamic env m w)
unfolding turn next_zombie check_wait_for_stop_task
turn-Goes n dynamic env (starts task) w f v = goes n _ (
    start_task-Valid n env task _
      (scan_new_files-Valid n env dynamic (env.order (keys w.source_watch_tasks)) w v))
turn-Goes n dynamic env (stops task) w f v = goes n _ (stop_task-Valid n env task w v)
turn-Goes n dynamic env zombie_comes w f v =
    goes n _ (take_zombie-Valid n w.zombie_chan w v.zombie v)
turn-Goes n dynamic env scan_ticks w f v = scan-Goes n dynamic env w f.0 v
turn-Goes n dynamic env maintenance_ticks w f v =
    check_tasks-Goes n env (env.order (keys w.stopping_tasks)) w v
turn-Goes n dynamic env (notifies op name) w f v = os_notify-Goes n env op name w v
turn-Goes n dynamic env (works work a) w f v = worker_turn-Goes n work a w f.1 v

run-Valid :
    (dynamic : String) (ms : List (Env × Message)) (w : Watcher)
    → All Fair ms
    → Valid 0 w
    → Goes 0 (run dynamic ms w)
unfolding run
run-Valid dynamic [] w f v = goes 0 w v
run-Valid dynamic ((env, m) ∷ ms) w f v =
    let r = turn-Goes 0 dynamic env m w f.0 v in
    simp (run, r.returns) (run-Valid dynamic ms r.after f.1 r.valid)

pub record Counted (r : Option Watcher) : Type 0 where
  pub after : Watcher
  pub returns : r ≡ some after
  pub counted : after.current_open_fds ≡ open_fds after.store after.fresh

-- Whatever comes to a new watcher, in whatever order: it does not panic, and `currentOpenFds` is the
-- number of files that jobs hold open. The file system's answers may fail only because the file is
-- not there, and a worker may neither open nor close the file of a job, nor unmark it.
pub run-Counted :
    (dynamic : String) (config : WatchConfig) (x : Cell) (ms : List (Env × Message))
    → All Fair ms
    → Counted (run dynamic ms (new_watcher config x))
unfolding open_fds
run-Counted dynamic config x ms f =
    let start : Valid 0 (new_watcher config x) =
      valid
        (record { sized = omega arith; counted = refl; sound = λ a h. absurd (omega (arith, h)) })
        tt tt tt tt tt in
    let r = run-Valid dynamic ms (new_watcher config x) f start in
    record { after = r.after; returns = r.returns; counted = r.valid.cells.counted }
