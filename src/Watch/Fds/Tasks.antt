-- ===== src/Watch/Fds/Tasks.antt =====
-- The watcher's count of open files while tasks start and stop.
use loggie.Prelude.{
  ℕ, ◌<◌, true, ◌&&◌, List, [], ◌∷◌, String, str_eq, ltb, length, is_some, Dict, lookup, insert,
  delete, Each-lookup, Each-insert, All, arith, Bool-cases, Option-cases, inl, inr,
}
use loggie.Job.{job_stop}
use loggie.Persist.{Registry, delete_by_id}
use loggie.Watch.{
  watch_task_key, Watcher, WatchTask, Env, job_at, put_job, is_zombie_job, is_parent_of, key_of,
}
use loggie.Watch.Loop.{
  keys, clean_registries, clean_watch_task_registry, start_task, stop_one, stop_jobs,
  decide_zombies, aggressively_stop_watch_task, stop_task,
}
use loggie.Watch.Fds.{valid, Valid, Bounded, Bounded-weaken, grow, lower}
use loggie.Watch.Fds.Jobs.{when-Valid, ask-Valid, finalize_job-Valid, decide_zombie_job-Valid}
use loggie.Watch.Keeping.{StatAnswer-cases}
use loggie.Watch.Fds.Loop.{stop-Valid}

module _ (n : ℕ) (env : Env) where
  clean_registries-Valid :
      (task : WatchTask) (rs : List Registry) (w : Watcher)
      → Valid n w
      → Valid n (clean_registries env task rs w)
  unfolding clean_registries
  clean_registries-Valid task [] w v = v
  clean_registries-Valid task (r ∷ rs) w v =
      let kept = clean_registries-Valid task rs w v in
      let cleaned = clean_registries-Valid task rs _ (ask-Valid n delete_by_id true r w v) in
      elim (Bool-cases
        (str_eq r.pipeline_name task.pipeline_name && str_eq r.source_name task.source_name)) [
          | inr e ↦ simp (clean_registries, e) kept
          | inl e ↦ elim (StatAnswer-cases (env.stat r.filename)) [
            | inl (info, f) ↦ simp (clean_registries, e, f) kept
            | inr (inl f) ↦ simp (clean_registries, e, f) cleaned
            | inr (inr f) ↦ simp (clean_registries, e, f) kept
          ]
        ]

  pub start_task-Valid :
      (task : WatchTask) (w : Watcher) → Valid n w → Valid n (start_task env task w)
  unfolding start_task clean_watch_task_registry
  start_task-Valid task w v = elim (Bool-cases (is_some task.stop_time)) [
    | inl e ↦ simp (start_task, e) v
    | inr e ↦
        let known : Valid n (record w {
          source_watch_tasks = insert (watch_task_key task) task w.source_watch_tasks;
        }) =
          valid v.cells v.all v.zombies v.active v.zombie v.stopping in
        simp (start_task, e)
          (when-Valid n w.config.clean_when_removed (clean_registries env task env.registries) _
            (λ x c. clean_registries-Valid task env.registries x c) known)
  ]

pub decide_zombies-Valid :
    (n : ℕ) (jobs : List ℕ) (w : Watcher)
    → All (λ a. a < n) jobs
    → Valid n w
    → Valid n (decide_zombies jobs w)
unfolding decide_zombies
decide_zombies-Valid n [] w h v = v
decide_zombies-Valid n (a ∷ more) w h v =
    decide_zombies-Valid n more _ h.1 (decide_zombie_job-Valid n w a v h.0)

aggressively-Valid : (n : ℕ) (w : Watcher) → Valid n w → Valid n (aggressively_stop_watch_task w)
unfolding aggressively_stop_watch_task
aggressively-Valid n w v = lower n w.fresh _ v.cells.sized (
    decide_zombies-Valid w.fresh w.zombie_chan _ v.zombie (
      valid (record { sized = omega arith; counted = v.cells.counted; sound = v.cells.sound }) v.all
        v.zombies v.active tt v.stopping))

-- The watcher, and the jobs to wait for, while a task stops.
pub record Waiting (n : ℕ) (r : Watcher × Dict ℕ) : Type 0 where
  pub valid : Valid n r.0
  pub bounded : Bounded r.0.fresh r.1

stop_one-Waiting :
    (n : ℕ) (env : Env) (task : WatchTask) (a : ℕ) (w : Watcher) (waits : Dict ℕ)
    → Valid n w
    → a < w.fresh
    → Bounded w.fresh waits
    → Waiting n (stop_one env task a w waits)
unfolding stop_one
stop_one-Waiting n env task a w waits v h b =
    let stopped = put_job a (job_stop env.now (job_at w a)) w in
    let valid = stop-Valid w.fresh env w a (grow n w v) h in
    let gone = finalize_job-Valid w.fresh stopped a valid h in
    elim (Bool-cases (is_parent_of task (w.store a))) [
      | inr e ↦ simp (stop_one, e) (record { valid = v; bounded = b })
      | inl e ↦ elim (Bool-cases (is_zombie_job stopped a)) [
        | inl f ↦
            simp (stop_one, e, f)
              (record {
                valid = lower n w.fresh _ v.cells.sized gone;
                bounded = Bounded-weaken w.fresh _ waits gone.cells.sized b;
              })
        | inr f ↦
            simp (stop_one, e, f)
              (record {
                valid = lower n w.fresh _ v.cells.sized valid;
                bounded = Each-insert (λ x. x < w.fresh) (key_of stopped a) a waits h b;
              })
      ]
    ]

stop_jobs-Waiting :
    (n : ℕ) (env : Env) (task : WatchTask) (ks : List String) (w : Watcher) (waits : Dict ℕ)
    → Valid n w
    → Bounded w.fresh waits
    → Waiting n (stop_jobs env task ks w waits)
unfolding stop_jobs
stop_jobs-Waiting n env task [] w waits v b = record { valid = v; bounded = b }
stop_jobs-Waiting n env task (k ∷ ks) w waits v b = elim (Option-cases (lookup k w.all_jobs)) [
  | inl e ↦ simp (stop_jobs, e) (stop_jobs-Waiting n env task ks w waits v b)
  | inr (a, e) ↦
      let r =
        stop_one-Waiting n env task a w waits v
          (Each-lookup (λ x. x < w.fresh) k a w.all_jobs v.all e) b in
      simp (stop_jobs, e) (stop_jobs-Waiting n env task ks _ _ r.valid r.bounded)
]

pub stop_task-Valid :
    (n : ℕ) (env : Env) (task : WatchTask) (w : Watcher)
    → Valid n w
    → Valid n (stop_task env task w)
unfolding stop_task
stop_task-Valid n env task w v =
    let key = watch_task_key task in
    let left = record w { source_watch_tasks = delete key w.source_watch_tasks } in
    let start : Valid n left = valid v.cells v.all v.zombies v.active v.zombie v.stopping in
    let r = stop_jobs-Waiting n env task (env.order (keys w.all_jobs)) left [] start tt in
    let waits = (stop_jobs env task (env.order (keys w.all_jobs)) left []).1 in
    let c = r.valid in
    elim (Bool-cases (ltb 0 (length waits))) [
      | inr e ↦ simp (stop_task, e) (valid c.cells c.all c.zombies c.active c.zombie c.stopping)
      | inl e ↦
          simp (stop_task, e)
            (aggressively-Valid n _ (record {
              cells = c.cells;
              all = c.all;
              zombies = c.zombies;
              active = c.active;
              zombie = c.zombie;
              stopping =
                  Each-insert (λ t. Bounded _ t.waits) key (record task { waits = waits }) _
                    r.bounded c.stopping;
            }))
    ]
