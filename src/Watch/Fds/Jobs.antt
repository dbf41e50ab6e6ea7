-- ===== src/Watch/Fds/Jobs.antt =====
-- The watcher's count of open files through what it does with one job.
use loggie.Prelude.{
  ℕ, ◌<◌, ◌≡◌, refl, Bool, true, false, if◌then◌else◌, [], ◌∷◌, ◌==◌, ◌||◌, ltb, length, All-append,
  Each-delete, Each-insert, String, Dict, lookup, insert, delete, arith, Bool-cases, Option-cases,
  inl, inr,
}
use loggie.Job.{Job, clean_rename, is_stop}
use loggie.Job.Files.{fds, Sound, sync-Sound}
use loggie.Persist.{DbOptType, Registry, update_name, delete_by_job_uid}
use loggie.Watch.{
  registry_of, key_of, is_zombie_job, Watcher, WatchTask, job_at, remove_os_notify, add_os_notify,
  forget, settle, settle_tasks, when, ask, finalize_job, handle_rename_job, handle_remove_job,
  decide_zombie_job, decide_job, decided,
}
use loggie.Watch.Fds.{Valid, valid, Goes, Waits, release-Valid, job-Valid}

module _ (n : ℕ) where
  pub when-Valid :
      (b : Bool) (f : Watcher → Watcher) (w : Watcher)
      → ((x : Watcher) → Valid n x → Valid n (f x))
      → Valid n w
      → Valid n (when b f w)
  when-Valid true f w h v = h w v
  when-Valid false f w h v = v

  pub ask-Valid :
      (t : DbOptType) (now : Bool) (r : Registry) (w : Watcher)
      → Valid n w
      → Valid n (ask t now r w)
  ask-Valid t now r w v = valid v.cells v.all v.zombies v.active v.zombie v.stopping

  pub forget-Valid : (key : String) (w : Watcher) → Valid n w → Valid n (forget key w)
  forget-Valid key w v =
      valid v.cells (Each-delete (λ a. a < w.fresh) key w.all_jobs v.all)
        (Each-delete (λ a. a < w.fresh) key w.zombie_jobs v.zombies) v.active v.zombie v.stopping

  pub remove_os_notify-Valid :
      (file : String) (w : Watcher) → Valid n w → Valid n (remove_os_notify file w)
  unfolding remove_os_notify
  remove_os_notify-Valid file w v = elim (Option-cases (lookup file w.os_watch_files)) [
    | inl e ↦ simp (remove_os_notify, e) v
    | inr (x, e) ↦
        simp (remove_os_notify, e) (valid v.cells v.all v.zombies v.active v.zombie v.stopping)
  ]

  pub add_os_notify-Valid :
      (file : String) (w : Watcher) → Valid n w → Valid n (add_os_notify file w)
  unfolding add_os_notify
  add_os_notify-Valid file w v = elim (Option-cases (lookup file w.os_watch_files)) [
    | inr (x, e) ↦ simp (add_os_notify, e) v
    | inl e ↦ simp (add_os_notify, e) (valid v.cells v.all v.zombies v.active v.zombie v.stopping)
  ]

  pub settle_tasks-Waits :
      (m : ℕ) (uid : String) (tasks : Dict WatchTask)
      → Waits m tasks
      → Waits m (settle_tasks uid tasks).0
  unfolding settle_tasks
  settle_tasks-Waits m uid [] v = tt
  settle_tasks-Waits m uid ((k, task) ∷ tasks) v =
      let deeper = settle_tasks-Waits m uid tasks v.1 in
      elim (Bool-cases (length (delete uid task.waits) == 0)) [
        | inl e ↦ simp e deeper
        | inr e ↦ simp e (Each-delete (λ a. a < m) uid task.waits v.0, deeper)
      ]

  pub settle-Valid : (key : String) (w : Watcher) → Valid n w → Valid n (settle key w)
  settle-Valid key w v =
      valid v.cells v.all v.zombies v.active v.zombie
        (settle_tasks-Waits w.fresh key w.stopping_tasks v.stopping)

  pub handle_rename_job-Valid :
      (w : Watcher) (a : ℕ) → Valid n w → a < n → Valid n (handle_rename_job a w)
  unfolding handle_rename_job clean_rename
  handle_rename_job-Valid w a v h =
      let s = v.cells.sound a (omega (arith, v.cells.sized)) in
      job-Valid n _ a _ (ask-Valid update_name false (registry_of (job_at w a)) w v) h refl
        (record { stored = s.stored; dated = s.dated; a_dated = s.a_dated })

  pub handle_remove_job-Valid : (w : Watcher) (a : ℕ) → Valid n w → Valid n (handle_remove_job a w)
  unfolding handle_remove_job
  handle_remove_job-Valid w a v = elim (Bool-cases w.config.clean_when_removed) [
    | inl e ↦
        simp (handle_remove_job, e)
          (ask-Valid delete_by_job_uid false (registry_of (job_at w a)) w v)
    | inr e ↦ simp (handle_remove_job, e) v
  ]

  pub finalize_job-Valid : (w : Watcher) (a : ℕ) → Valid n w → a < n → Valid n (finalize_job a w)
  unfolding finalize_job
  finalize_job-Valid w a v h = settle-Valid _ _ (
      when-Valid _ (handle_remove_job a) _ (λ x c. handle_remove_job-Valid x a c)
        (when-Valid _ (handle_rename_job a) _ (λ x c. handle_rename_job-Valid x a c h)
          (release-Valid n _ a (remove_os_notify-Valid _ _ (forget-Valid (key_of w a) w v)) h)))

  pub decide_zombie_job-Valid :
      (w : Watcher) (a : ℕ) → Valid n w → a < n → Valid n (decide_zombie_job a w)
  unfolding decide_zombie_job
  decide_zombie_job-Valid w a v h = elim (Bool-cases (is_zombie_job w a)) [
    | inl e ↦ simp (decide_zombie_job, e) v
    | inr e ↦
        let next : Valid n (record w { zombie_jobs = insert (key_of w a) a w.zombie_jobs }) =
          valid v.cells v.all
            (Each-insert (λ b. b < w.fresh) (key_of w a) a w.zombie_jobs
              (omega (arith, v.cells.sized)) v.zombies)
            v.active v.zombie v.stopping in
        simp (decide_zombie_job, e) (add_os_notify-Valid (job_at w a).filename _ next)
  ]

  pub decided-Valid :
      (w : Watcher) (a : ℕ) (j : Job)
      → Valid n w
      → a < n
      → fds j ≡ fds (job_at w a)
      → Sound j
      → Valid n (decided a j w)
  unfolding decided
  decided-Valid w a j v h f s =
      let below : a < w.fresh = omega (arith, v.cells.sized) in
      let k = record j { current_lines = if j.end_offset == 0 then j.current_lines else 0 } in
      let sound : Sound k = record { stored = s.stored; dated = s.dated; a_dated = s.a_dated } in
      let fine = job-Valid n w a k v h f sound in
      let one = All-append (λ b. b < w.fresh) w.zombie_chan (a ∷ []) fine.zombie (below, tt) in
      let two = All-append (λ b. b < w.fresh) w.active_chan (a ∷ []) fine.active (below, tt) in
      elim (Bool-cases (is_stop j || ltb w.config.max_eof_count j.eof_count)) [
        | inl c ↦
            simp (decided, c)
              (valid
                (record {
                  sized = v.cells.sized;
                  counted = fine.cells.counted;
                  sound = fine.cells.sound;
                })
                v.all v.zombies v.active one v.stopping)
        | inr c ↦
            simp (decided, c)
              (valid
                (record {
                  sized = v.cells.sized;
                  counted = fine.cells.counted;
                  sound = fine.cells.sound;
                })
                v.all v.zombies two v.zombie v.stopping)
      ]

  pub decide_job-Goes : (w : Watcher) (a : ℕ) → Valid n w → a < n → Goes n (decide_job a w)
  unfolding decide_job
  decide_job-Goes w a v h =
      let (j, e, f, s) = sync-Sound (job_at w a) (v.cells.sound a (omega (arith, v.cells.sized))) in
      record {
        after = decided a j w;
        returns = simp (decide_job, e) refl;
        valid = decided-Valid w a j v h f s;
      }
