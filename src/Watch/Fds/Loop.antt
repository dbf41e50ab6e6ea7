-- ===== src/Watch/Fds/Loop.antt =====
-- The watcher's count of open files through the loops over its jobs and tasks, with no panic.
use loggie.Prelude.{
  ℕ, ◌-◌, ◌<◌, ◌≡◌, ◌≢◌, refl, true, false, not, ◌&&◌, ◌||◌, Option, some, List, [], ◌∷◌, String,
  str_eq, ltb, is_some, Dict, lookup, Each-lookup, arith, Bool-cases, Option-cases, inl, inr, ◌⊎◌,
}
use loggie.Job.{change_status_to, job_stop, is_stop, is_delete, is_delete_timeout, is_rename}
use loggie.Job.Files.{job_stop-Sound, dated_delete}
use loggie.Watch.{
  Watcher, FileInfo, stat_failed, Env, job_at, put_job, is_zombie_job, release_job,
  handle_rename_job,
}
use loggie.Watch.Events.{event_remove}
use loggie.Watch.Scan.{is_ignore_older}
use loggie.Watch.Loop.{
  keys, visit, all_of, zombies_of, scan_active_at, scan_active_job, removed, still, check_remove,
  any_written, scan_idle, scan_held, scan_zombie_at, scan_zombie_job, scan,
}
use loggie.Watch.Fds.{Valid, Goes, Bounded, grow, lower, job-Valid, release-Valid}
use loggie.Watch.Fds.Jobs.{when-Valid, handle_rename_job-Valid, finalize_job-Valid}
use loggie.Watch.Fds.Events.{event_remove-Valid, event_write-Valid}
use loggie.Watch.Keeping.{StatAnswer-cases}
use loggie.Watch.Fds.Scan.{scan_new_files-Valid}

pub goes : (n : ℕ) (w : Watcher) → Valid n w → Goes n (some w)
goes n w v = record { after = w; returns = refl; valid = v }

-- A loop over the jobs of a map goes well if each of its turns does.
pub visit-Goes :
    (n : ℕ) (jobs : Watcher → Dict ℕ) (f : ℕ → Watcher → Option Watcher)
    → ((w : Watcher) → Valid n w → Bounded w.fresh (jobs w))
    → ((m : ℕ) (w : Watcher) (a : ℕ) → Valid m w → a < m → Goes m (f a w))
    → (ks : List String) (w : Watcher) → Valid n w
    → Goes n (visit jobs f ks w)
unfolding visit
visit-Goes n jobs f b h [] w v = goes n w v
visit-Goes n jobs f b h (k ∷ ks) w v = elim (Option-cases (lookup k (jobs w))) [
  | inl e ↦ simp (visit, e) (visit-Goes n jobs f b h ks w v)
  | inr (a, e) ↦
      let below = Each-lookup (λ x. x < w.fresh) k a (jobs w) (b w v) e in
      let r = h w.fresh w a (grow n w v) below in
      simp (visit, e, r.returns)
        (visit-Goes n jobs f b h ks r.after (lower n w.fresh r.after v.cells.sized r.valid))
]

module _ (n : ℕ) (env : Env) where
  pub stop-Valid :
      (w : Watcher) (a : ℕ)
      → Valid n w
      → a < n
      → Valid n (put_job a (job_stop env.now (job_at w a)) w)
  unfolding job_stop change_status_to
  stop-Valid w a v h =
      job-Valid n w a (job_stop env.now (job_at w a)) v h refl (job_stop-Sound (job_at w a) env.now)

  scan_active_at-Goes : (w : Watcher) (a : ℕ) → Valid n w → a < n → Goes n (scan_active_at env a w)
  unfolding scan_active_at
  scan_active_at-Goes w a v h =
      let j = job_at w a in
      let config = (w.store a).config in
      let timeout = config.fd_hold_timeout_when_remove in
      let stopped = stop-Valid w a v h in
      elim (Bool-cases (is_stop j || is_zombie_job w a)) [
        | inl e ↦ simp (scan_active_at, e) (goes n w v)
        | inr e ↦ elim (Option-cases (is_delete_timeout env.now timeout j)) [
          | inl f ↦
              absurd
                (dated_delete j env.now timeout (v.cells.sound a (omega (arith, v.cells.sized))) f)
          | inr (true, f) ↦ simp (scan_active_at, e, f) (goes n _ stopped)
          | inr (false, f) ↦
              elim (Bool-cases
                (ltb config.fd_hold_timeout_when_inactive (env.now - j.last_active_time))) [
                  | inl g ↦
                      simp (scan_active_at, e, f, g) (goes n _ (release-Valid n _ a stopped h))
                  | inr g ↦ simp (scan_active_at, e, f, g) (goes n w v)
                ]
        ]
      ]

  any_written-Valid :
      (info : FileInfo) (w : Watcher) (a : ℕ)
      → Valid n w
      → a < n
      → Valid n (any_written env a info w)
  unfolding any_written
  any_written-Valid info w a v h =
      elim (Bool-cases (
        ltb (job_at w a).next_offset info.size
        && not (is_ignore_older env.now (w.store a).config info))) [
          | inl e ↦ simp (any_written, e) (event_write-Valid n env info.size w a v h)
          | inr e ↦ simp (any_written, e) v
        ]

  scan_idle-Valid :
      (info : FileInfo) (w : Watcher) (a : ℕ) → Valid n w → a < n → Valid n (scan_idle env a info w)
  unfolding scan_idle
  scan_idle-Valid info w a v h =
      let j = job_at w a in
      let s = v.cells.sound a (omega (arith, v.cells.sized)) in
      let again = record j { end_offset = 0; next_offset = 0; current_line_number = 0 } in
      let reset =
        job-Valid n w a again v h refl
          (record { stored = s.stored; dated = s.dated; a_dated = s.a_dated }) in
      elim (Bool-cases (ltb info.size j.end_offset && (w.store a).config.reread_truncated)) [
        | inl e ↦ simp (scan_idle, e) (event_write-Valid n env info.size _ a reset h)
        | inr e ↦ simp (scan_idle, e) (any_written-Valid info w a v h)
      ]

  scan_held-Valid : (w : Watcher) (a : ℕ) → Valid n w → a < n → Valid n (scan_held env a w)
  unfolding scan_held
  scan_held-Valid w a v h =
      let j = job_at w a in
      let free = release-Valid n w a v h in
      elim (Bool-cases
        (ltb (w.store a).config.fd_hold_timeout_when_inactive (env.now - j.last_active_time))) [
          | inl e ↦
              simp (scan_held, e)
                (when-Valid n (is_rename w.config.nil_of_time (job_at (release_job a w) a))
                  (handle_rename_job a) _ (λ x c. handle_rename_job-Valid n x a c h) free)
          | inr e ↦ elim (StatAnswer-cases (env.stat j.filename)) [
            | inl (info, f) ↦ simp (scan_held, e, f) (any_written-Valid info w a v h)
            | inr (inl f) ↦ simp (scan_held, e, f) v
            | inr (inr f) ↦ simp (scan_held, e, f) v
          ]
        ]

-- No answer of the file system is an error other than that the file is not there.
abbrev pub Answers : Env → Type 0
Answers env = (file : String) → env.stat file ≢ stat_failed

module _ (n : ℕ) (env : Env) (answers : Answers env) where
  check_remove-cases :
      (w : Watcher) (a : ℕ)
      → (check_remove env a w ≡ some (removed (event_remove env a w)))
        ⊎ ((info : FileInfo) × (check_remove env a w ≡ some (still info)))
  unfolding check_remove
  check_remove-cases w a = elim (StatAnswer-cases (env.stat (job_at w a).filename)) [
    | inr (inl e) ↦ simp (check_remove, e) (inl refl)
    | inr (inr e) ↦ absurd (answers _ e)
    | inl (info, e) ↦ elim (Bool-cases (str_eq info.uid (job_at w a).uid)) [
      | inl f ↦ simp (check_remove, e, f) (inr (info, refl))
      | inr f ↦ simp (check_remove, e, f) (inl refl)
    ]
  ]

  scan_zombie_at-Goes : (w : Watcher) (a : ℕ) → Valid n w → a < n → Goes n (scan_zombie_at env a w)
  unfolding scan_zombie_at
  scan_zombie_at-Goes w a v h =
      let gone = goes n _ (event_remove-Valid n env w a v h) in
      let final = goes n _ (finalize_job-Valid n w a v h) in
      elim (Bool-cases (is_delete (job_at w a))) [
        | inl e ↦ simp (scan_zombie_at, e) final
        | inr e ↦ elim (Bool-cases (is_stop (job_at w a))) [
          | inl f ↦ elim (check_remove-cases w a) [
            | inl c ↦ simp (scan_zombie_at, e, f, c) gone
            | inr (info, c) ↦ simp (scan_zombie_at, e, f, c) final
          ]
          | inr f ↦ elim (Bool-cases (is_some (job_at w a).file)) [
            | inl g ↦ simp (scan_zombie_at, e, f, g) (goes n _ (scan_held-Valid n env w a v h))
            | inr g ↦ elim (check_remove-cases w a) [
              | inl c ↦ simp (scan_zombie_at, e, f, g, c) gone
              | inr (info, c) ↦
                  simp (scan_zombie_at, e, f, g, c) (goes n _ (scan_idle-Valid n env info w a v h))
            ]
          ]
        ]
      ]

pub scan-Goes :
    (n : ℕ) (dynamic : String) (env : Env) (w : Watcher)
    → Answers env
    → Valid n w
    → Goes n (scan dynamic env w)
unfolding scan scan_active_job scan_zombie_job
scan-Goes n dynamic env w answers v =
    let first =
      visit-Goes n all_of (scan_active_at env) (λ x c. c.all) (λ m. scan_active_at-Goes m env)
        (env.order (keys w.all_jobs)) w v in
    let x = first.after in
    let files =
      scan_new_files-Valid n env dynamic (env.order (keys x.source_watch_tasks)) x first.valid in
    simp (scan, first.returns)
      (visit-Goes n zombies_of (scan_zombie_at env) (λ y c. c.zombies)
        (λ m. scan_zombie_at-Goes m env answers) (env.order (keys _)) _ files)
