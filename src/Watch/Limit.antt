-- ===== src/Watch/Limit.antt =====
-- The limit on open files (`CREATE` of pkg/source/file/watch.go).
use loggie.Prelude.{
  subst, sym, ℕ, ◌≤◌, ◌≡◌, refl, false, not, ◌&&◌, ◌||◌, ◌==◌, List, String, is_some, leb, length,
  lookup, arith, Bool-cases, Option-cases, inl, inr,
}
use loggie.Job.{job_active, rename_to, watch_uid_of, get_encode_line_end}
use loggie.Job.Files.{fds, job_active-Activates, set_next_offset-fds}
use loggie.Watch.{Watcher, Cell, Env, job_at, put_job, is_zombie_job, handle_rename_job}
use loggie.Watch.Events.{
  event_create, event_rename, admit, placed_job, pre_allocate, exist_registry, start_offset,
  acked_offset,
}
use loggie.Watch.Loop.{scan_new_files}
use loggie.Watch.Fds.{open_fds, Valid}
use loggie.Watch.Fds.Scan.{scan_new_files-Valid}
use loggie.Watch.Keeping.{StatAnswer-cases, scan_new_files-keeps}

abbrev Limited : ℕ → Watcher → Type 0
Limited m w = (w.current_open_fds ≤ m) × (w.config.max_open_fds ≡ m)

admit-Limited :
    (m size : ℕ) (env : Env) (x : Cell) (w : Watcher)
    → fds x.job ≡ 0
    → leb m w.current_open_fds ≡ false
    → w.config.max_open_fds ≡ m
    → Limited m (admit env size x w)
unfolding admit placed_job
admit-Limited m size env x w closed h c =
    let placed = placed_job env size x in
    let r = job_active (env.opening placed) env.now placed in
    let act = job_active-Activates (env.opening placed) env.now placed in
    let same = set_next_offset-fds x.job (
      start_offset x.config (exist_registry env x.job).offset size
        (length (get_encode_line_end x.job))) in
    elim (Bool-cases r.1) [
      | inl e ↦ simp (admit, e) (ground (arith, h, act.counted, same, closed), c)
      | inr e ↦ simp (admit, e) (ground (arith, h, act.counted, same, closed), c)
    ]

event_create-Limited :
    (m : ℕ) (env : Env) (x : Cell) (w : Watcher)
    → fds x.job ≡ 0
    → Limited m w
    → Limited m (event_create env x w)
unfolding event_create pre_allocate
event_create-Limited m env x w closed v =
    elim (Bool-cases (leb w.config.max_open_fds w.current_open_fds)) [
      | inl e ↦ simp (event_create, e) v
      | inr e ↦ elim (Option-cases (lookup (watch_uid_of x.job) w.all_jobs)) [
        | inr (a, f) ↦ simp (event_create, e, f) v
        | inl f ↦ elim (StatAnswer-cases (env.stat x.job.filename)) [
          | inr (inl g) ↦ simp (event_create, e, f, g) v
          | inr (inr g) ↦ simp (event_create, e, f, g) v
          | inl (info, g) ↦
              let below = rw v.1 at e in
              elim (Bool-cases (
                acked_offset x.config (exist_registry env x.job).offset info.size
                    (length (get_encode_line_end x.job))
                  == 0
                || x.config.read_from_tail)) [
                  | inl c ↦
                      simp (event_create, e, f, g, c)
                        (admit-Limited m info.size env x _ closed below v.1)
                  | inr c ↦
                      simp (event_create, e, f, g, c)
                        (admit-Limited m info.size env x _ closed below v.1)
                ]
        ]
      ]
    ]

event_rename-Limited :
    (m : ℕ) (env : Env) (name : String) (a : ℕ) (w : Watcher)
    → Limited m w
    → Limited m (event_rename env name a w)
unfolding event_rename handle_rename_job rename_to
event_rename-Limited m env name a w v =
    let renamed = put_job a (rename_to name env.now (job_at w a)) w in
    elim (Bool-cases (is_zombie_job renamed a && not (is_some (job_at renamed a).file))) [
      | inl e ↦ simp (event_rename, e) v
      | inr e ↦ simp (event_rename, e) v
    ]

-- Where the watcher's count of open files is right and what its maps and channels hold is of jobs
-- (as at every moment of a run), a scan for new files never makes its jobs hold more files open than
-- `MaxOpenFds` allows, if they did not before, and the count is still right.
pub scan_new_files-Limited :
    (n : ℕ) (dynamic : String) (env : Env) (ks : List String) (w : Watcher)
    → Valid n w
    → open_fds w.store w.fresh ≤ w.config.max_open_fds
    → let next = scan_new_files dynamic env ks w in
      (open_fds next.store next.fresh ≤ w.config.max_open_fds)
      × (next.current_open_fds ≡ open_fds next.store next.fresh)
scan_new_files-Limited n dynamic env ks w v h =
    let m = w.config.max_open_fds in
    let counted = (scan_new_files-Valid n env dynamic ks w v).cells.counted in
    let below : w.current_open_fds ≤ m = subst (λ c. c ≤ m) (sym v.cells.counted) h in
    let limited =
      scan_new_files-keeps (Limited m) env (event_create-Limited m env)
        (λ k name a x e u. event_rename-Limited m env name a x u) (λ x u. u) dynamic ks w
        (below, refl) in
    (subst (λ c. c ≤ m) counted limited.0, counted)
