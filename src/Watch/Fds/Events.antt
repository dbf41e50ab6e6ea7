-- ===== src/Watch/Fds/Events.antt =====
-- The watcher's count of open files through the cases of `eventBus`.
use loggie.Prelude.{
  sym, subst, ℕ, suc, ◌+◌, ◌<◌, ◌≡◌, refl, ap, true, false, if◌then◌else◌, [], ◌∷◌, ◌++◌, ◌==◌,
  length, All-append, All-weaken, String, lookup, insert, Each-delete, Each-insert, Each-lookup,
  arith, Bool-cases, Option-cases, inl, inr,
}
use loggie.Job.{
  change_status_to, job_active, job_delete, rename_to, is_stop, watch_uid_of, get_encode_line_end,
}
use loggie.Job.Files.{fds, Sound, job_active-Activates, job_delete-Sound, set_next_offset-fds}
use loggie.Watch.{
  Watcher, Cell, Env, job_at, put_job, key_of, is_zombie_job, finalize_job, handle_rename_job,
}
use loggie.Watch.Events.{
  event_remove, event_rename, event_write, was_truncated, reactivate, fd_count, placed_job, admit,
  exist_registry, start_offset,
}
use loggie.Watch.Fds.{
  valid, Bounded, Bounded-weaken, open_fds-below, Valid, grow, lower, open_fds, put-Valid,
  job-Valid, release-Valid,
}
use loggie.Watch.Fds.Jobs.{
  when-Valid, remove_os_notify-Valid, handle_rename_job-Valid, finalize_job-Valid,
}

module _ (n : ℕ) (env : Env) where
  delete-Valid :
      (w : Watcher) (a : ℕ)
      → Valid n w
      → a < n
      → Valid n (put_job a (job_delete env.now (job_at w a)) w)
  unfolding job_delete change_status_to
  delete-Valid w a v h =
      job-Valid n w a (job_delete env.now (job_at w a)) v h refl
        (job_delete-Sound (job_at w a) env.now)

  pub event_remove-Valid :
      (w : Watcher) (a : ℕ) → Valid n w → a < n → Valid n (event_remove env a w)
  unfolding event_remove
  event_remove-Valid w a v h =
      when-Valid n _ (finalize_job a) _ (λ x c. finalize_job-Valid n x a c h) (delete-Valid w a v h)

  pub event_rename-Valid :
      (name : String) (w : Watcher) (a : ℕ)
      → Valid n w
      → a < n
      → Valid n (event_rename env name a w)
  unfolding event_rename rename_to
  event_rename-Valid name w a v h =
      let s = v.cells.sound a (omega (arith, v.cells.sized)) in
      when-Valid n _ (handle_rename_job a) _ (λ x c. handle_rename_job-Valid n x a c h)
        (job-Valid n w a (rename_to name env.now (job_at w a)) v h refl
          (record { stored = s.stored; dated = s.dated; a_dated = s.a_dated }))

  pub reactivate-Valid :
      (key : String) (w : Watcher) (a : ℕ) → Valid n w → a < n → Valid n (reactivate env a key w)
  unfolding reactivate
  reactivate-Valid key w a v h =
      let j = job_at w a in
      let below : a < w.fresh = omega (arith, v.cells.sized) in
      let r = job_active (env.opening j) env.now j in
      let act = job_active-Activates (env.opening j) env.now j in
      let count = w.current_open_fds + fd_count r.2 in
      let opened =
        put-Valid n w a r.0 count v h (omega (arith, act.counted))
          (act.sound (v.cells.sound a below)) in
      let next = record (put_job a r.0 w) { current_open_fds = count } in
      let waits : Valid n (record next { active_chan = w.active_chan ++ a ∷ [] }) =
        valid opened.cells v.all v.zombies
          (All-append (λ b. b < w.fresh) w.active_chan (a ∷ []) v.active (below, tt)) v.zombie
          v.stopping in
      let quiet = remove_os_notify-Valid n r.0.filename _ waits in
      elim (Bool-cases r.1) [
        | inl e ↦ simp (reactivate, e) (release-Valid n next a opened h)
        | inr e ↦
            simp (reactivate, e)
              (record {
                cells = quiet.cells;
                all = quiet.all;
                zombies = Each-delete (λ b. b < _) key _ quiet.zombies;
                active = quiet.active;
                zombie = quiet.zombie;
                stopping = quiet.stopping;
              })
      ]

module _ (n : ℕ) (env : Env) where
  pub event_write-Valid :
      (size : ℕ) (w : Watcher) (a : ℕ) → Valid n w → a < n → Valid n (event_write env size a w)
  unfolding event_write
  event_write-Valid size w a v h =
      let gone = put_job a (job_delete env.now (job_at w a)) w in
      let removed =
        when-Valid n (is_zombie_job gone a) (finalize_job a) gone
          (λ x c. finalize_job-Valid n x a c h) (delete-Valid n env w a v h) in
      elim (Bool-cases (is_stop (job_at w a))) [
        | inl s ↦ simp (event_write, s) v
        | inr s ↦ elim (Option-cases (lookup (key_of w a) w.zombie_jobs)) [
          | inl e ↦ simp (event_write, s, e) v
          | inr (x, e) ↦
              let below = Each-lookup (λ b. b < w.fresh) (key_of w a) x w.zombie_jobs v.zombies e in
              let again = reactivate-Valid w.fresh env (key_of w a) w x (grow n w v) below in
              elim (Bool-cases (was_truncated env size (job_at w a))) [
                | inl c ↦ simp (event_write, s, e, c) removed
                | inr c ↦ simp (event_write, s, e, c) (lower n w.fresh _ v.cells.sized again)
              ]
        ]
      ]

  added-Valid :
      (w : Watcher) (x : Cell) (count : ℕ) (key : String)
      → Valid n w
      → count ≡ w.current_open_fds + fds x.job
      → Sound x.job
      → Valid n (record w {
        current_open_fds = count;
        store = λ b. if b == w.fresh then x else w.store b;
        fresh = suc w.fresh;
        all_jobs = insert key w.fresh w.all_jobs;
        active_chan = w.active_chan ++ w.fresh ∷ [];
      })
  unfolding open_fds
  added-Valid w x count key v e s =
      let next : ℕ → Cell = λ b. if b == w.fresh then x else w.store b in
      let this : next w.fresh ≡ x =
        let yes : (w.fresh == w.fresh) ≡ true = ground arith in simp yes refl in
      let other : (b : ℕ) → b < w.fresh → next b ≡ w.store b =
        λ b l. let no : (b == w.fresh) ≡ false = ground arith in simp no refl in
      record {
        cells = record {
          sized = omega (arith, v.cells.sized);
          counted = omega (
            arith,
            e,
            v.cells.counted,
            ap (λ c. fds c.job) this,
            open_fds-below next w.store w.fresh (λ b l. ap (λ c. fds c.job) (other b l)),
          );
          sound = λ b l. elim (Bool-cases (b == w.fresh)) [
            | inl c ↦ let same : next b ≡ x = simp c refl in subst (λ y. Sound y.job) (sym same) s
            | inr c ↦
                subst (λ y. Sound y.job) (sym (other b (ground arith)))
                  (v.cells.sound b (ground arith))
          ];
        };
        all =
            Each-insert (λ a. a < suc w.fresh) key w.fresh w.all_jobs (omega arith)
              (Bounded-weaken w.fresh (suc w.fresh) w.all_jobs (omega arith) v.all);
        zombies = Bounded-weaken w.fresh (suc w.fresh) w.zombie_jobs (omega arith) v.zombies;
        active =
            All-append (λ a. a < suc w.fresh) w.active_chan (w.fresh ∷ [])
              (All-weaken (λ a. a < w.fresh) (λ a. a < suc w.fresh) (λ a l. omega (arith, l))
                w.active_chan v.active)
              (omega arith, tt);
        zombie =
            All-weaken (λ a. a < w.fresh) (λ a. a < suc w.fresh) (λ a l. omega (arith, l))
              w.zombie_chan v.zombie;
        stopping =
            All-weaken (λ (k, t). Bounded w.fresh t.waits) (λ (k, t). Bounded (suc w.fresh) t.waits)
              (λ (k, t) l. Bounded-weaken w.fresh (suc w.fresh) t.waits (omega arith) l)
              w.stopping_tasks v.stopping;
      }

  pub admit-Valid :
      (size : ℕ) (x : Cell) (w : Watcher) → fds x.job ≡ 0 → Valid n w → Valid n (admit env size x w)
  unfolding admit placed_job
  admit-Valid size x w closed v =
      let placed = placed_job env size x in
      let r = job_active (env.opening placed) env.now placed in
      let act = job_active-Activates (env.opening placed) env.now placed in
      let count = w.current_open_fds + fd_count r.2 in
      let same = set_next_offset-fds x.job (
        start_offset x.config (exist_registry env x.job).offset size
          (length (get_encode_line_end x.job))) in
      elim (Bool-cases r.1) [
        | inl e ↦
            simp (admit, e)
              (valid
                (record {
                  sized = v.cells.sized;
                  counted = omega (arith, act.counted, v.cells.counted, same, closed);
                  sound = v.cells.sound;
                })
                v.all v.zombies v.active v.zombie v.stopping)
        | inr e ↦
            simp (admit, e)
              (added-Valid w (record x { job = r.0 }) count (watch_uid_of x.job) v
                (omega (arith, act.counted, same, closed)) (act.activated e))
      ]
