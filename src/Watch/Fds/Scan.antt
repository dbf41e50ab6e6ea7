-- ===== src/Watch/Fds/Scan.antt =====
-- The watcher's count of open files through the scan for new files.
use loggie.Prelude.{
  ℕ, ◌<◌, ◌≡◌, true, List, String, leb, length, ◌==◌, ◌||◌, lookup, Each-lookup, Bool-cases,
  Option-cases, inl, inr,
}
use loggie.Job.{watch_uid_of, get_encode_line_end}
use loggie.Job.Files.{fds}
use loggie.Persist.{upsert_offset}
use loggie.Watch.{Watcher, Cell, Env, registry_of, ask}
use loggie.Watch.Events.{pre_allocate, event_create, exist_registry, start_offset, acked_offset}
use loggie.Watch.Loop.{scan_new_files}
use loggie.Watch.Keeping.{StatAnswer-cases, scan_new_files-keeps}
use loggie.Watch.Fds.{valid, Valid, grow, lower}
use loggie.Watch.Fds.Jobs.{when-Valid, ask-Valid}
use loggie.Watch.Fds.Events.{admit-Valid, event_rename-Valid}

module _ (n : ℕ) (env : Env) where
  event_create-Valid :
      (x : Cell) (w : Watcher) → fds x.job ≡ 0 → Valid n w → Valid n (event_create env x w)
  unfolding event_create pre_allocate
  event_create-Valid x w closed v =
      let r = exist_registry env x.job in
      let line_end = length (get_encode_line_end x.job) in
      elim (Bool-cases (leb w.config.max_open_fds w.current_open_fds)) [
        | inl e ↦ simp (event_create, e) v
        | inr e ↦ elim (Option-cases (lookup (watch_uid_of x.job) w.all_jobs)) [
          | inr (a, f) ↦ simp (event_create, e, f) v
          | inl f ↦ elim (StatAnswer-cases (env.stat x.job.filename)) [
            | inr (inl g) ↦ simp (event_create, e, f, g) v
            | inr (inr g) ↦ simp (event_create, e, f, g) v
            | inl (info, g) ↦
                simp (event_create, e, f, g)
                  (admit-Valid n env info.size x _ closed (
                    when-Valid n
                      (acked_offset x.config r.offset info.size line_end == 0
                        || x.config.read_from_tail)
                      (ask upsert_offset true (record (registry_of x.job) {
                        offset = start_offset x.config r.offset info.size line_end;
                      }))
                      w (λ y. ask-Valid n _ _ _ y) v))
          ]
        ]
      ]

  pub scan_new_files-Valid :
      (dynamic : String) (ks : List String) (w : Watcher)
      → Valid n w
      → Valid n (scan_new_files dynamic env ks w)
  scan_new_files-Valid =
      scan_new_files-keeps (Valid n) env event_create-Valid
        (λ k name a w e v. lower n w.fresh _ v.cells.sized (
          event_rename-Valid w.fresh env name w a (grow n w v)
            (Each-lookup (λ b. b < w.fresh) k a w.all_jobs v.all e)))
        (λ w v. valid v.cells v.all v.zombies v.active v.zombie v.stopping)
