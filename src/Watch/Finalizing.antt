-- ===== src/Watch/Finalizing.antt =====
-- What `finalizeJob` leaves behind (pkg/source/file/watch.go).
use loggie.Prelude.{
  ap, ◌∙◌, ℕ, ◌<◌, ◌≡◌, refl, Bool, true, false, ◌==◌, none, [], ◌∷◌, String, length, Dict, lookup,
  delete, Each, lookup-delete, eq_refl, arith, Bool-cases, Option-cases, inl, inr,
}
use loggie.Job.{Job, release, clean_rename}
use loggie.Watch.{
  Watcher, Cell, WatchTask, job_at, write_cell, key_of, release_job, remove_os_notify,
  handle_rename_job, handle_remove_job, settle_tasks, forget, when, finalize_job,
}

-- No map has the key, the job's file is closed, and each task that still waits for jobs to stop
-- waits for others, and for one at least.
pub record Gone (key : String) (a : ℕ) (w : Watcher) : Type 0 where
  pub zombies : lookup key w.zombie_jobs ≡ none
  pub all : lookup key w.all_jobs ≡ none
  pub closed : (job_at w a).file ≡ none
  pub waits : Each (λ t. (lookup key t.waits ≡ none) × (0 < length t.waits)) w.stopping_tasks

record Released (key : String) (a : ℕ) (w : Watcher) : Type 0 where
  zombies : lookup key w.zombie_jobs ≡ none
  all : lookup key w.all_jobs ≡ none
  closed : (job_at w a).file ≡ none

write_at : (s : ℕ → Cell) (a : ℕ) (j : Job) → (write_cell s a j a).job ≡ j
write_at s a j = let yes : (a == a) ≡ true = ground arith in simp yes refl

lookup-deleted {ℓ} :
    {A : Type ℓ} (key : String) (dict : Dict A) → lookup key (delete key dict) ≡ none
lookup-deleted key dict = lookup-delete key key dict ∙ simp (eq_refl key) refl

release-closed : (j : Job) → (release j).0.file ≡ none
unfolding release
release-closed j = elim (Option-cases j.file) [
  | inl e ↦ simp (release, e) refl
  | inr (x, e) ↦ simp (release, e) refl
]

release-Released :
    (key : String) (a : ℕ) (w : Watcher)
    → lookup key w.zombie_jobs ≡ none
    → lookup key w.all_jobs ≡ none
    → Released key a (release_job a w)
unfolding release_job
release-Released key a w z e =
    let j = (release (job_at w a)).0 in
    let closed = ap (λ k. k.file) (write_at w.store a j) ∙ release-closed (job_at w a) in
    elim (Bool-cases (release (job_at w a)).1) [
      | inl c ↦ simp (release_job, c) (record { zombies = z; all = e; closed = closed })
      | inr c ↦ simp (release_job, c) (record { zombies = z; all = e; closed = closed })
    ]

rename-Released :
    (key : String) (a : ℕ) (w : Watcher) → Released key a w → Released key a (handle_rename_job a w)
unfolding handle_rename_job clean_rename
rename-Released key a w r = record {
  zombies = r.zombies;
  all = r.all;
  closed =
      ap (λ k. k.file) (write_at w.store a (clean_rename w.config.nil_of_time (job_at w a)))
      ∙ r.closed;
}

remove-Released :
    (key : String) (a : ℕ) (w : Watcher) → Released key a w → Released key a (handle_remove_job a w)
unfolding handle_remove_job
remove-Released key a w r = elim (Bool-cases w.config.clean_when_removed) [
  | inl e ↦
      simp (handle_remove_job, e) (record { zombies = r.zombies; all = r.all; closed = r.closed })
  | inr e ↦ simp (handle_remove_job, e) r
]

when-Released :
    (key : String) (a : ℕ) (b : Bool) (f : Watcher → Watcher) (w : Watcher)
    → ((x : Watcher) → Released key a x → Released key a (f x))
    → Released key a w
    → Released key a (when b f w)
when-Released key a true f w h r = h w r
when-Released key a false f w h r = r

quiet-Maps :
    (key file : String) (w : Watcher)
    → (lookup key (remove_os_notify file (forget key w)).zombie_jobs ≡ none)
      × (lookup key (remove_os_notify file (forget key w)).all_jobs ≡ none)
unfolding remove_os_notify
quiet-Maps key file w =
    let z = lookup-deleted key w.zombie_jobs in
    let all = lookup-deleted key w.all_jobs in
    elim (Option-cases (lookup file w.os_watch_files)) [
      | inl e ↦ simp (remove_os_notify, e) (z, all)
      | inr (x, e) ↦ simp (remove_os_notify, e) (z, all)
    ]

settle_tasks-Each :
    (key : String) (tasks : Dict WatchTask)
    → Each (λ t. (lookup key t.waits ≡ none) × (0 < length t.waits)) (settle_tasks key tasks).0
unfolding settle_tasks
settle_tasks-Each key [] = tt
settle_tasks-Each key ((k, t) ∷ tasks) =
    let deeper = settle_tasks-Each key tasks in
    elim (Bool-cases (length (delete key t.waits) == 0)) [
      | inl e ↦ simp e deeper
      | inr e ↦ simp e ((lookup-deleted key t.waits, ground arith), deeper)
    ]

-- A job that is finalized is in no map of the watcher, its file is closed, and no task waits for it:
-- the tasks that wait on have other jobs to wait for.
pub finalize_job-Gone : (a : ℕ) (w : Watcher) → Gone (key_of w a) a (finalize_job a w)
unfolding finalize_job
finalize_job-Gone a w =
    let key = key_of w a in
    let (z, e) = quiet-Maps key (job_at w a).filename w in
    let r = when-Released key a _ (handle_remove_job a) _ (remove-Released key a) (
      when-Released key a _ (handle_rename_job a) _ (rename-Released key a)
        (release-Released key a _ z e)) in
    record { zombies = r.zombies; all = r.all; closed = r.closed; waits = settle_tasks-Each key _ }
