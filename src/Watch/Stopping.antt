-- ===== src/Watch/Stopping.antt =====
-- What the watcher has of a task's jobs once the task was stopped (pkg/source/file/watch.go).
use mathlib.Core.Option.{some-ne-none, some-injective}
use loggie.Prelude.{
  sym, ap, eq_iff, ◌||◌, subst, ◌∙◌, ℕ, ◌≡◌, refl, Bool, true, false, ◌==◌, none, some, List, [],
  ◌∷◌, String, str_eq, length, ltb, Dict, lookup, insert, delete, lookup-delete, eq_refl, arith,
  Bool-cases, Option-cases, inl, inr,
}
use loggie.Job.{is_stop, job_stop, change_status_to}
use loggie.Watch.{
  Watcher, WatchTask, Env, job_at, write_cell, put_job, is_zombie_job, is_parent_of, watch_task_key,
}
use loggie.Watch.Loop.{keys, stop_one, stop_jobs, stop_task}
use loggie.Watch.Shrinking.{
  Shrinks, same, and_then, put-Shrinks, finalize_job-Shrinks, aggressively-Shrinks,
}

-- What the turn of a job does when a task stops: if the task owns it, it is stopped then.
record Stops (task : WatchTask) (a : ℕ) (w x : Watcher) : Type 0 where
  shrinks : Shrinks w x
  stopped : is_parent_of task (w.store a) ≡ true → is_stop (job_at x a) ≡ true

stop_one-Stops :
    (env : Env) (task : WatchTask) (a : ℕ) (w : Watcher) (waits : Dict ℕ)
    → Stops task a w (stop_one env task a w waits).0
unfolding stop_one job_stop change_status_to is_stop
stop_one-Stops env task a w waits =
    let j = job_stop env.now (job_at w a) in
    let stopped = put_job a j w in
    let first = put-Shrinks w a j (λ s. refl) refl refl in
    let yes : (a == a) ≡ true = ground arith in
    let here : (write_cell w.store a j a).job ≡ j = simp yes refl in
    let done : is_stop (job_at stopped a) ≡ true = ap is_stop here in
    let final = finalize_job-Shrinks a stopped in
    elim (Bool-cases (is_parent_of task (w.store a))) [
      | inr e ↦
          simp (stop_one, e)
            (record { shrinks = same w; stopped = λ h. absurd (ground (arith, h, e)) })
      | inl e ↦ elim (Bool-cases (is_zombie_job stopped a)) [
        | inl f ↦
            simp (stop_one, e, f)
              (record {
                shrinks = and_then w stopped _ first final;
                stopped = λ h. final.stays a done;
              })
        | inr f ↦ simp (stop_one, e, f) (record { shrinks = first; stopped = λ h. done })
      ]
    ]

abbrev pub has : String → List String → Bool
has k [] = false
has k (j ∷ js) = str_eq j k || has k js

record StopsAll (task : WatchTask) (ks : List String) (w x : Watcher) : Type 0 where
  shrinks : Shrinks w x
  stopped :
      (k : String) (a : ℕ)
      → has k ks ≡ true
      → lookup k x.all_jobs ≡ some a
      → is_parent_of task (w.store a) ≡ true
      → is_stop (job_at x a) ≡ true

stop_jobs-StopsAll :
    (env : Env) (task : WatchTask) (ks : List String) (w : Watcher) (waits : Dict ℕ)
    → StopsAll task ks w (stop_jobs env task ks w waits).0
unfolding stop_jobs
stop_jobs-StopsAll env task [] w waits = record {
  shrinks = same w;
  stopped = λ k a h e p. absurd (ground (arith, h));
}
stop_jobs-StopsAll env task (j ∷ ks) w waits = elim (Option-cases (lookup j w.all_jobs)) [
  | inl e ↦
      let r = stop_jobs-StopsAll env task ks w waits in
      simp (stop_jobs, e)
        (record {
          shrinks = r.shrinks;
          stopped = λ k a h f p. elim (Bool-cases (str_eq j k)) [
            | inl c ↦
                let at : j ≡ k = (eq_iff j k).0 c in
                absurd (
                  some-ne-none a (
                    sym (subst (λ i. lookup i w.all_jobs ≡ some a) (sym at) (r.shrinks.left k a f))
                    ∙ e))
            | inr c ↦ r.stopped k a (simp c at h) f p
          ];
        })
  | inr (b, e) ↦
      let one = stop_one-Stops env task b w waits in
      let next = (stop_one env task b w waits).0 in
      let r = stop_jobs-StopsAll env task ks next (stop_one env task b w waits).1 in
      simp (stop_jobs, e)
        (record {
          shrinks = and_then w next _ one.shrinks r.shrinks;
          stopped = λ k a h f p. elim (Bool-cases (str_eq j k)) [
            | inl c ↦
                let at : j ≡ k = (eq_iff j k).0 c in
                let first = one.shrinks.left k a (r.shrinks.left k a f) in
                let own : b ≡ a =
                  some-injective b a
                    (sym e ∙ subst (λ i. lookup i w.all_jobs ≡ some a) (sym at) first) in
                r.shrinks.stays a (
                  subst (λ d. is_stop (job_at next d) ≡ true) own
                    (one.stopped (subst (λ d. is_parent_of task (w.store d) ≡ true) (sym own) p)))
            | inr c ↦ r.stopped k a (simp c at h) f (one.shrinks.owned task a ∙ p)
          ];
        })
]

has-keys : (k : String) (a : ℕ) (dict : Dict ℕ) → lookup k dict ≡ some a → has k (keys dict) ≡ true
unfolding lookup
has-keys k a [] e = absurd (some-ne-none a (sym e))
has-keys k a ((j, b) ∷ dict) e = elim (Bool-cases (str_eq j k)) [
  | inl c ↦ simp c refl
  | inr c ↦ simp c (has-keys k a dict (simp c at e))
]

pub record TaskStopped (task : WatchTask) (w : Watcher) : Type 0 where
  pub dropped : lookup (watch_task_key task) w.source_watch_tasks ≡ none
  pub stopped :
      (k : String) (a : ℕ)
      → lookup k w.all_jobs ≡ some a
      → is_parent_of task (w.store a) ≡ true
      → is_stop (job_at w a) ≡ true

-- A task that stops is no longer scanned for new files, and every job of it that the watcher still
-- has is stopped, whatever the order in which the runtime visits the jobs, as long as it visits each.
pub stop_task-TaskStopped :
    (env : Env) (task : WatchTask) (w : Watcher)
    → ((ks : List String) (k : String) → has k ks ≡ true → has k (env.order ks) ≡ true)
    → TaskStopped task (stop_task env task w)
unfolding stop_task
stop_task-TaskStopped env task w visits =
    let key = watch_task_key task in
    let left = record w { source_watch_tasks = delete key w.source_watch_tasks } in
    let ks = env.order (keys w.all_jobs) in
    let waits = (stop_jobs env task ks left []).1 in
    let next = (stop_jobs env task ks left []).0 in
    let r = stop_jobs-StopsAll env task ks left [] in
    let gone : lookup key left.source_watch_tasks ≡ none =
      lookup-delete key key w.source_watch_tasks ∙ simp (eq_refl key) refl in
    let dropped = ap (lookup key) r.shrinks.tasks ∙ gone in
    let stops : (k : String) (a : ℕ)
        → lookup k next.all_jobs ≡ some a
        → is_parent_of task (w.store a) ≡ true
        → is_stop (job_at next a) ≡ true =
      λ k a e p.
        r.stopped k a (visits (keys w.all_jobs) k (has-keys k a w.all_jobs (r.shrinks.left k a e)))
          e p in
    let waiting = record next {
      stopping_tasks = insert key (record task { waits = waits }) next.stopping_tasks;
    } in
    let final = aggressively-Shrinks waiting in
    elim (Bool-cases (ltb 0 (length waits))) [
      | inr e ↦
          simp (stop_task, e)
            (record {
              dropped = dropped;
              stopped = λ k a f p. stops k a f (sym (r.shrinks.owned task a) ∙ p);
            })
      | inl e ↦
          simp (stop_task, e)
            (record {
              dropped = ap (lookup key) final.tasks ∙ dropped;
              stopped = λ k a f p. final.stays a (
                  stops k a (final.left k a f)
                    (sym (final.owned task a ∙ r.shrinks.owned task a) ∙ p));
            })
    ]
