-- ===== src/Watch/Shrinking.antt =====
-- What finalizing a job, and deciding about one, leave alone (pkg/source/file/watch.go).
use mathlib.Core.Option.{some-ne-none}
use loggie.Prelude.{
  sym, ap, ap₂, ◌&&◌, subst, ◌∙◌, ℕ, ◌≡◌, refl, Bool, true, false, ◌==◌, some, List, [], ◌∷◌,
  String, str_eq, Dict, lookup, insert, delete, lookup-delete, arith, Bool-cases, Option-cases, inl,
  inr,
}
use loggie.Job.{Job, release, clean_rename, is_rename, is_delete, is_stop}
use loggie.Watch.{
  Watcher, WatchTask, job_at, write_cell, put_job, key_of, is_zombie_job, is_parent_of, release_job,
  remove_os_notify, add_os_notify, handle_rename_job, handle_remove_job, forget, when, finalize_job,
  decide_zombie_job,
}
use loggie.Watch.Loop.{decide_zombies, aggressively_stop_watch_task}

-- Jobs go, none comes, the tasks stay, a stopped job stays stopped, and no job gets another owner.
pub record Shrinks (w x : Watcher) : Type 0 where
  pub left : (k : String) (a : ℕ) → lookup k x.all_jobs ≡ some a → lookup k w.all_jobs ≡ some a
  pub stays : (a : ℕ) → is_stop (job_at w a) ≡ true → is_stop (job_at x a) ≡ true
  pub owned :
      (task : WatchTask) (a : ℕ) → is_parent_of task (x.store a) ≡ is_parent_of task (w.store a)
  pub tasks : x.source_watch_tasks ≡ w.source_watch_tasks

pub same : (w : Watcher) → Shrinks w w
same w = record { left = λ k a e. e; stays = λ a e. e; owned = λ task a. refl; tasks = refl }

pub and_then : (w x y : Watcher) → Shrinks w x → Shrinks x y → Shrinks w y
and_then w x y f g = record {
  left = λ k a e. f.left k a (g.left k a e);
  stays = λ a e. g.stays a (f.stays a e);
  owned = λ task a. g.owned task a ∙ f.owned task a;
  tasks = g.tasks ∙ f.tasks;
}

-- Writing a job that keeps its owner, and stays stopped.
pub put-Shrinks :
    (w : Watcher) (a : ℕ) (j : Job)
    → (is_stop (job_at w a) ≡ true → is_stop j ≡ true)
    → j.pipeline_name ≡ (job_at w a).pipeline_name
    → j.source_name ≡ (job_at w a).source_name
    → Shrinks w (put_job a j w)
unfolding is_parent_of
put-Shrinks w a j s p q = record {
  left = λ k b e. e;
  stays = λ b e. elim (Bool-cases (b == a)) [
    | inl c ↦
        let this : (write_cell w.store a j b).job ≡ j = simp c refl in
        let here : b ≡ a = ground arith in
        subst (λ k. is_stop k ≡ true) (sym this)
          (s (subst (λ c. is_stop (job_at w c) ≡ true) here e))
    | inr c ↦
        let other : (write_cell w.store a j b).job ≡ (w.store b).job = simp c refl in
        subst (λ k. is_stop k ≡ true) (sym other) e
  ];
  owned = λ task b. elim (Bool-cases (b == a)) [
    | inl c ↦
        let this : (write_cell w.store a j b).job ≡ j = simp c refl in
        let here : b ≡ a = ground arith in
        let is_mine = λ (k : Job).
          str_eq k.pipeline_name task.pipeline_name && str_eq k.source_name task.source_name in
        ap is_mine this
        ∙ ap₂ (λ x y. str_eq x task.pipeline_name && str_eq y task.source_name) p q
        ∙ ap (λ d. is_mine (job_at w d)) (sym here)
    | inr c ↦
        let other : write_cell w.store a j b ≡ w.store b = simp c refl in
        ap (is_parent_of task) other
  ];
  tasks = refl;
}

-- The same, of a watcher that differs in nothing that matters here.
release-Shrinks : (a : ℕ) (w : Watcher) → Shrinks w (release_job a w)
unfolding release_job release is_stop
release-Shrinks a w =
    let j = job_at w a in
    let closes : ((is_stop j ≡ true → is_stop (release j).0 ≡ true)
        × ((release j).0.pipeline_name ≡ j.pipeline_name)
        × ((release j).0.source_name ≡ j.source_name)) =
      elim (Option-cases j.file) [
        | inl e ↦ simp (release, e) (λ s. s, refl, refl)
        | inr (x, e) ↦ simp (release, e) (λ s. s, refl, refl)
      ] in
    let r = put-Shrinks w a (release j).0 closes.0 closes.1 closes.2 in
    elim (Bool-cases (release j).1) [
      | inl e ↦
          simp (release_job, e)
            (record { left = r.left; stays = r.stays; owned = r.owned; tasks = refl })
      | inr e ↦ simp (release_job, e) r
    ]

rename-Shrinks : (a : ℕ) (w : Watcher) → Shrinks w (handle_rename_job a w)
unfolding handle_rename_job clean_rename is_stop
rename-Shrinks a w =
    let r = put-Shrinks w a (clean_rename w.config.nil_of_time (job_at w a)) (λ s. s) refl refl in
    record { left = r.left; stays = r.stays; owned = r.owned; tasks = refl }

remove-Shrinks : (a : ℕ) (w : Watcher) → Shrinks w (handle_remove_job a w)
unfolding handle_remove_job
remove-Shrinks a w = elim (Bool-cases w.config.clean_when_removed) [
  | inl e ↦
      simp (handle_remove_job, e)
        (record { left = λ k b e. e; stays = λ b e. e; owned = λ t b. refl; tasks = refl })
  | inr e ↦ simp (handle_remove_job, e) (same w)
]

when-Shrinks :
    (b : Bool) (f : Watcher → Watcher) (w : Watcher)
    → ((x : Watcher) → Shrinks x (f x))
    → Shrinks w (when b f w)
when-Shrinks true f w h = h w
when-Shrinks false f w h = same w

lookup-kept {ℓ} :
    {A : Type ℓ} (key k : String) (x : A) (dict : Dict A)
    → lookup k (delete key dict) ≡ some x
    → lookup k dict ≡ some x
lookup-kept key k x dict e = elim (Bool-cases (str_eq key k)) [
  | inl c ↦ absurd (some-ne-none x (sym e ∙ lookup-delete key k dict ∙ simp c refl))
  | inr c ↦ sym (lookup-delete key k dict ∙ simp c refl) ∙ e
]

quiet-Shrinks : (key file : String) (w : Watcher) → Shrinks w (remove_os_notify file (forget key w))
unfolding remove_os_notify
quiet-Shrinks key file w =
    let gone : Shrinks w (forget key w) = record {
      left = λ k a e. lookup-kept key k a w.all_jobs e;
      stays = λ a e. e;
      owned = λ t a. refl;
      tasks = refl;
    } in
    elim (Option-cases (lookup file w.os_watch_files)) [
      | inl e ↦ simp (remove_os_notify, e) gone
      | inr (x, e) ↦
          simp (remove_os_notify, e)
            (record { left = gone.left; stays = gone.stays; owned = gone.owned; tasks = refl })
    ]

pub finalize_job-Shrinks : (a : ℕ) (w : Watcher) → Shrinks w (finalize_job a w)
unfolding finalize_job
finalize_job-Shrinks a w =
    let quiet = remove_os_notify (job_at w a).filename (forget (key_of w a) w) in
    let w1 = release_job a quiet in
    let w2 = when (is_rename w.config.nil_of_time (job_at w1 a)) (handle_rename_job a) w1 in
    let w3 = when (is_delete (job_at w2 a)) (handle_remove_job a) w2 in
    let r = and_then w quiet w3 (quiet-Shrinks (key_of w a) (job_at w a).filename w) (
      and_then quiet w1 w3 (release-Shrinks a quiet) (
        and_then w1 w2 w3 (when-Shrinks _ (handle_rename_job a) w1 (rename-Shrinks a))
          (when-Shrinks _ (handle_remove_job a) w2 (remove-Shrinks a)))) in
    record { left = r.left; stays = r.stays; owned = r.owned; tasks = r.tasks }

add-Shrinks : (file : String) (w : Watcher) → Shrinks w (add_os_notify file w)
unfolding add_os_notify
add-Shrinks file w = elim (Option-cases (lookup file w.os_watch_files)) [
  | inr (x, f) ↦ simp (add_os_notify, f) (same w)
  | inl f ↦
      simp (add_os_notify, f)
        (record { left = λ k b e. e; stays = λ b e. e; owned = λ t b. refl; tasks = refl })
]

decide_zombie_job-Shrinks : (a : ℕ) (w : Watcher) → Shrinks w (decide_zombie_job a w)
unfolding decide_zombie_job
decide_zombie_job-Shrinks a w =
    let more = record w { zombie_jobs = insert (key_of w a) a w.zombie_jobs } in
    let r = add-Shrinks (job_at w a).filename more in
    elim (Bool-cases (is_zombie_job w a)) [
      | inl e ↦ simp (decide_zombie_job, e) (same w)
      | inr e ↦
          simp (decide_zombie_job, e)
            (record { left = r.left; stays = r.stays; owned = r.owned; tasks = r.tasks })
    ]

decide_zombies-Shrinks : (jobs : List ℕ) (w : Watcher) → Shrinks w (decide_zombies jobs w)
unfolding decide_zombies
decide_zombies-Shrinks [] w = same w
decide_zombies-Shrinks (a ∷ more) w =
    and_then w _ _ (decide_zombie_job-Shrinks a w)
      (decide_zombies-Shrinks more (decide_zombie_job a w))

pub aggressively-Shrinks : (w : Watcher) → Shrinks w (aggressively_stop_watch_task w)
unfolding aggressively_stop_watch_task
aggressively-Shrinks w =
    let r = decide_zombies-Shrinks w.zombie_chan (record w { zombie_chan = [] }) in
    record { left = r.left; stays = r.stays; owned = r.owned; tasks = r.tasks }
