-- ===== src/Watch/Keeping.antt =====
-- What the scan for new files keeps: all that the creation and the renaming of a job keep.
use loggie.Prelude.{
  ℕ, ◌+◌, ◌≡◌, refl, true, none, some, List, [], ◌∷◌, String, str_eq, ltb, length, is_some, ◌⊎◌,
  lookup, Bool-cases, Option-cases, inl, inr,
}
use loggie.Value.{Fields, end}
use loggie.Job.{Job, watch_uid_of}
use loggie.Job.Files.{fds}
use loggie.Watch.{
  Watcher, Cell, WatchTask, FileInfo, StatAnswer, found, not_exist, stat_failed, Env, job_at,
}
use loggie.Watch.Events.{event_create, event_rename}
use loggie.Watch.Scan.{
  legal_file, new_job, generate_identifier, is_same, match_file, create_or_rename, create_all,
  scan_paths, get_recursive_path, is_dynamic_path, scan_pairs, scan_task_new_files,
}
use loggie.Watch.Loop.{scan_new_files}

pub StatAnswer-cases :
    (s : StatAnswer)
    → ((info : FileInfo) × (s ≡ found info)) ⊎ ((s ≡ not_exist) ⊎ (s ≡ stat_failed))
StatAnswer-cases (found info) = inl (info, refl)
StatAnswer-cases not_exist = inr (inl refl)
StatAnswer-cases stat_failed = inr (inr refl)

-- What `GenerateIdentifier` leaves, if it does not fail, is the job with another identifier.
generate_identifier-fds :
    (env : Env) (size : ℕ) (j : Job)
    → (generate_identifier env size j ≡ none)
      ⊎ ((k : Job) × (generate_identifier env size j ≡ some k) × (fds k ≡ fds j))
unfolding generate_identifier
generate_identifier-fds env size j = elim (Bool-cases (str_eq j.identifier "")) [
  | inr e ↦ simp (generate_identifier, e) (inr (j, refl, refl))
  | inl e ↦ elim (StatAnswer-cases (env.stat j.filename)) [
    | inr (inl f) ↦ simp (generate_identifier, e, f) (inl refl)
    | inr (inr f) ↦ simp (generate_identifier, e, f) (inl refl)
    | inl (info, f) ↦ elim (Bool-cases (ltb info.size size)) [
      | inl g ↦ simp (generate_identifier, e, f, g) (inr (j, refl, refl))
      | inr g ↦ elim (Option-cases (env.head j.filename size)) [
        | inl h ↦ simp (generate_identifier, e, f, g, h) (inl refl)
        | inr (bytes, h) ↦ elim (Bool-cases (ltb (length bytes) size)) [
          | inl c ↦ simp (generate_identifier, e, f, g, h, c) (inl refl)
          | inr c ↦
              simp (generate_identifier, e, f, g, h, c)
                (inr (record j { identifier = env.md5 bytes }, refl, refl))
        ]
      ]
    ]
  ]
]

module _ (P : Watcher → Type 0) (env : Env)
    (creates : (x : Cell) (w : Watcher) → fds x.job ≡ 0 → P w → P (event_create env x w))
    (renames : (k name : String) (a : ℕ) (w : Watcher)
      → lookup k w.all_jobs ≡ some a
      → P w
      → P (event_rename env name a w))
    (counts : (w : Watcher) → P w → P (record w { job_index = w.job_index + 1 })) where
  match_file-keeps : (x : Cell) (w : Watcher) → fds x.job ≡ 0 → P w → P (match_file env x w)
  unfolding match_file
  match_file-keeps x w closed v = elim (Option-cases (lookup (watch_uid_of x.job) w.all_jobs)) [
    | inl e ↦ simp (match_file, e) (creates x w closed v)
    | inr (a, e) ↦ elim (Bool-cases (str_eq x.job.filename (job_at w a).filename)) [
      | inl f ↦ simp (match_file, e, f) v
      | inr f ↦ elim (Bool-cases (is_some (job_at w a).file)) [
        | inl g ↦ simp (match_file, e, f, g) v
        | inr g ↦ elim (Bool-cases (is_same (job_at w a) x.job)) [
          | inr h ↦ simp (match_file, e, f, g, h) v
          | inl h ↦
              simp (match_file, e, f, g, h) (renames (watch_uid_of x.job) x.job.filename a w e v)
        ]
      ]
    ]
  ]

  create_or_rename-keeps :
      (task : WatchTask) (fields : Fields) (file : String) (w : Watcher)
      → P w
      → P (create_or_rename env task fields file w)
  unfolding create_or_rename new_job
  create_or_rename-keeps task fields file w v =
      elim (Option-cases (legal_file env file task true)) [
        | inl e ↦ simp (create_or_rename, e) v
        | inr ((name, info), e) ↦
            let job = new_job env task name info.uid (w.job_index + 1) fields in
            let size = task.config.first_n_bytes_for_identifier in
            elim (generate_identifier-fds env size job) [
              | inl f ↦ simp (create_or_rename, e, f) (counts w v)
              | inr (j, f, g) ↦
                  simp (create_or_rename, e, f)
                    (match_file-keeps (record { job = j; config = task.config }) _ g (counts w v))
            ]
      ]

  create_all-keeps :
      (task : WatchTask) (fields : Fields) (files : List String) (w : Watcher)
      → P w
      → P (create_all env task fields files w)
  unfolding create_all
  create_all-keeps task fields [] w v = v
  create_all-keeps task fields (f ∷ fs) w v =
      create_all-keeps task fields fs _ (create_or_rename-keeps task fields f w v)

  scan_paths-keeps :
      (task : WatchTask) (fields : Fields) (paths : List String) (w : Watcher)
      → P w
      → P (scan_paths env task fields paths w)
  unfolding scan_paths
  scan_paths-keeps task fields [] w v = v
  scan_paths-keeps task fields (p ∷ ps) w v = elim (Option-cases (env.glob p)) [
    | inl e ↦ simp (scan_paths, e) (scan_paths-keeps task fields ps w v)
    | inr (files, e) ↦
        simp (scan_paths, e)
          (scan_paths-keeps task fields ps _ (create_all-keeps task fields files w v))
  ]

  scan_pairs-keeps :
      (task : WatchTask) (pairs : List (List String × Fields)) (w : Watcher)
      → P w
      → P (scan_pairs env task pairs w)
  unfolding scan_pairs
  scan_pairs-keeps task [] w v = v
  scan_pairs-keeps task ((paths, fields) ∷ pairs) w v =
      scan_pairs-keeps task pairs _ (scan_paths-keeps task fields (get_recursive_path paths) w v)

  scan_task_new_files-keeps :
      (dynamic : String) (task : WatchTask) (w : Watcher)
      → P w
      → P (scan_task_new_files dynamic env task w)
  unfolding scan_task_new_files
  scan_task_new_files-keeps dynamic task w v =
      elim (Bool-cases (is_dynamic_path dynamic task.config.paths)) [
        | inr e ↦ simp (scan_task_new_files, e) (scan_paths-keeps task end task.config.paths w v)
        | inl e ↦ elim (Option-cases (env.dynamic_paths task.pipeline_name task.source_name)) [
          | inl f ↦ simp (scan_task_new_files, e, f) v
          | inr (pairs, f) ↦ simp (scan_task_new_files, e, f) (scan_pairs-keeps task pairs w v)
        ]
      ]

  pub scan_new_files-keeps :
      (dynamic : String) (ks : List String) (w : Watcher)
      → P w
      → P (scan_new_files dynamic env ks w)
  unfolding scan_new_files
  scan_new_files-keeps dynamic [] w v = v
  scan_new_files-keeps dynamic (k ∷ ks) w v = elim (Option-cases (lookup k w.source_watch_tasks)) [
    | inl e ↦ simp (scan_new_files, e) (scan_new_files-keeps dynamic ks w v)
    | inr (task, e) ↦
        simp (scan_new_files, e)
          (scan_new_files-keeps dynamic ks _ (scan_task_new_files-keeps dynamic task w v))
  ]
