-- ===== src/Watch/Creating.antt =====
-- Where a new job starts to read its file (`CREATE` of pkg/source/file/watch.go).
use loggie.Prelude.{
  sym, ap, subst, if◌then◌else◌, ◌∙◌, ℕ, ◌+◌, ◌≤◌, ◌<◌, ◌≡◌, refl, true, false, ◌||◌, ◌==◌, Option,
  none, some, [], ◌∷◌, ◌++◌, ltb, leb, length, lookup, lookup-insert, eq_refl, arith, Bool-cases,
  inl, inr,
}
use loggie.Job.{Job, job_active, set_next_offset, watch_uid_of, get_encode_line_end}
use loggie.Job.Reopening.{job_active-reopens}
use loggie.Persist.{upsert_offset}
use loggie.Watch.{Watcher, Cell, CollectConfig, FileInfo, Env, found, job_at, ask}
use loggie.Watch.Events.{
  event_create, admit, placed_job, pre_allocate, exist_registry, start_offset, acked_offset,
}

-- Where the handle stands: at the end of the file if it is read from its tail, else at the acked
-- offset, unless the file is shorter than that and truncated files are read again.
pub record Start (config : CollectConfig) (acked size line_end : ℕ) (at : Option ℕ) : Type 0 where
  pub from_tail : config.read_from_tail ≡ true → at ≡ some size
  pub resumes : config.read_from_tail ≡ false → acked ≤ size + line_end → at ≡ some acked
  pub stays : config.read_from_tail ≡ false → config.reread_truncated ≡ false → at ≡ some acked
  pub rereads :
      config.read_from_tail ≡ false
      → size + line_end < acked
      → config.reread_truncated ≡ true
      → at ≡ some 0

pub record Created (env : Env) (x : Cell) (size : ℕ) (w next : Watcher) : Type 0 where
  pub known : lookup (watch_uid_of x.job) next.all_jobs ≡ some w.fresh
  pub waits : next.active_chan ≡ w.active_chan ++ w.fresh ∷ []
  pub start :
      Start x.config
        (exist_registry env x.job).offset
        size
        (length (get_encode_line_end x.job))
        (job_at next w.fresh).file

set_next_offset-at : (s : ℕ) (j : Job) → j.next_offset ≡ 0 → (set_next_offset s j).next_offset ≡ s
unfolding set_next_offset
set_next_offset-at s j e = elim (Bool-cases (ltb 0 s)) [
  | inl c ↦ simp (set_next_offset, c) refl
  | inr c ↦ let zero : 0 ≡ s = ground arith in simp (set_next_offset, c) (e ∙ zero)
]

start_offset-Start :
    (config : CollectConfig) (acked size line_end : ℕ)
    → Start config acked size line_end (some (start_offset config acked size line_end))
unfolding start_offset acked_offset
start_offset-Start config acked size line_end = record {
  from_tail = λ t. simp t refl;
  resumes = λ t h. let c : ltb (size + line_end) acked ≡ false = ground arith in simp (t, c) refl;
  stays = λ t r. elim (Bool-cases (ltb (size + line_end) acked)) [
    | inl c ↦ simp (t, c, r) refl
    | inr c ↦ simp (t, c, r) refl
  ];
  rereads =
      λ t h r. let c : ltb (size + line_end) acked ≡ true = ground arith in simp (t, c, r) refl;
}

set_next_offset-file : (s : ℕ) (j : Job) → (set_next_offset s j).file ≡ j.file
unfolding set_next_offset
set_next_offset-file s j = elim (Bool-cases (ltb 0 s)) [
  | inl c ↦ simp (set_next_offset, c) refl
  | inr c ↦ simp (set_next_offset, c) refl
]

-- The job as it is placed, before it is activated.
placed-at :
    (env : Env) (x : Cell) (size : ℕ)
    → x.job.file ≡ none
    → x.job.next_offset ≡ 0
    → ((placed_job env size x).file ≡ none)
      × ((placed_job env size x).next_offset
          ≡ start_offset x.config
              (exist_registry env x.job).offset
              size
              (length (get_encode_line_end x.job)))
unfolding placed_job
placed-at env x size closed zero =
    let s =
      start_offset x.config (exist_registry env x.job).offset size
        (length (get_encode_line_end x.job)) in
    (set_next_offset-file s x.job ∙ closed, set_next_offset-at s x.job zero)

admit-Created :
    (env : Env) (x : Cell) (size : ℕ) (w : Watcher)
    → x.job.file ≡ none
    → x.job.next_offset ≡ 0
    → (job_active (env.opening (placed_job env size x)) env.now (placed_job env size x)).1 ≡ false
    → Created env x size w (admit env size x w)
unfolding admit
admit-Created env x size w closed zero ok =
    let placed = placed_job env size x in
    let key = watch_uid_of x.job in
    let (no_file, offset) = placed-at env x size closed zero in
    let r = job_active (env.opening placed) env.now placed in
    let opened = job_active-reopens (env.opening placed) env.now placed no_file ok in
    let cell : Cell = record x { job = r.0 } in
    let yes : (w.fresh == w.fresh) ≡ true = ground arith in
    let this : (if w.fresh == w.fresh then cell else w.store w.fresh) ≡ cell = simp yes refl in
    let at = ap (λ c. c.job.file) this ∙ opened.at_offset ∙ ap some offset in
    simp (admit, ok)
      (record {
        known = lookup-insert key key w.fresh w.all_jobs ∙ simp (eq_refl key) refl;
        waits = refl;
        start = subst (Start x.config _ size _) (sym at) (start_offset-Start x.config _ size _);
      })

-- A file that is seen for the first time while the limit on open files is not reached, whose job is
-- new (it holds no file, its next offset is zero) and can be opened: the job is known, waits for a
-- worker, and its handle stands at the end of the file if it is read from its tail, else where the
-- acked events end; it is at the beginning if the file, with a line end, is shorter than that and
-- truncated files are read again, and where they are not read again it is where the acked events end
-- all the same.
pub event_create-Created :
    (env : Env) (x : Cell) (w : Watcher) (info : FileInfo)
    → w.current_open_fds < w.config.max_open_fds
    → lookup (watch_uid_of x.job) w.all_jobs ≡ none
    → env.stat x.job.filename ≡ found info
    → x.job.file ≡ none
    → x.job.next_offset ≡ 0
    → (job_active (env.opening (placed_job env info.size x)) env.now (placed_job env info.size x)).1
      ≡ false
    → Created env x info.size w (event_create env x w)
unfolding event_create pre_allocate
event_create-Created env x w info room new there closed zero ok =
    let e : leb w.config.max_open_fds w.current_open_fds ≡ false = ground arith in
    elim (Bool-cases (
      acked_offset x.config (exist_registry env x.job).offset info.size
          (length (get_encode_line_end x.job))
        == 0
      || x.config.read_from_tail)) [
        | inl c ↦
            let r = admit-Created env x info.size (ask upsert_offset true _ w) closed zero ok in
            simp (event_create, e, new, there, c)
              (record { known = r.known; waits = r.waits; start = r.start })
        | inr c ↦
            let r = admit-Created env x info.size w closed zero ok in
            simp (event_create, e, new, there, c)
              (record { known = r.known; waits = r.waits; start = r.start })
      ]
