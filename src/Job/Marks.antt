-- ===== src/Job/Marks.antt =====
-- The marks of a job: once stopped or deleted it stays so, whatever is done to it later.
use loggie.Prelude.{
  ℕ, ◌<◌, ◌≡◌, ◌≢◌, refl, Bool, true, false, if◌then◌else◌, Option, none, some, List, [], ◌∷◌,
  String, str_eq, ◌==◌, is_some, All, arith, Option-cases, Bool-cases, inl, inr,
}
use loggie.Job.{
  Job, Opening, is_set, change_status_to, job_delete, is_delete, is_delete_timeout, job_stop,
  is_stop, release, sync, rename_to, clean_rename, set_next_offset, job_active, activate,
  active_open, product_event, cache_watch_uid,
}

-- What the watcher and the workers do to a job.
pub data Op : Type 0 where
  actives : Opening → ℕ → Op
  deletes stops cleans seeks : ℕ → Op
  releases syncs : Op
  renames : String → ℕ → Op
  products : ℕ → ℕ → List ℕ → Op

unfoldable pub step : Op → Job → Option Job
step (actives o now) j = some (job_active o now j).0
step (deletes now) j = some (job_delete now j)
step (stops now) j = some (job_stop now j)
step (cleans nil_of_time) j = some (clean_rename nil_of_time j)
step (seeks offset) j = some (set_next_offset offset j)
step releases j = some (release j).0
step syncs j = sync j
step (renames name now) j = some (rename_to name now j)
step (products end_offset now body) j = some (product_event end_offset now body j)

unfoldable pub run : List Op → Job → Option Job
run [] j = some j
run (op ∷ ops) j = elim (step op j) [ none ↦ none | some k ↦ run ops k ]

-- No operation happens at the zero time.
abbrev pub Timed : Op → Type 0
Timed (actives o now) = 0 < now
Timed (deletes now) = 0 < now
Timed (stops now) = 0 < now
Timed _ = Unit

record Kept (s d : Bool) (j : Job) : Type 0 where
  stored : is_some j.a_status ≡ true
  stopped : (if s then is_set j.stop_time else true) ≡ true
  deleted : (if d then is_set j.delete_time else true) ≡ true

-- A rule for any job that stores a status and the two times of another job, or later ones.
keep :
    (s d : Bool) (j k : Job)
    → Kept s d j
    → is_some k.a_status ≡ true
    → k.stop_time ≡ j.stop_time
    → k.delete_time ≡ j.delete_time
    → Kept s d k
keep s d j k v e f g = record { stored = e; stopped = rw f v.stopped; deleted = rw g v.deleted }

delete-Kept : (s d : Bool) (now : ℕ) (j : Job) → 0 < now → Kept s d j → Kept s d (job_delete now j)
unfolding job_delete change_status_to
delete-Kept s d now j t v = record { stored = refl; stopped = v.stopped; deleted = ground arith }

activate-Kept :
    (s d : Bool) (now : ℕ) (r : Job × Bool × Bool) → Kept s d r.0 → Kept s d (activate now r).0
activate-Kept s d now (j, true, f) v = v
activate-Kept s d now (j, false, f) v = keep s d j _ v refl refl refl

active_open-Kept :
    (s d : Bool) (o : Opening) (now : ℕ) (j : Job)
    → 0 < now
    → Kept s d j
    → Kept s d (active_open o now j).0
unfolding active_open
active_open-Kept s d o now j t v =
    let k = keep s d j (record j { file = some 0 }) v v.stored refl refl in
    let sought = keep s d j (record j { file = some j.next_offset }) v v.stored refl refl in
    let gone = delete-Kept s d now (record j { file = some 0 }) t k in
    elim (Option-cases o.stat) [
      | inl e ↦ simp (active_open, e) k
      | inr (new_uid, e) ↦ elim (Bool-cases (str_eq j.uid new_uid)) [
        | inr c ↦ simp (active_open, e, c) gone
        | inl c ↦ elim (Bool-cases (j.next_offset == 0)) [
          | inl z ↦ simp (active_open, e, c, z) k
          | inr z ↦ elim (Bool-cases o.seek_ok) [
            | inr q ↦ simp (active_open, e, c, z, q) k
            | inl q ↦ elim (Bool-cases (j.current_line_number == 0)) [
              | inr n ↦ simp (active_open, e, c, z, q, n) sought
              | inl n ↦ elim (Option-cases o.line_count) [
                | inl m ↦ simp (active_open, e, c, z, q, n, m) sought
                | inr (x, m) ↦
                    simp (active_open, e, c, z, q, n, m) (keep s d j _ v v.stored refl refl)
              ]
            ]
          ]
        ]
      ]
    ]

active-Kept :
    (s d : Bool) (o : Opening) (now : ℕ) (j : Job)
    → 0 < now
    → Kept s d j
    → Kept s d (job_active o now j).0
unfolding job_active
active-Kept s d o now j t v = elim (Option-cases j.file) [
  | inr (f, e) ↦ simp (job_active, e) (keep s d j _ v refl refl refl)
  | inl e ↦ elim (Bool-cases o.opened) [
    | inr c ↦ simp (job_active, e, c) v
    | inl c ↦
        simp (job_active, e, c)
          (activate-Kept s d now (active_open o now j) (active_open-Kept s d o now j t v))
  ]
]

step-Kept :
    (s d : Bool) (op : Op) (j : Job)
    → Timed op
    → Kept s d j
    → (k : Job) × (step op j ≡ some k) × Kept s d k
unfolding step job_stop clean_rename set_next_offset release sync rename_to product_event
    cache_watch_uid change_status_to
step-Kept s d (actives o now) j t v = (_, refl, active-Kept s d o now j t v)
step-Kept s d (deletes now) j t v = (_, refl, delete-Kept s d now j t v)
step-Kept s d (stops now) j t v =
    (_, refl, record { stored = refl; stopped = ground arith; deleted = v.deleted })
step-Kept s d (cleans n) j t v = (_, refl, keep s d j _ v v.stored refl refl)
step-Kept s d (seeks n) j t v =
    (_, refl, keep s d j _ v (ground (arith, v.stored)) (ground arith) (ground arith))
step-Kept s d releases j t v =
    (_, refl, keep s d j _ v (ground (arith, v.stored)) (ground arith) (ground arith))
step-Kept s d syncs j t v = elim (Option-cases j.a_status) [
  | inl e ↦ absurd (ground (arith, v.stored))
  | inr (x, e) ↦ rw e (_, refl, keep s d j _ v (ground arith) refl refl)
]
step-Kept s d (renames n now) j t v = (_, refl, keep s d j _ v v.stored refl refl)
step-Kept s d (products n now body) j t v = (_, refl, keep s d j _ v v.stored refl refl)

record Lasts (s d : Bool) (res : Option Job) : Type 0 where
  after : Job
  returns : res ≡ some after
  marks : Kept s d after

run-Lasts :
    (s d : Bool) (ops : List Op) (j : Job) → All Timed ops → Kept s d j → Lasts s d (run ops j)
unfolding run
run-Lasts s d [] j t v = record { after = j; returns = refl; marks = v }
run-Lasts s d (op ∷ ops) j t v =
    let (k, e, w) = step-Kept s d op j t.0 v in rw (run, e) (run-Lasts s d ops k t.1 w)

stop_set : (j : Job) → is_set j.stop_time ≡ true → is_stop j ≡ true
unfolding is_stop
stop_set j e = ground (arith, e)

delete_set :
    (now timeout : ℕ) (j : Job)
    → is_set j.delete_time ≡ true
    → (is_delete j ≡ true) × (is_delete_timeout now timeout j ≢ none)
unfolding is_delete is_delete_timeout
delete_set now timeout j e = elim (Option-cases j.delete_time) [
  | inl f ↦ absurd (ground (arith, e, f))
  | inr (t, f) ↦ (ground (arith, e, f), ground (arith, e, f))
]

pub record Stopped (res : Option Job) : Type 0 where
  pub after : Job
  pub returns : res ≡ some after
  pub stopped : is_stop after ≡ true

-- A job that was stopped stays stopped, whatever is done to it later, at times that are not zero:
-- being activated, renamed, deleted, released or synchronised. Nor does `Sync` panic on the way.
pub stop-lasts :
    (now : ℕ) (ops : List Op) (j : Job)
    → 0 < now
    → All Timed ops
    → Stopped (run ops (job_stop now j))
unfolding job_stop change_status_to
stop-lasts now ops j t ts =
    let r =
      run-Lasts true false ops (job_stop now j) ts
        (record { stored = refl; stopped = ground arith; deleted = refl }) in
    record { after = r.after; returns = r.returns; stopped = stop_set r.after r.marks.stopped }

pub record Deleted (res : Option Job) : Type 0 where
  pub after : Job
  pub returns : res ≡ some after
  pub deleted : is_delete after ≡ true
  pub timed : (now timeout : ℕ) → is_delete_timeout now timeout after ≢ none

-- A job that was deleted stays deleted, whatever is done to it later, at times that are not zero,
-- and asking for the time since then never panics. Activating it again does not undo this.
pub delete-lasts :
    (now : ℕ) (ops : List Op) (j : Job)
    → 0 < now
    → All Timed ops
    → Deleted (run ops (job_delete now j))
unfolding job_delete change_status_to
delete-lasts now ops j t ts =
    let r =
      run-Lasts false true ops (job_delete now j) ts
        (record { stored = refl; stopped = refl; deleted = ground arith }) in
    record {
      after = r.after;
      returns = r.returns;
      deleted = (delete_set 0 0 r.after r.marks.deleted).0;
      timed = λ at timeout. (delete_set at timeout r.after r.marks.deleted).1;
    }
