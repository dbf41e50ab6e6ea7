-- ===== src/Job/Files.antt =====
-- How the operations on a job change whether its file is open, and what a job keeps on the way.
use loggie.Prelude.{
  ℕ, ◌+◌, ◌≡◌, ◌≢◌, refl, ap, Bool, true, false, not, if◌then◌else◌, Option, none, some, str_eq,
  ◌==◌, ltb, is_some, arith, Option-cases, Bool-cases, inl, inr,
}
use loggie.Job.{
  Job, Opening, delete, is_status, job_delete, job_stop, is_delete, is_delete_timeout, release,
  sync, set_next_offset, job_active, activate, active_open, change_status_to,
}

-- How many files a job holds open.
abbrev pub fds : Job → ℕ
fds j = if is_some j.file then 1 else 0

-- A status is stored, and a job with the status of a deletion knows when that was.
pub record Sound (j : Job) : Type 0 where
  pub stored : is_some j.a_status ≡ true
  pub dated : (if is_status delete j.status then is_some j.delete_time else true) ≡ true
  pub a_dated : (if is_status delete j.a_status then is_some j.delete_time else true) ≡ true

-- What opening a file leaves of a job.
module _ (o : Opening) (now : ℕ) (j : Job) where
  abbrev Opens : Job × Bool × Bool → Type 0
  Opens r = (fds r.0 ≡ 1) × (r.2 ≡ true) × (Sound j → Sound r.0)

  opened :
      (n m : ℕ) (failed : Bool)
      → Opens (record j { file = some n; current_line_number = m }, failed, true)
  opened n m failed =
      (refl, refl, λ v. record { stored = v.stored; dated = v.dated; a_dated = v.a_dated })

  gone : Opens (job_delete now (record j { file = some 0 }), true, true)
  unfolding job_delete change_status_to
  gone = (refl, refl, λ v. record { stored = refl; dated = refl; a_dated = refl })

  active_open-Opens : Opens (active_open o now j)
  unfolding active_open
  active_open-Opens =
      let n = j.current_line_number in
      elim (Option-cases o.stat) [
        | inl e ↦ simp (active_open, e) (opened 0 n true)
        | inr (new_uid, e) ↦ elim (Bool-cases (str_eq j.uid new_uid)) [
          | inr c ↦ simp (active_open, e, c) gone
          | inl c ↦ elim (Bool-cases (j.next_offset == 0)) [
            | inl z ↦ simp (active_open, e, c, z) (opened 0 n false)
            | inr z ↦ elim (Bool-cases o.seek_ok) [
              | inr q ↦ simp (active_open, e, c, z, q) (opened 0 n true)
              | inl q ↦ elim (Bool-cases (n == 0)) [
                | inr m ↦ simp (active_open, e, c, z, q, m) (opened j.next_offset n false)
                | inl m ↦ elim (Option-cases o.line_count) [
                  | inl l ↦ simp (active_open, e, c, z, q, m, l) (opened j.next_offset n true)
                  | inr (x, l) ↦ simp (active_open, e, c, z, q, m, l) (opened j.next_offset x false)
                ]
              ]
            ]
          ]
        ]
      ]

-- How a job is after `Active`: it holds one file more if it says so, and is sound if it did not
-- fail, or was before.
pub record Activates (j : Job) (r : Job × Bool × Bool) : Type 0 where
  pub counted : fds r.0 ≡ fds j + (if r.2 then 1 else 0)
  pub activated : r.1 ≡ false → Sound r.0
  pub sound : Sound j → Sound r.0

activate-Activates :
    (now : ℕ) (j : Job) (r : Job × Bool × Bool)
    → fds r.0 ≡ fds j + (if r.2 then 1 else 0)
    → (Sound j → Sound r.0)
    → Activates j (activate now r)
activate-Activates now j (k, true, f) e s = record {
  counted = e;
  activated = λ h. absurd (ground (arith, h));
  sound = s;
}
activate-Activates now j (k, false, f) e s =
    let v : Sound (activate now (k, false, f)).0 = record {
      stored = refl;
      dated = refl;
      a_dated = refl;
    } in
    record { counted = e; activated = λ _. v; sound = λ _. v }

pub job_active-Activates : (o : Opening) (now : ℕ) (j : Job) → Activates j (job_active o now j)
unfolding job_active
job_active-Activates o now j = elim (Option-cases j.file) [
  | inr (f, e) ↦
      let same : job_active o now j ≡ activate now (j, false, false) =
        ap
          (λ x. elim x as (λ _. Job × Bool × Bool) [
            | some _ ↦ activate now (j, false, false)
            | none ↦ if not o.opened then (j, true, false) else activate now (active_open o now j)
          ])
          e in
      rw same (activate-Activates now j (j, false, false) (ground arith) (λ v. v))
  | inl e ↦ elim (Bool-cases o.opened) [
    | inr c ↦
        simp (job_active, e, c)
          (record {
            counted = ground arith;
            activated = λ h. absurd (ground (arith, h));
            sound = λ v. v;
          })
    | inl c ↦
        let h = active_open-Opens o now j in
        simp (job_active, e, c)
          (activate-Activates now j (active_open o now j) (ground (arith, e, h.0, h.1)) h.2)
  ]
]

-- The other operations keep a job's soundness, and none opens or closes its file but `release`.
module _ (j : Job) where
  pub job_delete-Sound : (now : ℕ) → Sound (job_delete now j)
  unfolding job_delete change_status_to
  job_delete-Sound now = record { stored = refl; dated = refl; a_dated = refl }

  pub job_stop-Sound : (now : ℕ) → Sound (job_stop now j)
  unfolding job_stop change_status_to
  job_stop-Sound now = record { stored = refl; dated = refl; a_dated = refl }

  pub sync-Sound : Sound j → (k : Job) × (sync j ≡ some k) × (fds k ≡ fds j) × Sound k
  unfolding sync
  sync-Sound v = elim (Option-cases j.a_status) [
    | inl e ↦ absurd (ground (arith, e, v.stored))
    | inr (x, e) ↦ (
      record j { status = some x; filename = j.a_file_name },
      ap
          (λ y. elim y as (λ _. Option Job) [
            | none ↦ none
            | some s ↦ some (record j { status = some s; filename = j.a_file_name })
          ])
          e,
      refl,
      record { stored = v.stored; dated = ground (arith, e, v.a_dated); a_dated = v.a_dated },
    )
  ]

  pub dated_delete : (now timeout : ℕ) → Sound j → is_delete_timeout now timeout j ≢ none
  unfolding is_delete_timeout is_delete
  dated_delete now timeout v = elim (Option-cases j.delete_time) [
    | inl e ↦ ground (arith, e, v.dated)
    | inr (t, e) ↦ ground (arith, e)
  ]

  pub release-fds :
      (fds (release j).0 ≡ 0)
      × ((if (release j).1 then 1 else 0) ≡ fds j)
      × (Sound j → Sound (release j).0)
  unfolding release
  release-fds = elim (Option-cases j.file) [
    | inl e ↦ simp (release, e) (refl, refl, λ v. v)
    | inr (x, e) ↦
        simp (release, e)
          (refl, refl, λ v. record { stored = v.stored; dated = v.dated; a_dated = v.a_dated })
  ]

  pub set_next_offset-fds : (offset : ℕ) → fds (set_next_offset offset j) ≡ fds j
  unfolding set_next_offset
  set_next_offset-fds offset = elim (Bool-cases (ltb 0 offset)) [
    | inl e ↦ simp (set_next_offset, e) refl
    | inr e ↦ simp (set_next_offset, e) refl
  ]
