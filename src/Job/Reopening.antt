-- ===== src/Job/Reopening.antt =====
-- What `Active` leaves behind when it returns without an error.
use loggie.Prelude.{
  ℕ, ◌≡◌, refl, sym, ap, ◌∙◌, Bool, true, false, none, some, String, ◌⊎◌, str_eq, eq_iff, ◌==◌,
  arith, Option-cases, Bool-cases, inl, inr,
}
use loggie.Job.{Job, Opening, active, job_active, activate, active_open}

-- The handle stands where collecting goes on, in the job's own file.
pub record Opened (o : Opening) (offset : ℕ) (uid : String) (k : Job) : Type 0 where
  pub at_offset : k.file ≡ some offset
  pub own_file : o.stat ≡ some uid

active_open-Opened :
    (o : Opening) (now : ℕ) (j : Job)
    → ((active_open o now j).1 ≡ true) ⊎ Opened o j.next_offset j.uid (active_open o now j).0
unfolding active_open
active_open-Opened o now j = elim (Option-cases o.stat) [
  | inl e ↦ simp (active_open, e) (inl refl)
  | inr (new_uid, e) ↦ elim (Bool-cases (str_eq j.uid new_uid)) [
    | inr c ↦ simp (active_open, e, c) (inl refl)
    | inl c ↦
        let own = e ∙ ap some (sym ((eq_iff j.uid new_uid).0 c)) in
        let sought : Opened o j.next_offset j.uid (record j { file = some j.next_offset }) =
          record { at_offset = refl; own_file = own } in
        elim (Bool-cases (j.next_offset == 0)) [
          | inl z ↦
              simp (active_open, e, c, z)
                (inr (record { at_offset = ap some (ground arith); own_file = own }))
          | inr z ↦ elim (Bool-cases o.seek_ok) [
            | inr q ↦ simp (active_open, e, c, z, q) (inl refl)
            | inl q ↦ elim (Bool-cases (j.current_line_number == 0)) [
              | inr n ↦ simp (active_open, e, c, z, q, n) (inr sought)
              | inl n ↦ elim (Option-cases o.line_count) [
                | inl m ↦ simp (active_open, e, c, z, q, n, m) (inl refl)
                | inr (x, m) ↦
                    simp (active_open, e, c, z, q, n, m)
                      (inr (record { at_offset = refl; own_file = own }))
              ]
            ]
          ]
        ]
  ]
]

pub record Activated (o : Opening) (now : ℕ) (offset : ℕ) (uid : String) (k : Job) : Type 0 where
  pub at_offset : k.file ≡ some offset
  pub own_file : o.stat ≡ some uid
  pub status : k.status ≡ some active
  pub a_status : k.a_status ≡ some active
  pub fresh : (k.eof_count ≡ 0) × (k.last_active_time ≡ now)

activate-Activated :
    (o : Opening) (now offset : ℕ) (uid : String) (r : Job × Bool × Bool)
    → (activate now r).1 ≡ false
    → (r.1 ≡ true) ⊎ Opened o offset uid r.0
    → Activated o now offset uid (activate now r).0
activate-Activated o now offset uid (j, true, f) e h = absurd (ground (arith, e))
activate-Activated o now offset uid (j, false, f) e (inl h) = absurd (ground (arith, h))
activate-Activated o now offset uid (j, false, f) e (inr h) = record {
  at_offset = h.at_offset;
  own_file = h.own_file;
  status = refl;
  a_status = refl;
  fresh = (refl, refl);
}

-- When `Active` of a job without a handle returns no error, the file that was opened is the one
-- that the job was made for, the handle stands at the job's next offset, and the job is active.
pub job_active-reopens :
    (o : Opening) (now : ℕ) (j : Job)
    → j.file ≡ none
    → (job_active o now j).1 ≡ false
    → Activated o now j.next_offset j.uid (job_active o now j).0
unfolding job_active
job_active-reopens o now j e h = elim (Bool-cases o.opened) [
  | inr c ↦ absurd (ground (arith, e, c, h))
  | inl c ↦
      let same : job_active o now j ≡ activate now (active_open o now j) =
        simp (job_active, e, c) refl in
      rw same (
        activate-Activated o now j.next_offset j.uid (active_open o now j) (rw same at h)
          (active_open-Opened o now j))
]
