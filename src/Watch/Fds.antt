-- ===== src/Watch/Fds.antt =====
-- The watcher's count of open files, and what holds with it.
use loggie.Prelude.{
  ℕ, zero, suc, ◌+◌, ◌-◌, ◌≤◌, ◌<◌, ◌≡◌, refl, ap, Bool, true, false, if◌then◌else◌, Option, none,
  some, List, [], ◌∷◌, ◌++◌, ◌==◌, ◌||◌, ltb, length, All, All-append, All-weaken, Each,
  Each-delete, Each-insert, Each-lookup, subst, sym, is_some, String, str_eq, Dict, lookup, insert,
  delete, arith, Bool-cases, Option-cases, inl, inr,
}
use loggie.Job.{Job, release, clean_rename, sync, is_stop}
use loggie.Job.Files.{fds, Sound, release-fds, sync-Sound}
use loggie.Persist.{DbOptType, Registry, update_name, delete_by_job_uid}
use loggie.Watch.{
  registry_of, key_of, is_zombie_job, Watcher, Cell, WatchTask, job_at, write_cell, put_job,
  release_job, remove_os_notify, add_os_notify, forget, settle, settle_tasks, when, ask,
  finalize_job, handle_rename_job, handle_remove_job, decide_zombie_job, decide_job, decided,
}
pub mod Jobs
pub mod Events
pub mod Scan
pub mod Loop
pub mod Tasks
pub mod Run

-- The open files of the first `n` cells.
unfoldable pub open_fds : (ℕ → Cell) → ℕ → ℕ
open_fds s zero = 0
open_fds s (suc n) = open_fds s n + fds (s n).job

-- Every address that a map holds is of a cell.
abbrev pub Bounded : ℕ → Dict ℕ → Type 0
Bounded n = Each (λ a. a < n)

abbrev pub Waits : ℕ → Dict WatchTask → Type 0
Waits n = Each (λ task. Bounded n task.waits)

-- The count is that of the open files of the cells, each job is sound, and there are `n` cells at
-- least.
pub record Cells (n : ℕ) (s : ℕ → Cell) (fresh count : ℕ) : Type 0 where
  pub sized : n ≤ fresh
  pub counted : count ≡ open_fds s fresh
  pub sound : (a : ℕ) → a < fresh → Sound (s a).job

-- The cells are so, and every address is of a cell.
pub record Valid (n : ℕ) (w : Watcher) : Type 0 where
  pub cells : Cells n w.store w.fresh w.current_open_fds
  pub all : Bounded w.fresh w.all_jobs
  pub zombies : Bounded w.fresh w.zombie_jobs
  pub active : All (λ a. a < w.fresh) w.active_chan
  pub zombie : All (λ a. a < w.fresh) w.zombie_chan
  pub stopping : Waits w.fresh w.stopping_tasks

pub write-job :
    (s : ℕ → Cell) (a : ℕ) (j : Job) (b : ℕ)
    → (write_cell s a j b).job ≡ (if b == a then j else (s b).job)
write-job s a j b = elim (Bool-cases (b == a)) [ inl e ↦ simp e refl | inr e ↦ simp e refl ]

open_fds-beyond :
    (s : ℕ → Cell) (a : ℕ) (j : Job) (n : ℕ) → n ≤ a → open_fds (write_cell s a j) n ≡ open_fds s n
unfolding open_fds
open_fds-beyond s a j zero h = refl
open_fds-beyond s a j (suc n) h = elim (Bool-cases (n == a)) [
  | inl e ↦ absurd (ground arith)
  | inr e ↦
      let other : (write_cell s a j n).job ≡ (s n).job = simp e refl in
      omega (arith, open_fds-beyond s a j n (omega arith), ap fds other)
]

-- Writing one cell moves the count by what that job's file changed.
pub open_fds-write :
    (s : ℕ → Cell) (a : ℕ) (j : Job) (n : ℕ)
    → a < n
    → open_fds (write_cell s a j) n + fds (s a).job ≡ open_fds s n + fds j
unfolding open_fds
open_fds-write s a j zero h = absurd (omega arith)
open_fds-write s a j (suc n) h = elim (Bool-cases (n == a)) [
  | inl e ↦
      let this : (write_cell s a j n).job ≡ j = simp e refl in
      let same : n ≡ a = ground arith in
      omega
        (arith, open_fds-beyond s a j n (omega arith), ap fds this, ap (λ b. fds (s b).job) same)
  | inr e ↦
      let other : (write_cell s a j n).job ≡ (s n).job = simp e refl in
      omega (arith, open_fds-write s a j n (ground arith), ap fds other)
]

pub open_fds-below :
    (s t : ℕ → Cell) (n : ℕ)
    → ((b : ℕ) → b < n → fds (s b).job ≡ fds (t b).job)
    → open_fds s n ≡ open_fds t n
unfolding open_fds
open_fds-below s t zero h = refl
open_fds-below s t (suc n) h =
    omega (arith, open_fds-below s t n (λ b l. h b (omega (arith, l))), h n (omega arith))

pub Bounded-weaken : (m n : ℕ) (dict : Dict ℕ) → m ≤ n → Bounded m dict → Bounded n dict
Bounded-weaken m n dict h =
    All-weaken (λ (k, a). a < m) (λ (k, a). a < n) (λ (k, a) l. omega (arith, l)) dict

write-Sound :
    (s : ℕ → Cell) (a : ℕ) (j : Job) (b : ℕ)
    → Sound j
    → Sound (s b).job
    → Sound (write_cell s a j b).job
write-Sound s a j b v x = elim (Bool-cases (b == a)) [
  | inl e ↦ let this : (write_cell s a j b).job ≡ j = simp e refl in subst Sound (sym this) v
  | inr e ↦
      let other : (write_cell s a j b).job ≡ (s b).job = simp e refl in subst Sound (sym other) x
]

pub valid :
    {n : ℕ} {w : Watcher}
    → Cells n w.store w.fresh w.current_open_fds
    → Bounded w.fresh w.all_jobs
    → Bounded w.fresh w.zombie_jobs
    → All (λ a. a < w.fresh) w.active_chan
    → All (λ a. a < w.fresh) w.zombie_chan
    → Waits w.fresh w.stopping_tasks
    → Valid n w
valid cells all zombies active zombie stopping = record {
  cells = cells;
  all = all;
  zombies = zombies;
  active = active;
  zombie = zombie;
  stopping = stopping;
}

-- It is so after an operation that returns.
pub record Goes (n : ℕ) (r : Option Watcher) : Type 0 where
  pub after : Watcher
  pub returns : r ≡ some after
  pub valid : Valid n after

-- The bound on the addresses may be any up to the number of cells.
pub lower : (m n : ℕ) (w : Watcher) → m ≤ n → Valid n w → Valid m w
lower m n w h v =
    valid
      (record {
        sized = omega (arith, v.cells.sized);
        counted = v.cells.counted;
        sound = v.cells.sound;
      })
      v.all v.zombies v.active v.zombie v.stopping

pub grow : (n : ℕ) (w : Watcher) → Valid n w → Valid w.fresh w
grow n w v =
    valid (record { sized = omega arith; counted = v.cells.counted; sound = v.cells.sound }) v.all
      v.zombies v.active v.zombie v.stopping

module _ (n : ℕ) where
  -- One job is written, and the count set to what it is then.
  pub put-Valid :
      (w : Watcher) (a : ℕ) (j : Job) (count : ℕ)
      → Valid n w
      → a < n
      → count + fds (job_at w a) ≡ w.current_open_fds + fds j
      → Sound j
      → Valid n (record (put_job a j w) { current_open_fds = count })
  put-Valid w a j count v h e s =
      valid
        (record {
          sized = v.cells.sized;
          counted = omega (
            arith,
            v.cells.counted,
            open_fds-write w.store a j w.fresh (omega (arith, v.cells.sized)),
          );
          sound = λ b l. write-Sound w.store a j b s (v.cells.sound b l);
        })
        v.all v.zombies v.active v.zombie v.stopping

  pub release-Valid : (w : Watcher) (a : ℕ) → Valid n w → a < n → Valid n (release_job a w)
  unfolding release_job
  release-Valid w a v h =
      let j = job_at w a in
      let (closed, counts, sound) = release-fds j in
      let below : a < w.fresh = omega (arith, v.cells.sized) in
      let fits = open_fds-write w.store a (release j).0 w.fresh below in
      elim (Bool-cases (release j).1) [
        | inl e ↦ simp e (
            put-Valid w a (release j).0 (w.current_open_fds - 1) v h
              (ground (arith, v.cells.counted, fits, counts, closed))
              (sound (v.cells.sound a below)))
        | inr e ↦ simp e (
            put-Valid w a (release j).0 w.current_open_fds v h (ground (arith, closed, counts))
              (sound (v.cells.sound a below)))
      ]

  -- A job is written whose file is as before.
  pub job-Valid :
      (w : Watcher) (a : ℕ) (j : Job)
      → Valid n w
      → a < n
      → fds j ≡ fds (job_at w a)
      → Sound j
      → Valid n (put_job a j w)
  job-Valid w a j v h e s = put-Valid w a j w.current_open_fds v h (omega (arith, e)) s
