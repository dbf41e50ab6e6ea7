-- ===== src/Watch/Panics.antt =====
-- When the scan of a zombie job panics (pkg/source/file/watch.go).
use loggie.Prelude.{
  ◌≡◌, ◌↔◌, ℕ, ◌⊎◌, true, false, Option, none, some, is_some, arith, refl, Bool-cases, inl, inr,
}
use mathlib.Core.Option.{some-ne-none}
use loggie.Job.{is_stop, is_delete}
use loggie.Watch.{Watcher, FileInfo, stat_failed, Env, job_at}
use loggie.Watch.Loop.{scan_zombie_at, unless_removed, check_remove, Checked, removed, still}
use loggie.Watch.Keeping.{StatAnswer-cases}

abbrev pub Unknown : Env → ℕ → Watcher → Type 0
Unknown env a w =
    (is_delete (job_at w a) ≡ false)
    × ((is_stop (job_at w a) ≡ true) ⊎ (is_some (job_at w a).file ≡ false))
    × (env.stat (job_at w a).filename ≡ stat_failed)

check_remove-panics :
    (env : Env) (a : ℕ) (w : Watcher)
    → check_remove env a w ≡ none
    → env.stat (job_at w a).filename ≡ stat_failed
unfolding check_remove
check_remove-panics env a w h = elim (StatAnswer-cases (env.stat (job_at w a).filename)) [
  | inr (inr e) ↦ e
  | inr (inl e) ↦ absurd (some-ne-none _ (simp (check_remove, e) at h))
  | inl (info, e) ↦ absurd (some-ne-none _ (simp (check_remove, e) at h))
]

check_remove-unknown :
    (env : Env) (a : ℕ) (w : Watcher)
    → env.stat (job_at w a).filename ≡ stat_failed
    → check_remove env a w ≡ none
unfolding check_remove
check_remove-unknown env a w e = simp (check_remove, e) refl

unless_removed-none :
    (f : FileInfo → Watcher) (c : Option Checked) → unless_removed f c ≡ none → c ≡ none
unless_removed-none f none h = refl
unless_removed-none f (some (removed gone)) h = absurd (some-ne-none _ h)
unless_removed-none f (some (still info)) h = absurd (some-ne-none _ h)

-- The turn of a zombie job in a scan panics just when the job is not deleted, is stopped or holds no
-- file, and the information on its file is refused for a reason other than that it is not there.
pub scan_zombie_at-panics :
    (env : Env) (a : ℕ) (w : Watcher) → (scan_zombie_at env a w ≡ none) ↔ Unknown env a w
unfolding scan_zombie_at
scan_zombie_at-panics env a w =
    let unknown = λ (f : FileInfo → Watcher) (h : unless_removed f (check_remove env a w) ≡ none).
      check_remove-panics env a w (unless_removed-none f (check_remove env a w) h) in
    (
      λ h. elim (Bool-cases (is_delete (job_at w a))) [
        | inl d ↦ absurd (some-ne-none _ (simp (scan_zombie_at, d) at h))
        | inr d ↦ elim (Bool-cases (is_stop (job_at w a))) [
          | inl s ↦ (d, inl s, unknown _ (simp (scan_zombie_at, d, s) at h))
          | inr s ↦ elim (Bool-cases (is_some (job_at w a).file)) [
            | inl f ↦ absurd (some-ne-none _ (simp (scan_zombie_at, d, s, f) at h))
            | inr f ↦ (d, inr f, unknown _ (simp (scan_zombie_at, d, s, f) at h))
          ]
        ]
      ],
      λ (d, s, u). elim (Bool-cases (is_stop (job_at w a))) [
        | inl stopped ↦ simp (scan_zombie_at, d, stopped, check_remove-unknown env a w u) refl
        | inr going ↦ elim s [
          | inl stopped ↦ absurd (ground (arith, going, stopped))
          | inr f ↦ simp (scan_zombie_at, d, going, f, check_remove-unknown env a w u) refl
        ]
      ],
    )
