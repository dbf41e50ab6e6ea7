-- ===== src/Retry/Examples.antt =====
-- A run of the retry loop: two batches fail, and the first is handed on.
use loggie.Prelude.{◌≡◌, ◌≢◌, ◌⊎◌, refl, true, false, none, some, [], ◌∷◌, ◌==◌, if◌then◌else◌}
use loggie.Retry.{Retry, new_retry, take_in, fire, hand_on, rearm, Reached, starts, takes, fires}
use loggie.Retry.Loop.{Reached-Ready, Reached-safe}
use loggie.Retry.Retrying.{Retried, Reached-Retried}
use loggie.Retry.Phases.{Ready}

abbrev two_failed : Retry
two_failed = rearm (take_in 2 (rearm (take_in 1 new_retry)))

two_failed-Reached : Reached (1 ∷ 2 ∷ []) two_failed
two_failed-Reached = takes 2 (takes 1 starts)

abbrev first_taken : Retry
first_taken = record two_failed {
  active = some 1;
  meta = λ x. if x == 1 then some 1 else none;
  out = true;
  c = false;
  timer = false;
}

first_taken-Reached : Reached (1 ∷ 2 ∷ []) (rearm first_taken)
unfolding new_retry
first_taken-Reached = fires two_failed-Reached refl refl refl

Reached-Ready_example : Ready (1 ∷ 2 ∷ []) (rearm first_taken)
Reached-Ready_example = Reached-Ready (1 ∷ 2 ∷ []) (rearm first_taken) first_taken-Reached

Reached-safe_example :
    ((two_failed.c ≡ false) ⊎ (fire two_failed ≢ none))
    × ((two_failed.out ≡ false) ⊎ (hand_on two_failed ≢ none))
Reached-safe_example = Reached-safe (1 ∷ 2 ∷ []) two_failed two_failed-Reached

Reached-Retried_example : Retried two_failed 1 (2 ∷ [])
unfolding new_retry
Reached-Retried_example = Reached-Retried (1 ∷ 2 ∷ []) two_failed 1 (2 ∷ []) two_failed-Reached refl
