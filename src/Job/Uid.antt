-- ===== src/Job/Uid.antt =====
-- Event uids tell the events of a file apart.
use text.Mathlib.TextLemmas.{append_cancel_left}
use loggie.Prelude.{ℕ, ◌≡◌, String}
use loggie.Decimal.{itoa, itoa_inj}
use loggie.Job.{event_uid_of}

-- Two events of one file have the same event uid only if they end at the same offset.
pub event_uid_of_inj :
    (watch_uid : String) (m n : ℕ) → event_uid_of watch_uid m ≡ event_uid_of watch_uid n → m ≡ n
unfolding event_uid_of
event_uid_of_inj watch_uid m n e =
    itoa_inj m n (append_cancel_left "-" (itoa m) (itoa n) (append_cancel_left watch_uid _ _ e))
