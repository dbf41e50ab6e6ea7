-- ===== src/Retry.antt =====
-- The retry interceptor (pkg/interceptor/retry/interceptor.go): the loop of `run` as a step for each
-- case of its `select`, and what `Intercept` decides. A batch is its number; the retry mark that
-- its metadata holds is in `meta`. `c` and `out` say whether these channels are set, `timer`
-- whether the timer `t` runs or has fired without being received; how long it runs, which the backoff
-- says, is left out. Batches handed to `surviveChan` are listed in
-- `survived`, the oldest first.
use loggie.Prelude.{
  ℕ, ◌+◌, Bool, true, false, not, ◌&&◌, ◌||◌, Option, none, some, List, [], ◌∷◌, ◌++◌, ◌==◌, ltb,
  length, is_some, if◌then◌else◌, ◌≡◌,
}
pub mod Phases
pub mod Loop
pub mod Retrying
pub mod Examples

pub record Retry : Type 0 where
  pub buffer : List ℕ
  pub active : Option ℕ
  pub out : Bool
  pub c : Bool
  pub timer : Bool
  pub pause_sign : Bool
  pub meta : ℕ → Option ℕ
  pub survived : List ℕ

unfoldable pub new_retry : Retry
new_retry = record {
  buffer = [];
  active = none;
  out = false;
  c = false;
  timer = true;
  pause_sign = false;
  meta = λ b. none;
  survived = [];
}

-- The case of `signChan`: `wakeUp`.
abbrev pub reset : Retry → Retry
reset i = record i { pause_sign = false }

-- The case of `in`.
abbrev pub take_in : ℕ → Retry → Retry
take_in b i =
    let buffer = i.buffer ++ b ∷ [] in
    record i { buffer = buffer; pause_sign = ltb 1 (length buffer) || i.pause_sign }

abbrev pub counted : Option ℕ → ℕ
counted none = 1
counted (some n) = n + 1

-- The case of the timer; `none` where `buffer[0]` would panic.
abbrev pub fire : Retry → Option Retry
fire i = elim i.buffer [
  | [] ↦ none
  | b ∷ bs ↦ some (record i {
    active = some b;
    meta = λ x. if x == b then some (counted (i.meta b)) else i.meta x;
    out = true;
    c = false;
    timer = false;
  })
]

-- The case of `out <- active`, which sets the timer again; `none` where `buffer[1:]` would panic, or nothing is active.
abbrev pub hand_on : Retry → Option Retry
hand_on i = elim i.buffer [
  | [] ↦ none
  | b ∷ bs ↦ elim i.active [
    | none ↦ none
    | some a ↦ some (record i {
      buffer = bs;
      active = none;
      out = false;
      timer = true;
      survived = i.survived ++ a ∷ [];
    })
  ]
]

-- What follows the `select`.
abbrev pub rearm : Retry → Retry
rearm i = elim i.buffer [ [] ↦ i | b ∷ bs ↦ if is_some i.active then i else record i { c = true } ]

-- What the loop can be in, behind the batches it took in. A case is open where its channel is set.
pub data Reached : List ℕ → Retry → Type 0 where
  starts : Reached [] new_retry
  resets : {bs : List ℕ} {i : Retry} → Reached bs i → Reached bs (rearm (reset i))
  takes :
      {bs : List ℕ} {i : Retry} (b : ℕ)
      → Reached bs i
      → Reached (bs ++ b ∷ []) (rearm (take_in b i))
  fires :
      {bs : List ℕ} {i j : Retry}
      → Reached bs i
      → i.c ≡ true
      → i.timer ≡ true
      → fire i ≡ some j
      → Reached bs (rearm j)
  hands :
      {bs : List ℕ} {i j : Retry}
      → Reached bs i
      → i.out ≡ true
      → hand_on i ≡ some j
      → Reached bs (rearm j)

-- What `Intercept` does with the sink's answer for a batch: `queued` hands the batch to the loop,
-- `dropped` answers a drop in place of the failure. The flag says whether the loop is signed to
-- reset.
pub data Outcome : Type 0 where
  passed : Bool → Outcome
  dropped queued : Outcome

pub is_retry_batch : Option ℕ → Bool
is_retry_batch none = false
is_retry_batch (some n) = ltb 0 n

pub intercept : ℕ → Bool → Bool → Option ℕ → Outcome
unfolding is_retry_batch
intercept retry_max_count stopped failed none =
    if stopped then passed false else if failed then queued else passed false
intercept retry_max_count stopped failed (some n) =
    if stopped
    then passed false
    else if failed
    then if ltb 0 retry_max_count && ltb retry_max_count n then dropped else queued
    else passed (is_retry_batch (some n))
