-- ===== src/Ack/History.antt =====
-- Histories of calls on one chain.
use loggie.Prelude.{
  ◌≡◌, Bool, false, ◌||◌, Option, none, some, List, [], ◌∷◌, String, str_eq, if◌then◌else◌,
}
use loggie.Value.{Epoch, State, epoch_equal}
use loggie.Ack.{JobAckChain, append, ack}
use loggie.Ack.Spec.{Entry}

pub data Op : Type 0 where
  appends acks : State → Op

-- One call; `none` only where `Ack` does not return.
unfoldable pub step : JobAckChain → Op → Option JobAckChain
step ac (appends s) = some (append ac s)
step ac (acks s) = ack ac s

unfoldable pub run : JobAckChain → List Op → Option JobAckChain
run ac [] = some ac
run ac (op ∷ ops) = elim (step ac op) [ none ↦ none | some ac' ↦ run ac' ops ]

-- The states that are appended in the chain's epoch, in order.
abbrev pub appended : Epoch → List Op → List State
appended e [] = []
appended e (appends s ∷ ops) =
    let rest = appended e ops in if epoch_equal e s.epoch then s ∷ rest else rest
appended e (acks s ∷ ops) = appended e ops

-- The event uids that are acked in the chain's epoch.
abbrev pub acked : Epoch → List Op → List String
acked e [] = []
acked e (appends s ∷ ops) = acked e ops
acked e (acks s ∷ ops) =
    let rest = acked e ops in if epoch_equal e s.epoch then s.event_uid ∷ rest else rest

abbrev pub mem : String → List String → Bool
mem k [] = false
mem k (j ∷ ks) = str_eq j k || mem k ks

abbrev pub uids : List State → List String
uids [] = []
uids (s ∷ ss) = s.event_uid ∷ uids ss

abbrev pub Unique : List String → Type 0
Unique [] = Unit
Unique (k ∷ ks) = (mem k ks ≡ false) × Unique ks

abbrev pub states : List Entry → List State
states [] = []
states ((s, d) ∷ q) = s ∷ states q

abbrev pub last? : List State → Option State
last? [] = none
last? (s ∷ []) = some s
last? (s ∷ t ∷ ss) = last? (t ∷ ss)

abbrev pub newest : List State → Option State
newest [] = none
newest (s ∷ ss) = some s
