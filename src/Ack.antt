-- ===== src/Ack.antt =====
-- The acknowledgement chain of one file (pkg/source/file/ack.go, `ack` and `JobAckChain`).
-- Acks are nodes of a heap at addresses that are handed out in order. The pool of the source only
-- ever hands out blank nodes, so taking one from it is an allocation, and `ReleaseAck` has no
-- effect on the chain. `sampleLogger`, `Start` and `start` are only written, and are left out.
-- The calls of `persistenceFunc` are recorded in `persisted`, the newest first.
use loggie.Prelude.{
  ℕ, zero, suc, Bool, true, false, not, Option, none, some, List, [], ◌∷◌, String, Dict, lookup,
  insert, delete, str_eq, ◌==◌, if◌then◌else◌,
}
use loggie.Value.{Epoch, State, epoch_equal, end}
pub mod Cells
pub mod Links
pub mod Spec
pub mod Rep
pub mod Drain
pub mod Acking
pub mod History
pub mod Ledger
pub mod Runs
pub mod Completing
pub mod Examples

pub record Ack : Type 0 where
  pub next : Option ℕ
  pub first : Bool
  pub done : Bool
  pub state : State

pub record JobAckChain : Type 0 where
  pub epoch : Epoch
  pub pipeline_name : String
  pub source_name : String
  pub job_watch_uid : String
  pub last_file_name : String
  pub tail : Option ℕ
  pub all_ack : Dict ℕ
  pub heap : ℕ → Ack
  pub fresh : ℕ
  pub persisted : List State

abbrev pub update : (ℕ → Ack) → ℕ → Ack → ℕ → Ack
update h p a q = if p == q then a else h q

abbrev pub key : Ack → String
key a = a.state.event_uid

abbrev pub new_ack_with : State → Ack
new_ack_with s = record { next = none; first = false; done = false; state = s }

unfoldable pub new_job_ack_chain : Epoch → String → String → String → JobAckChain
new_job_ack_chain epoch pipeline source uid = record {
  epoch = epoch;
  pipeline_name = pipeline;
  source_name = source;
  job_watch_uid = uid;
  last_file_name = "";
  tail = none;
  all_ack = [];
  heap = λ _. new_ack_with (record {
    epoch = epoch;
    pipeline_name = "";
    source_name = "";
    offset = 0;
    next_offset = 0;
    filename = "";
    collect_time = 0;
    content_bytes = 0;
    job_uid = "";
    job_index = 0;
    event_uid = "";
    line_number = 0;
    tags = "";
    watch_uid = "";
    job_fields = end;
  });
  fresh = 0;
  persisted = [];
}

-- `Append` once the state is known to be new: link the node behind the tail.
unfoldable pub link : State → Option ℕ → JobAckChain → JobAckChain
link s none ac = record ac {
  heap = update ac.heap ac.fresh (record { next = none; first = true; done = false; state = s });
  all_ack = insert s.event_uid ac.fresh ac.all_ack;
  tail = some ac.fresh;
  last_file_name = s.filename;
  fresh = suc ac.fresh;
}
link s (some t) ac =
    let h = update ac.heap ac.fresh (new_ack_with s) in
    record ac {
      heap = update h t (record (h t) { next = some ac.fresh });
      all_ack = insert s.event_uid ac.fresh ac.all_ack;
      tail = some ac.fresh;
      fresh = suc ac.fresh;
    }

unfoldable pub append : JobAckChain → State → JobAckChain
unfolding link
append ac s =
    if not (epoch_equal ac.epoch s.epoch)
    then ac
    else elim (lookup s.event_uid ac.all_ack) [ some _ ↦ ac | none ↦ link s ac.tail ac ]

-- One round of `ackLoop` at a done node: drop it from the chain and the map.
-- `none` stands for the nil dereference of `ac.tail`.
unfoldable pub unlink : ℕ → JobAckChain → Option JobAckChain
unlink n ac = elim ac.tail [
  | none ↦ none
  | some t ↦ some (record ac {
    tail = if str_eq (key (ac.heap t)) (key (ac.heap n)) then none else some t;
    all_ack = delete (key (ac.heap n)) ac.all_ack;
    heap = update ac.heap n (record (ac.heap n) { next = none });
  })
]

-- The `for next != nil` loop, and the call of `persistenceFunc` behind it.
-- `none`: the fuel ran out, or a nil dereference.
unfoldable pub ack_loop : ℕ → Option ℕ → State → JobAckChain → Option JobAckChain
ack_loop zero next prev ac = none
ack_loop (suc f) none prev ac = some (record ac { persisted = prev ∷ ac.persisted })
ack_loop (suc f) (some n) prev ac = elim (ac.heap n).done [
  | false ↦ some (record ac {
    heap = update ac.heap n (record (ac.heap n) { first = true });
    persisted = prev ∷ ac.persisted;
  })
  | true ↦ elim (unlink n ac) [
    | none ↦ none
    | some ac' ↦ ack_loop f (ac.heap n).next (ac.heap n).state ac'
  ]
]

-- `Ack` at a node that the map knows.
unfoldable pub mark : ℕ → JobAckChain → Option JobAckChain
mark n ac =
    let ac' = record ac { heap = update ac.heap n (record (ac.heap n) { done = true }) } in
    let loop = ack_loop (suc (suc ac.fresh)) (some n) (ac.heap n).state ac' in
    if (ac.heap n).first then loop else some ac'

unfoldable pub ack : JobAckChain → State → Option JobAckChain
unfolding mark
ack ac s =
    if not (epoch_equal ac.epoch s.epoch)
    then some ac
    else elim (lookup s.event_uid ac.all_ack) [ none ↦ some ac | some n ↦ mark n ac ]

unfoldable pub is_empty : JobAckChain → Bool
is_empty ac = elim ac.tail [ none ↦ true | some _ ↦ false ]
