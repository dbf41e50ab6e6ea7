-- ===== src/Ack/Runs.antt =====
-- Over whole histories of one chain: the checkpoint never runs ahead of an event that is not
-- acked.
use mathlib.Core.List.{append_assoc, append-nil}
use loggie.Prelude.{
  ◌≡◌, refl, ◌∙◌, true, false, Option, some, lookup, List, [], ◌∷◌, ◌++◌, String, str_eq_sym, arith,
  Bool-cases, inl, inr,
}
use loggie.Value.{Epoch, State, epoch_equal}
use loggie.Ack.{JobAckChain, new_job_ack_chain, link, append, ack}
use loggie.Ack.Spec.{Entry, spec_append, spec_ack}
use loggie.Ack.Rep.{Refines, append-Refines}
use loggie.Ack.Acking.{ack-Acked}
use loggie.Ack.History.{Op, appends, acks, step, run, appended, acked, mem, uids, Unique}
use loggie.Ack.Ledger.{Ledger, append-Ledger, ack-Ledger, uids-append, mem-append}

-- The chain stands for a queue, and its log is in order.
pub record Tracks (past : List State) (ks : List String) (ac : JobAckChain) : Type 0 where
  pub queue : List Entry
  pub refines : Refines ac queue
  pub ledger : Ledger past ks queue ac.persisted

pub append_other :
    (ac : JobAckChain) (s : State) → epoch_equal ac.epoch s.epoch ≡ false → append ac s ≡ ac
unfolding append
append_other ac s e = rw e refl

pub ack_other :
    (ac : JobAckChain) (s : State) → epoch_equal ac.epoch s.epoch ≡ false → ack ac s ≡ some ac
unfolding ack
ack_other ac s e = rw e refl

Unique-fresh :
    (js : List String) (k : String) (ks : List String) → Unique (js ++ k ∷ ks) → mem k js ≡ false
Unique-fresh [] k ks u = refl
Unique-fresh (j ∷ js) k ks u =
    ground (arith, mem-append j js (k ∷ ks), str_eq_sym k j, Unique-fresh js k ks u.1)

append-epoch : (ac : JobAckChain) (s : State) → (append ac s).epoch ≡ ac.epoch
unfolding append link
append-epoch ac s = ground arith

append-persisted : (ac : JobAckChain) (s : State) → (append ac s).persisted ≡ ac.persisted
unfolding append link
append-persisted ac s = ground arith

pub record Returns (e : Epoch) (res : Option JobAckChain) (past : List State) (ks : List String)
    : Type 0 where
  pub after : JobAckChain
  pub returns : res ≡ some after
  pub same_epoch : after.epoch ≡ e
  pub tracks : Tracks past ks after

append-Tracks :
    (e : Epoch) (past : List State) (ks : List String) (ac : JobAckChain) (s : State)
    → ac.epoch ≡ e
    → epoch_equal e s.epoch ≡ true
    → mem s.event_uid (uids past) ≡ false
    → Tracks past ks ac
    → Tracks (past ++ s ∷ []) ks (append ac s)
append-Tracks e past ks ac s same ee fresh t = record {
  queue = spec_append s t.queue;
  refines = append-Refines ac s t.queue (rw same ee) t.refines;
  ledger = rw (append-persisted ac s) (append-Ledger past ks t.queue ac.persisted s fresh t.ledger);
}

ack-Tracks :
    (e : Epoch) (past : List State) (ks : List String) (ac : JobAckChain) (s : State)
    → ac.epoch ≡ e
    → epoch_equal e s.epoch ≡ true
    → Tracks past ks ac
    → (ac' : JobAckChain) × (ack ac s ≡ some ac')
      × (ac'.epoch ≡ e)
      × Tracks past (ks ++ s.event_uid ∷ []) ac'
ack-Tracks e past ks ac s same ee t =
    let a = ack-Acked ac s t.queue (rw same ee) t.refines in
    (
      a.after,
      a.returns,
      a.same_epoch ∙ same,
      record {
        queue = (spec_ack s.event_uid t.queue ac.persisted).0;
        refines = a.refines;
        ledger = rw a.logged (ack-Ledger past ks t.queue ac.persisted s.event_uid t.ledger);
      },
    )

pub run_on :
    (op : Op) (ops : List Op) (ac ac' : JobAckChain)
    → step ac op ≡ some ac'
    → run ac (op ∷ ops) ≡ run ac' ops
unfolding run
run_on op ops ac ac' e = rw (e, run) refl

run-Returns :
    (e : Epoch) (ops : List Op) (past : List State) (ks : List String) (ac : JobAckChain)
    → ac.epoch ≡ e
    → Unique (uids (past ++ appended e ops))
    → Tracks past ks ac
    → Returns e (run ac ops) (past ++ appended e ops) (ks ++ acked e ops)
unfolding run step
run-Returns e [] past ks ac same u t =
    rw (append-nil past, append-nil ks)
      (record { after = ac; returns = refl; same_epoch = same; tracks = t })
run-Returns e (appends s ∷ ops) past ks ac same u t = elim (Bool-cases (epoch_equal e s.epoch)) [
  | inl ee ↦
      let v : Unique (uids (past ++ s ∷ appended e ops)) = rw ee at u in
      let w = rw (uids-append past (s ∷ appended e ops)) at v in
      rw (ee, ← append_assoc past (s ∷ []) (appended e ops))
        (run-Returns e ops (past ++ s ∷ []) ks (append ac s) (append-epoch ac s ∙ same)
          (rw (append_assoc past (s ∷ []) (appended e ops)) v)
          (append-Tracks e past ks ac s same ee
            (Unique-fresh (uids past) s.event_uid (uids (appended e ops)) w) t))
  | inr ne ↦
      rw (ne, append_other ac s (rw same ne)) (run-Returns e ops past ks ac same (rw ne at u) t)
]
run-Returns e (acks s ∷ ops) past ks ac same u t = elim (Bool-cases (epoch_equal e s.epoch)) [
  | inl ee ↦
      let (ac', r, same', t') = ack-Tracks e past ks ac s same ee t in
      rw (ee, ← append_assoc ks (s.event_uid ∷ []) (acked e ops), run_on (acks s) ops ac ac' r)
        (run-Returns e ops past (ks ++ s.event_uid ∷ []) ac' same' u t')
  | inr ne ↦
      rw (ne, run_on (acks s) ops ac ac (ack_other ac s (rw same ne)))
        (run-Returns e ops past ks ac same u t)
]

pub new-Refines :
    (e : Epoch) (pipeline source uid : String)
    → Refines (new_job_ack_chain e pipeline source uid) []
unfolding new_job_ack_chain lookup
new-Refines e pipeline source uid = record {
  cells = [];
  rep = record {
    holds = tt;
    linked = refl;
    ends = refl;
    indexed = λ k. refl;
    distinct = tt;
    firsts = tt;
  };
  viewed = refl;
  head_open = tt;
}

new-Tracks :
    (e : Epoch) (pipeline source uid : String)
    → Tracks [] [] (new_job_ack_chain e pipeline source uid)
unfolding new_job_ack_chain
new-Tracks e pipeline source uid = record {
  queue = [];
  refines = new-Refines e pipeline source uid;
  ledger = record { released = []; split = refl; all_acked = tt; marked = tt; checkpoint = refl };
}

-- From a new chain, through any history of `Append` and `Ack` calls, in any order and of any
-- epochs, in which no event uid of the chain's epoch is appended twice: every call returns, and
-- the chain then holds, in order, the states of its epoch that were appended, but for a prefix.
-- Every state of the prefix was acked, and its last state is the newest that persistence was
-- handed (none, if the prefix is empty).
pub run_checkpoint :
    (e : Epoch) (pipeline source uid : String) (ops : List Op)
    → Unique (uids (appended e ops))
    → Returns e (run (new_job_ack_chain e pipeline source uid) ops) (appended e ops) (acked e ops)
unfolding new_job_ack_chain
run_checkpoint e pipeline source uid ops u =
    run-Returns e ops [] [] (new_job_ack_chain e pipeline source uid) refl u
      (new-Tracks e pipeline source uid)
