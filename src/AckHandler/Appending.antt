-- ===== src/AckHandler/Appending.antt =====
-- The chains of the handler stay sound when states are appended (pkg/source/file/ack.go).
use mathlib.Core.Path.{subst₂}
use loggie.Prelude.{
  lookup-insert_hit, lookup-insert_miss, lookup-delete_hit, lookup-delete_miss, ◌≡◌, refl, sym, ◌∙◌,
  Bool, Option, none, some, List, [], ◌∷◌, String, str_eq, eq_iff, Dict, lookup, insert, delete,
  arith, Bool-cases, Option-cases, inl, inr,
}
use loggie.Value.{State, epoch_equal}
use loggie.Ack.{JobAckChain, new_job_ack_chain, append, ack, link}
use loggie.Ack.Spec.{Entry, spec_append, spec_ack}
use loggie.Ack.Rep.{Refines, append-Refines}
use loggie.Ack.Acking.{ack-Acked}
use loggie.Ack.Runs.{append_other, ack_other, new-Refines}
use loggie.AckHandler.{AckTask, Handler, remove_where, first_task, append_state, new_ack_chain}

-- A chain stands under its own uid, and represents some queue.
pub record Sound (k : String) (c : JobAckChain) : Type 0 where
  pub keyed : c.job_watch_uid ≡ k
  pub queue : List Entry
  pub refines : Refines c queue

abbrev pub Chains : Dict JobAckChain → Type 0
Chains m = (k : String) (c : JobAckChain) → lookup k m ≡ some c → Sound k c

pub insert-Chains :
    (k : String) (c : JobAckChain) (m : Dict JobAckChain)
    → Sound k c
    → Chains m
    → Chains (insert k c m)
insert-Chains k c m s v j d e = elim (Bool-cases (str_eq k j)) [
  | inl q ↦
      let found : some c ≡ some d = sym (lookup-insert_hit k j m c q) ∙ e in
      subst₂ Sound ((eq_iff k j).0 q) (cc found) s
  | inr q ↦ v j d (sym (lookup-insert_miss k j m c q) ∙ e)
]

delete-Chains : (k : String) (m : Dict JobAckChain) → Chains m → Chains (delete k m)
delete-Chains k m v j d e = elim (Bool-cases (str_eq k j)) [
  | inl q ↦ cc (sym (lookup-delete_hit k j m q) ∙ e)
  | inr q ↦ v j d (sym (lookup-delete_miss k j m q) ∙ e)
]

pub remove_where-Chains :
    (p : JobAckChain → Bool) (left chains : Dict JobAckChain)
    → Chains chains
    → Chains (remove_where p left chains)
unfolding remove_where
remove_where-Chains p [] chains v = v
remove_where-Chains p ((k, c) ∷ left) chains v = elim (Bool-cases (p c)) [
  | inl e ↦ rw e (
      remove_where-Chains p left (delete c.job_watch_uid chains)
        (delete-Chains c.job_watch_uid chains v))
  | inr e ↦ rw e (remove_where-Chains p left chains v)
]

append-uid : (c : JobAckChain) (s : State) → (append c s).job_watch_uid ≡ c.job_watch_uid
unfolding append link
append-uid c s = ground arith

append-Sound : (k : String) (c : JobAckChain) (s : State) → Sound k c → Sound k (append c s)
append-Sound k c s v = elim (Bool-cases (epoch_equal c.epoch s.epoch)) [
  | inl e ↦ record {
    keyed = append-uid c s ∙ v.keyed;
    queue = spec_append s v.queue;
    refines = append-Refines c s v.queue e v.refines;
  }
  | inr e ↦ rw (append_other c s e) v
]

-- An acked chain, and that it is sound.
pub record SoundAck (k : String) (res : Option JobAckChain) : Type 0 where
  pub after : JobAckChain
  pub returns : res ≡ some after
  pub sound : Sound k after

pub ack-SoundAck : (k : String) (c : JobAckChain) (s : State) → Sound k c → SoundAck k (ack c s)
ack-SoundAck k c s v = elim (Bool-cases (epoch_equal c.epoch s.epoch)) [
  | inl e ↦
      let a = ack-Acked c s v.queue e v.refines in
      record {
        after = a.after;
        returns = a.returns;
        sound = record {
          keyed = a.same_uid ∙ v.keyed;
          queue = (spec_ack s.event_uid v.queue c.persisted).0;
          refines = a.refines;
        };
      }
  | inr e ↦ record { after = c; returns = ack_other c s e; sound = v }
]

pub new-Sound : (at : AckTask) (uid : String) → Sound uid (new_ack_chain at uid)
unfolding new_ack_chain new_job_ack_chain
new-Sound at uid = record {
  keyed = refl;
  queue = [];
  refines = new-Refines at.epoch at.pipeline_name at.source_name uid;
}

append_found :
    (order : Dict AckTask → Dict AckTask) (s : State) (h : Handler) (c : JobAckChain)
    → lookup s.watch_uid h.job_ack_chains ≡ some c
    → append_state order s h
      ≡ record h { job_ack_chains = insert s.watch_uid (append c s) h.job_ack_chains }
unfolding append_state
append_found order s h c e = ground arith

append_stopped :
    (order : Dict AckTask → Dict AckTask) (s : State) (h : Handler)
    → lookup s.watch_uid h.job_ack_chains ≡ none
    → first_task s (order h.ack_tasks) ≡ none
    → append_state order s h ≡ h
unfolding append_state
append_stopped order s h e f = ground arith

append_new :
    (order : Dict AckTask → Dict AckTask) (s : State) (h : Handler) (at : AckTask)
    → lookup s.watch_uid h.job_ack_chains ≡ none
    → first_task s (order h.ack_tasks) ≡ some at
    → append_state order s h ≡ record h {
      job_ack_chains =
          insert s.watch_uid (append (new_ack_chain at s.watch_uid) s) h.job_ack_chains;
    }
unfolding append_state new_ack_chain new_job_ack_chain
append_new order s h at e f = ground arith

pub append_state-Chains :
    (order : Dict AckTask → Dict AckTask) (s : State) (h : Handler)
    → Chains h.job_ack_chains
    → Chains (append_state order s h).job_ack_chains
append_state-Chains order s h v = elim (Option-cases (lookup s.watch_uid h.job_ack_chains)) [
  | inr (c, e) ↦ rw (append_found order s h c e) (
      insert-Chains s.watch_uid (append c s) h.job_ack_chains
        (append-Sound s.watch_uid c s (v s.watch_uid c e)) v)
  | inl e ↦ elim (Option-cases (first_task s (order h.ack_tasks))) [
    | inl f ↦ rw (append_stopped order s h e f) v
    | inr (at, f) ↦ rw (append_new order s h at e f) (
        insert-Chains s.watch_uid (append (new_ack_chain at s.watch_uid) s) h.job_ack_chains
          (append-Sound s.watch_uid (new_ack_chain at s.watch_uid) s (new-Sound at s.watch_uid)) v)
  ]
]
