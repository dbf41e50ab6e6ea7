-- ===== src/AckHandler/Valid.antt =====
-- Every message leaves a handler whose chains are sound, so `run` never stops on a nil pointer.
use mathlib.Core.Path.{subst₂}
use loggie.Prelude.{
  ◌≡◌, refl, ap, ◌∙◌, Option, none, some, List, [], ◌∷◌, String, str_eq, eq_iff, Dict, lookup,
  insert, arith, Bool-cases, Option-cases, inl, inr,
}
use loggie.Value.{State}
use loggie.Ack.{JobAckChain, ack, is_empty}
use loggie.AckHandler.{
  AckTask, Handler, Message, start, stop, appends, acks, maintenance, start_task, stop_task,
  append_state, append_states, ack_state, ack_states, maintain, handle, new_ack_chain, is_parent_of,
  run, new_handler,
}
use loggie.AckHandler.Appending.{
  Sound, Chains, insert-Chains, remove_where-Chains, ack-SoundAck, new-Sound, append_state-Chains,
}

-- A handler that is returned, and that it is sound.
pub record SoundHandler (res : Option Handler) : Type 0 where
  pub after : Handler
  pub returns : res ≡ some after
  pub sound : Chains after.job_ack_chains

append_states-Chains :
    (order : Dict AckTask → Dict AckTask) (ss : List State) (h : Handler)
    → Chains h.job_ack_chains
    → Chains (append_states order ss h).job_ack_chains
unfolding append_states
append_states-Chains order [] h v = v
append_states-Chains order (s ∷ ss) h v =
    append_states-Chains order ss (append_state order s h) (append_state-Chains order s h v)

ack_found :
    (s : State) (h : Handler) (c c' : JobAckChain)
    → lookup s.watch_uid h.job_ack_chains ≡ some c
    → ack c s ≡ some c'
    → ack_state s h ≡ some (record h { job_ack_chains = insert s.watch_uid c' h.job_ack_chains })
unfolding ack_state
ack_found s h c c' e f = ground arith

ack_stopped :
    (s : State) (h : Handler) → lookup s.watch_uid h.job_ack_chains ≡ none → ack_state s h ≡ some h
unfolding ack_state
ack_stopped s h e = ground arith

ack_state-SoundHandler :
    (s : State) (h : Handler) → Chains h.job_ack_chains → SoundHandler (ack_state s h)
ack_state-SoundHandler s h v = elim (Option-cases (lookup s.watch_uid h.job_ack_chains)) [
  | inl e ↦ record { after = h; returns = ack_stopped s h e; sound = v }
  | inr (c, e) ↦
      let a = ack-SoundAck s.watch_uid c s (v s.watch_uid c e) in
      record {
        after = record h { job_ack_chains = insert s.watch_uid a.after h.job_ack_chains };
        returns = ack_found s h c a.after e a.returns;
        sound = insert-Chains s.watch_uid a.after h.job_ack_chains a.sound v;
      }
]

ack_states-SoundHandler :
    (ss : List State) (h : Handler) → Chains h.job_ack_chains → SoundHandler (ack_states ss h)
unfolding ack_states
ack_states-SoundHandler [] h v = record { after = h; returns = refl; sound = v }
ack_states-SoundHandler (s ∷ ss) h v =
    let a = ack_state-SoundHandler s h v in
    let b = ack_states-SoundHandler ss a.after a.sound in
    record {
      after = b.after;
      returns = ap (λ r. elim r [ none ↦ none | some h' ↦ ack_states ss h' ]) a.returns ∙ b.returns;
      sound = b.sound;
    }

started :
    (at : AckTask) (h : Handler)
    → lookup at.key h.ack_tasks ≡ none
    → start_task at h ≡ record h { ack_tasks = insert at.key at h.ack_tasks }
unfolding start_task
started at h e = ground arith

known :
    (at : AckTask) (h : Handler) (old : AckTask)
    → lookup at.key h.ack_tasks ≡ some old
    → start_task at h ≡ h
unfolding start_task
known at h old e = ground arith

start-Chains :
    (at : AckTask) (h : Handler) → Chains h.job_ack_chains → Chains (start_task at h).job_ack_chains
start-Chains at h v = elim (Option-cases (lookup at.key h.ack_tasks)) [
  | inl e ↦ rw (started at h e) v
  | inr (old, e) ↦ rw (known at h old e) v
]

handle-SoundHandler :
    (order : Dict AckTask → Dict AckTask) (m : Message) (h : Handler)
    → Chains h.job_ack_chains
    → SoundHandler (handle order m h)
unfolding handle start_task stop_task maintain
handle-SoundHandler order (start at) h v = record {
  after = start_task at h;
  returns = refl;
  sound = start-Chains at h v;
}
handle-SoundHandler order (stop at) h v = record {
  after = stop_task at h;
  returns = refl;
  sound = remove_where-Chains (is_parent_of at) h.job_ack_chains h.job_ack_chains v;
}
handle-SoundHandler order (appends ss) h v = record {
  after = append_states order ss h;
  returns = refl;
  sound = append_states-Chains order ss h v;
}
handle-SoundHandler order (acks ss) h v = ack_states-SoundHandler ss h v
handle-SoundHandler order maintenance h v = record {
  after = maintain h;
  returns = refl;
  sound = remove_where-Chains is_empty h.job_ack_chains h.job_ack_chains v;
}

run-SoundHandler :
    (order : Dict AckTask → Dict AckTask) (ms : List Message) (h : Handler)
    → Chains h.job_ack_chains
    → SoundHandler (run order ms h)
unfolding run
run-SoundHandler order [] h v = record { after = h; returns = refl; sound = v }
run-SoundHandler order (m ∷ ms) h v =
    let a = handle-SoundHandler order m h v in
    let b = run-SoundHandler order ms a.after a.sound in
    record {
      after = b.after;
      returns = ap (λ r. elim r [ none ↦ none | some h' ↦ run order ms h' ]) a.returns ∙ b.returns;
      sound = b.sound;
    }

pub one-Chains : (at : AckTask) (uid : String) → Chains ((uid, new_ack_chain at uid) ∷ [])
unfolding lookup
one-Chains at uid k c e = elim (Bool-cases (str_eq uid k)) [
  | inl q ↦
      let found : some (new_ack_chain at uid) ≡ some c = ground arith in
      subst₂ Sound ((eq_iff uid k).0 q) (cc found) (new-Sound at uid)
  | inr q ↦ ground arith
]

none_yet : Chains []
unfolding lookup
none_yet k c e = cc

-- Whatever messages the handler receives, and in whatever order the runtime visits its tasks, `run`
-- handles every one of them: no acknowledgement loops for ever or meets a nil pointer. Behind
-- them each chain stands under its own watch uid and represents a queue.
pub run_total :
    (order : Dict AckTask → Dict AckTask) (ms : List Message)
    → SoundHandler (run order ms new_handler)
unfolding new_handler
run_total order ms = run-SoundHandler order ms new_handler none_yet
