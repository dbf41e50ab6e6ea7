-- ===== src/Ack/Examples.antt =====
-- The chain at a concrete history: two events of one file, acked in the wrong order.
use loggie.Prelude.{ℕ, ◌+◌, refl, false, lookup, insert, List, [], ◌∷◌, ◌++◌, String}
use loggie.Value.{Epoch, State, epoch_equal, end}
use loggie.Ack.{JobAckChain, new_job_ack_chain, append, ack}
use loggie.Ack.Rep.{Refines, append-Refines}
use loggie.Ack.Acking.{Acked, ack-Acked}
use loggie.Ack.History.{Op, appends, acks, run}
use loggie.Ack.Completing.{Drained, acks_of, run_drains}
use loggie.Ack.Runs.{Returns, new-Refines, run_checkpoint}

abbrev the_epoch : Epoch
the_epoch = record { pipeline_name = "p"; reload_count = 1; start_time = 7 }

abbrev state_of : String → ℕ → State
state_of uid offset = record {
  epoch = the_epoch;
  pipeline_name = "p";
  source_name = "s";
  offset = offset;
  next_offset = offset + 10;
  filename = "a.log";
  collect_time = 100;
  content_bytes = 10;
  job_uid = "1-2";
  job_index = 1;
  event_uid = uid;
  line_number = 1;
  tags = "";
  watch_uid = "p:s:1-2";
  job_fields = end;
}

abbrev first_state : State
first_state = state_of "p:s:1-2-9" 0

abbrev second_state : State
second_state = state_of "p:s:1-2-19" 10

abbrev new_chain : JobAckChain
new_chain = new_job_ack_chain the_epoch "p" "s" "p:s:1-2"

abbrev one_chain : JobAckChain
one_chain = append new_chain first_state

append-Refines_example : Refines one_chain ((first_state, false) ∷ [])
unfolding new_job_ack_chain epoch_equal
append-Refines_example =
    append-Refines new_chain first_state [] refl (new-Refines the_epoch "p" "s" "p:s:1-2")

ack-Acked_example :
    Acked one_chain (ack one_chain first_state) ([], first_state ∷ one_chain.persisted)
unfolding new_job_ack_chain epoch_equal append lookup insert
ack-Acked_example =
    ack-Acked one_chain first_state ((first_state, false) ∷ []) refl append-Refines_example

abbrev history : List Op
history = appends first_state ∷ appends second_state ∷ acks second_state ∷ acks first_state ∷ []

run_checkpoint_example :
    Returns the_epoch
      (run new_chain history)
      (first_state ∷ second_state ∷ [])
      (second_state.event_uid ∷ first_state.event_uid ∷ [])
unfolding epoch_equal
run_checkpoint_example = run_checkpoint the_epoch "p" "s" "p:s:1-2" history (refl, (refl, tt))

-- Two events, whose acks come in the wrong order, the first of them twice.
abbrev both_appended : List Op
both_appended = appends first_state ∷ appends second_state ∷ []

run_drains_example :
    Drained
      (run new_chain (both_appended ++ acks_of (second_state ∷ second_state ∷ first_state ∷ [])))
      (first_state ∷ second_state ∷ [])
unfolding epoch_equal
run_drains_example =
    run_drains the_epoch "p" "s" "p:s:1-2" both_appended
      (second_state ∷ second_state ∷ first_state ∷ []) (refl, (refl, tt)) (refl, (refl, (refl, tt)))
      (refl, (refl, tt))
