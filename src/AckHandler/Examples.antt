-- ===== src/AckHandler/Examples.antt =====
-- The handler at a concrete run: a task, two files, and messages that come out of order.
use loggie.Prelude.{◌≡◌, refl, none, List, [], ◌∷◌, lookup}
use loggie.Value.{Epoch, State, end}
use loggie.Ack.{JobAckChain, new_job_ack_chain}
use loggie.AckHandler.{
  AckTask, Handler, Message, start, stop, appends, acks, maintenance, new_handler, run, stop_task,
  is_parent_of, new_ack_chain,
}
use loggie.AckHandler.Valid.{SoundHandler, run_total, one-Chains}
use loggie.AckHandler.Stopping.{stop_task_clears}

abbrev the_epoch : Epoch
the_epoch = record { pipeline_name = "p"; reload_count = 1; start_time = 7 }

abbrev the_task : AckTask
the_task = record { epoch = the_epoch; pipeline_name = "p"; source_name = "s"; key = "p:s" }

abbrev the_state : State
the_state = record {
  epoch = the_epoch;
  pipeline_name = "p";
  source_name = "s";
  offset = 0;
  next_offset = 10;
  filename = "a.log";
  collect_time = 100;
  content_bytes = 10;
  job_uid = "1-2";
  job_index = 1;
  event_uid = "p:s:1-2-9";
  line_number = 1;
  tags = "";
  watch_uid = "p:s:1-2";
  job_fields = end;
}

abbrev messages : List Message
messages =
    acks (the_state ∷ [])
    ∷ start the_task
    ∷ appends (the_state ∷ [])
    ∷ acks (the_state ∷ [])
    ∷ maintenance
    ∷ stop the_task
    ∷ []

run_total_example : SoundHandler (run (λ ts. ts) messages new_handler)
run_total_example = run_total (λ ts. ts) messages

abbrev the_chain : JobAckChain
the_chain = new_ack_chain the_task "p:s:1-2"

abbrev the_handler : Handler
the_handler = record {
  job_ack_chains = ("p:s:1-2", the_chain) ∷ [];
  ack_tasks = ("p:s", the_task) ∷ [];
}

stop_task_clears_example : lookup "p:s:1-2" (stop_task the_task the_handler).job_ack_chains ≡ none
unfolding new_ack_chain is_parent_of lookup new_job_ack_chain
stop_task_clears_example =
    stop_task_clears the_task the_handler "p:s:1-2" the_chain (one-Chains the_task "p:s:1-2") refl
      refl
