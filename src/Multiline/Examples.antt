-- ===== src/Multiline/Examples.antt =====
-- A holder at a concrete log: a record of two lines that starts with "x".
use loggie.Prelude.{
  lookup, some, ◌≡◌, ℕ, ◌+◌, length, refl, false, List, [], ◌∷◌, Bool, ◌==◌, arith,
}
use loggie.Value.{State, end}
use loggie.Multiline.{MultiTask, MultiHolder, Event, Op, line, tick, new_multi_holder, run_holder}
use loggie.Multiline.Processor.{MultiProcessor, Message, events, ticks, run}
use loggie.Multiline.Isolation.{ops_of, run-holder}
use loggie.Multiline.Groups.{run_holder-Holds}
use loggie.Multiline.Joining.{Holds}
use loggie.Multiline.Places.{Placed, run_holder-Placed}

abbrev starts_with_x : List ℕ → Bool
starts_with_x [] = false
starts_with_x (c ∷ cs) = c == 120

abbrev state_at : ℕ → ℕ → State
state_at from next = record {
  epoch = record { pipeline_name = "p"; reload_count = 1; start_time = 7 };
  pipeline_name = "p";
  source_name = "s";
  offset = from;
  next_offset = next;
  filename = "a.log";
  collect_time = 100;
  content_bytes = 0;
  job_uid = "1-2";
  job_index = 1;
  event_uid = "p:s:1-2-9";
  line_number = 1;
  tags = "";
  watch_uid = "p:s:1-2";
  job_fields = end;
}

abbrev the_task : MultiTask
the_task = record {
  epoch = record { pipeline_name = "p"; reload_count = 1; start_time = 7 };
  source_name = "s";
  key = "p:s";
  config = record { max_lines = 3; max_bytes = 100; timeout = 5 };
  matcher = starts_with_x;
}

abbrev event_at : ℕ → List ℕ → Event
event_at from body = record {
  state = state_at from (from + (length body + 1));
  header = end;
  body = body;
}

abbrev ops : List Op
ops =
    line 1 (event_at 0 (120 ∷ 49 ∷ []))
    ∷ line 2 (event_at 3 (50 ∷ []))
    ∷ tick 3
    ∷ line 4 (event_at 5 (120 ∷ []))
    ∷ []

abbrev new_holder : MultiHolder
new_holder = new_multi_holder the_task (10 ∷ []) 0 end (state_at 0 0)

run_holder-Holds_example :
    Holds
      (10 ∷ [])
      starts_with_x
      ((120 ∷ 49 ∷ []) ∷ (50 ∷ []) ∷ (120 ∷ []) ∷ [])
      (run_holder new_holder ops)
run_holder-Holds_example =
    run_holder-Holds the_task (10 ∷ []) 0 end (state_at 0 0) ops
      (omega arith, (omega arith, (omega arith, tt)))

run_holder-Placed_example :
    Placed 1 0 7 (run_holder (new_multi_holder the_task (10 ∷ []) 0 end (state_at 0 0)) ops)
run_holder-Placed_example =
    run_holder-Placed the_task (10 ∷ []) 0 end (state_at 0 0) 0 ops
      (omega arith, refl, refl, (omega arith, refl, refl, (omega arith, refl, refl, tt)))

-- The processor with a holder of this file, and of another one.
abbrev the_processor : MultiProcessor
the_processor = record {
  tasks = [];
  holder_map = ("p:s:1-2", new_holder) ∷ ("p:s:3-4", new_holder) ∷ [];
}

abbrev messages : List Message
messages = events 1 (event_at 0 (120 ∷ [])) ∷ ticks 9 ∷ events 10 (event_at 2 (50 ∷ [])) ∷ []

run-holder_example :
    lookup "p:s:1-2" (run (λ ts. ts) (λ p s. 10 ∷ []) messages the_processor).holder_map
    ≡ some (run_holder new_holder (ops_of "p:s:1-2" messages))
unfolding lookup
run-holder_example =
    run-holder (λ ts. ts) (λ p s. 10 ∷ []) "p:s:1-2" messages the_processor new_holder
      (tt, (tt, (tt, tt))) refl
