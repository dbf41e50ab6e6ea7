-- ===== src/Queue/Examples.antt =====
-- The queues at concrete inputs: batches of two events, or of ten bytes.
use loggie.Prelude.{◌≡◌, refl, Bool, List, [], ◌∷◌, arith, length, ◌==◌}
use loggie.Queue.{
  Config, Consumer, Input, Op, Event, event, ticks, worker, new_worker, consume, consumes, receives,
  ticking, run, tick,
}
use loggie.Queue.Channel.{Batching, worker-Batching}
use loggie.Queue.Memory.{Split, consume-Split}
use loggie.Queue.Delivery.{count, carried, run-counts}

abbrev limits : Config
limits = record { batch_size = 2; batch_bytes = 10; batch_agg_max_timeout = 3 }

abbrev inputs : List Input
inputs = event 1 (1 ∷ []) ∷ event 2 (2 ∷ []) ∷ event 3 (3 ∷ []) ∷ ticks 9 ∷ []

worker-Batching_example :
    Batching limits ((1 ∷ []) ∷ (2 ∷ []) ∷ (3 ∷ []) ∷ []) (worker limits inputs (new_worker 0))
worker-Batching_example = worker-Batching limits 0 inputs (omega arith) (omega arith)

abbrev idle : Consumer
idle = record { worker = new_worker 0; inner_buffer = [] }

abbrev range : List Event
range = (1 ∷ []) ∷ (2 ∷ []) ∷ (3 ∷ []) ∷ []

consume-Split_example : Split limits range idle (consume limits range idle)
consume-Split_example = consume-Split limits range idle (omega arith) (omega arith)

abbrev short : Event → Bool
short e = length e == 1

-- The event 9 is committed before the range, and sent behind its first batch.
abbrev ops : List Op
ops = consumes ((9 ∷ []) ∷ []) ∷ consumes range ∷ receives 4 ∷ receives 5 ∷ ticking 9 ∷ []

overtakes :
    (run limits ops idle).worker.out ≡ ((1 ∷ []) ∷ (2 ∷ []) ∷ []) ∷ ((9 ∷ []) ∷ (3 ∷ []) ∷ []) ∷ []
unfolding run new_worker tick
overtakes = refl

run-counts_example : count short (carried (run limits ops idle)) ≡ 4
run-counts_example = run-counts short limits 0 ops (omega arith) (omega arith)
