-- ===== src/Queue.antt =====
-- The batching queues (pkg/queue/channel/queue.go, pkg/queue/memory/memory.go). Sending on `out`
-- appends to `out`, the oldest batch first; listeners only observe, and are left out. Times are
-- those of `time.Now()`.
use loggie.Prelude.{
  ℕ, zero, suc, ◌+◌, ◌-◌, Bool, true, false, not, ◌&&◌, ◌||◌, Option, none, some, List, [], ◌∷◌,
  ◌++◌, ◌==◌, leb, ltb, if◌then◌else◌, length,
}
pub mod Channel
pub mod Memory
pub mod Delivery
pub mod Examples

-- An event of the queue is its body.
abbrev pub Event : Type 0
Event = List ℕ

pub record Config : Type 0 where
  pub batch_size : ℕ
  pub batch_bytes : ℕ
  pub batch_agg_max_timeout : ℕ

-- The variables of the worker.
pub record Worker : Type 0 where
  pub buffer : List Event
  pub size : ℕ
  pub bytes : ℕ
  pub first_event_append_time : ℕ
  pub out : List (List Event)

unfoldable pub new_worker : ℕ → Worker
new_worker now = record {
  buffer = [];
  size = 0;
  bytes = 0;
  first_event_append_time = now;
  out = [];
}

unfoldable pub flush : Worker → Worker
flush w = record w { out = w.out ++ w.buffer ∷ []; buffer = []; size = 0; bytes = 0 }

-- The case of an event: in `worker` of the channel queue, and in the inner consumer's `run`.
unfoldable pub take_event : Config → ℕ → Event → Worker → Worker
unfolding flush
take_event c now e w =
    let next = record w {
      first_event_append_time = if w.size == 0 then now else w.first_event_append_time;
      buffer = w.buffer ++ e ∷ [];
      size = w.size + 1;
      bytes = w.bytes + length e;
    } in
    if leb c.batch_size next.size || leb c.batch_bytes next.bytes then flush next else next

-- The case of the flusher's tick.
unfoldable pub tick : Config → ℕ → Worker → Worker
unfolding flush
tick c now w =
    if ltb 0 w.size && ltb c.batch_agg_max_timeout (now - w.first_event_append_time)
    then flush w
    else w

pub data Input : Type 0 where
  event : ℕ → Event → Input
  ticks : ℕ → Input

unfoldable pub worker : Config → List Input → Worker → Worker
unfolding take_event tick
worker c [] w = w
worker c (event now e ∷ is) w = worker c is (take_event c now e w)
worker c (ticks now ∷ is) w = worker c is (tick c now w)

-- The memory queue. `Consume` is called by the disruptor with the range of sequences that are
-- committed: `es` are their events, read from the ring buffer. A batch goes straight to `out`,
-- and what is left goes to the inner buffer, a channel of event slices.
pub record Consumer : Type 0 where
  pub worker : Worker
  pub inner_buffer : List (List Event)

pub record Slice : Type 0 where
  pub es : List Event
  pub l : ℕ
  pub bytes : ℕ
  pub sent : List (List Event)

slice_event : Config → Event → Slice → Slice
slice_event c e s =
    let l = s.l + 1 in
    let bytes = s.bytes + length e in
    let es = s.es ++ e ∷ [] in
    if leb c.batch_size l || leb c.batch_bytes bytes
    then record { es = []; l = 0; bytes = 0; sent = s.sent ++ es ∷ [] }
    else record { es = es; l = l; bytes = bytes; sent = s.sent }

slice_all : Config → List Event → Slice → Slice
unfolding slice_event
slice_all c [] s = s
slice_all c (e ∷ es) s = slice_all c es (slice_event c e s)

unfoldable pub consume : Config → List Event → Consumer → Consumer
unfolding slice_all
consume c es q =
    let s = slice_all c es (record { es = []; l = 0; bytes = 0; sent = [] }) in
    let w = q.worker in
    let sent = record q { worker = record w { out = w.out ++ s.sent } } in
    if ltb (length es) c.batch_size
    then record q { inner_buffer = q.inner_buffer ++ es ∷ [] }
    else if ltb 0 s.l
    then record sent { inner_buffer = q.inner_buffer ++ s.es ∷ [] }
    else sent

-- The case of a slice from the inner buffer: its events are taken one by one.
unfoldable pub take_events : Config → ℕ → List Event → Worker → Worker
unfolding take_event
take_events c now [] w = w
take_events c now (e ∷ es) w = take_events c now es (take_event c now e w)

unfoldable pub receive : Config → ℕ → Consumer → Consumer
unfolding take_events
receive c now q = elim q.inner_buffer [
  | [] ↦ q
  | es ∷ more ↦ record { worker = take_events c now es q.worker; inner_buffer = more }
]

-- What happens to the inner consumer: a range of events is committed, a slice comes out of its
-- buffer, or its flusher ticks.
pub data Op : Type 0 where
  consumes : List Event → Op
  receives ticking : ℕ → Op

unfoldable pub step : Config → Op → Consumer → Consumer
unfolding consume receive
step c (consumes es) q = consume c es q
step c (receives now) q = receive c now q
step c (ticking now) q = record q { worker = tick c now q.worker }

unfoldable pub run : Config → List Op → Consumer → Consumer
unfolding step
run c [] q = q
run c (op ∷ ops) q = run c ops (step c op q)
