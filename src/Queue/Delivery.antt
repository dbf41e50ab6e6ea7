-- ===== src/Queue/Delivery.antt =====
-- The memory queue hands on every event once, though not always in order: a range that makes whole
-- batches goes past what waits in the inner buffer.
use mathlib.Core.List.{append_assoc, append-nil}
use loggie.Prelude.{
  ℕ, ◌+◌, ◌-◌, ◌<◌, ◌≡◌, refl, sym, ap, ◌∙◌, Bool, ◌&&◌, ◌||◌, List, [], ◌∷◌, ◌++◌, leb, ltb,
  if◌then◌else◌, length, concat, arith, Bool-cases, inl, inr,
}
use loggie.Queue.{
  Event, Config, Worker, flush, take_event, tick, Consumer, consume, take_events, receive, Op,
  consumes, receives, ticking, step, run, new_worker,
}
use loggie.Queue.Channel.{concat-snoc}
use loggie.Queue.Memory.{consume-Split}

-- How many of the events pass a test.
abbrev pub count : (Event → Bool) → List Event → ℕ
count p [] = 0
count p (e ∷ es) = (if p e then 1 else 0) + count p es

abbrev pub committed : List Op → List Event
committed [] = []
committed (consumes es ∷ ops) = es ++ committed ops
committed (receives now ∷ ops) = committed ops
committed (ticking now ∷ ops) = committed ops

-- Sent, held and waiting.
abbrev pub carried : Consumer → List Event
carried q = (concat q.worker.out ++ q.worker.buffer) ++ concat q.inner_buffer

count-append :
    (p : Event → Bool) (xs ys : List Event) → count p (xs ++ ys) ≡ count p xs + count p ys
count-append p [] ys = omega arith
count-append p (x ∷ xs) ys = omega (arith, count-append p xs ys)

concat-append : (xs ys : List (List Event)) → concat (xs ++ ys) ≡ concat xs ++ concat ys
concat-append [] ys = refl
concat-append (x ∷ xs) ys =
    ap (◌++◌ x) (concat-append xs ys) ∙ sym (append_assoc x (concat xs) (concat ys))

count-carried :
    (p : Event → Bool) (q : Consumer)
    → count p (carried q)
      ≡ count p (concat q.worker.out) + count p q.worker.buffer + count p (concat q.inner_buffer)
count-carried p q = omega (
  arith,
  count-append p (concat q.worker.out ++ q.worker.buffer) (concat q.inner_buffer),
  count-append p (concat q.worker.out) q.worker.buffer,
)

count-consume :
    (p : Event → Bool) (c : Config) (es : List Event) (q : Consumer)
    → 0 < c.batch_size
    → 0 < c.batch_bytes
    → count p (carried (consume c es q)) ≡ count p (carried q) + count p es
count-consume p c es q m b =
    let t = consume-Split c es q m b in
    omega (
      arith,
      count-carried p q,
      count-carried p (consume c es q),
      ap (λ v. count p (concat v)) t.out,
      ap (λ v. count p (concat v)) t.inner,
      ap (count p) t.held,
      ap (count p) t.in_order,
      ap (count p) (concat-append q.worker.out t.sent),
      ap (count p) (concat-append q.inner_buffer t.waiting),
      count-append p (concat q.worker.out) (concat t.sent),
      count-append p (concat q.inner_buffer) (concat t.waiting),
      count-append p (concat t.sent) (concat t.waiting),
    )

abbrev handed : Worker → List Event
handed w = concat w.out ++ w.buffer

handed-take_event :
    (c : Config) (now : ℕ) (e : Event) (w : Worker)
    → handed (take_event c now e w) ≡ handed w ++ e ∷ []
unfolding take_event flush
handed-take_event c now e w =
    elim (Bool-cases (leb c.batch_size (w.size + 1) || leb c.batch_bytes (w.bytes + length e))) [
      | inl f ↦ rw f (
          append-nil _
          ∙ concat-snoc w.out (w.buffer ++ e ∷ [])
          ∙ sym (append_assoc (concat w.out) w.buffer (e ∷ [])))
      | inr f ↦ rw f (sym (append_assoc (concat w.out) w.buffer (e ∷ [])))
    ]

handed-take_events :
    (c : Config) (now : ℕ) (es : List Event) (w : Worker)
    → handed (take_events c now es w) ≡ handed w ++ es
unfolding take_events
handed-take_events c now [] w = sym (append-nil _)
handed-take_events c now (e ∷ es) w =
    handed-take_events c now es (take_event c now e w)
    ∙ ap (λ v. v ++ es) (handed-take_event c now e w)
    ∙ append_assoc (handed w) (e ∷ []) es

handed-tick : (c : Config) (now : ℕ) (w : Worker) → handed (tick c now w) ≡ handed w
unfolding tick flush
handed-tick c now w =
    elim (Bool-cases
      (ltb 0 w.size && ltb c.batch_agg_max_timeout (now - w.first_event_append_time))) [
        | inr f ↦ rw f refl
        | inl f ↦ rw f (append-nil _ ∙ concat-snoc w.out w.buffer)
      ]

count-receive :
    (p : Event → Bool) (c : Config) (now : ℕ) (q : Consumer)
    → count p (carried (receive c now q)) ≡ count p (carried q)
unfolding receive
count-receive p c now q = taken q.worker q.inner_buffer
  where
    taken :
        (w : Worker) (inner : List (List Event))
        → count p (carried (receive c now (record { worker = w; inner_buffer = inner })))
          ≡ count p (carried (record { worker = w; inner_buffer = inner }))
    taken w [] = refl
    taken w (es ∷ more) = ap (count p) (
        ap (λ v. v ++ concat more) (handed-take_events c now es w)
        ∙ append_assoc (handed w) es (concat more))

count-step :
    (p : Event → Bool) (c : Config) (op : Op) (q : Consumer)
    → 0 < c.batch_size
    → 0 < c.batch_bytes
    → count p (carried (step c op q)) ≡ count p (carried q) + count p (committed (op ∷ []))
unfolding step
count-step p c (consumes es) q m b =
    count-consume p c es q m b ∙ ap (λ v. count p (carried q) + count p v) (sym (append-nil es))
count-step p c (receives now) q m b = omega (arith, count-receive p c now q)
count-step p c (ticking now) q m b =
    omega (arith, ap (λ v. count p (v ++ concat q.inner_buffer)) (handed-tick c now q.worker))

committed-cons :
    (p : Event → Bool) (op : Op) (ops : List Op)
    → count p (committed (op ∷ ops)) ≡ count p (committed (op ∷ [])) + count p (committed ops)
committed-cons p (consumes es) ops =
    omega (arith, count-append p es (committed ops), count-append p es [])
committed-cons p (receives now) ops = omega arith
committed-cons p (ticking now) ops = omega arith

run-keeps :
    (p : Event → Bool) (c : Config) (ops : List Op) (q : Consumer)
    → 0 < c.batch_size
    → 0 < c.batch_bytes
    → count p (carried (run c ops q)) ≡ count p (carried q) + count p (committed ops)
unfolding run
run-keeps p c [] q m b = omega arith
run-keeps p c (op ∷ ops) q m b =
    omega
      (arith, run-keeps p c ops (step c op q) m b, count-step p c op q m b, committed-cons p op ops)

-- However commits, slices and ticks interleave, no event is lost and none is doubled: of what was
-- committed, as many events pass any test as of what was sent, is held, and waits.
pub run-counts :
    (p : Event → Bool) (c : Config) (now : ℕ) (ops : List Op)
    → 0 < c.batch_size
    → 0 < c.batch_bytes
    → count p (carried (run c ops (record { worker = new_worker now; inner_buffer = [] })))
      ≡ count p (committed ops)
unfolding new_worker
run-counts p c now ops m b =
    omega (arith, run-keeps p c ops (record { worker = new_worker now; inner_buffer = [] }) m b)
