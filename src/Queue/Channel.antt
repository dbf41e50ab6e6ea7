-- ===== src/Queue/Channel.antt =====
-- Batching keeps every event, in order, and within the limits of a batch.
use mathlib.Core.List.{append_assoc, append-nil}
use loggie.Prelude.{
  ℕ, ◌+◌, ◌-◌, ◌<◌, ◌≤◌, ◌≡◌, ◌⊎◌, refl, sym, ap, ◌∙◌, ◌&&◌, ◌||◌, List, [], ◌∷◌, ◌++◌, leb, ltb,
  length, length-append, concat, arith, Bool-cases, inl, inr, All, All-append,
}
use loggie.Queue.{
  Event, Config, Worker, new_worker, flush, take_event, tick, Input, event, ticks, worker,
}

abbrev pub total : List Event → ℕ
total [] = 0
total (e ∷ es) = length e + total es

abbrev pub read : List Input → List Event
read [] = []
read (event now e ∷ is) = e ∷ read is
read (ticks now ∷ is) = read is

-- A batch has events, no more than `batchSize`, and less than `batchBytes` before its last one.
pub record IsBatch (c : Config) (b : List Event) : Type 0 where
  pub front : List Event
  pub final : Event
  pub parts : b ≡ front ++ final ∷ []
  pub few : length b ≤ c.batch_size
  pub light : total front < c.batch_bytes

pub record Batching (c : Config) (past : List Event) (w : Worker) : Type 0 where
  pub in_order : concat w.out ++ w.buffer ≡ past
  pub sized : w.size ≡ length w.buffer
  pub weighed : w.bytes ≡ total w.buffer
  pub few : length w.buffer < c.batch_size
  pub light : total w.buffer < c.batch_bytes
  pub held : (w.buffer ≡ []) ⊎ IsBatch c w.buffer
  pub batches : All (IsBatch c) w.out

pub total-snoc : (es : List Event) (e : Event) → total (es ++ e ∷ []) ≡ total es + length e
total-snoc [] e = omega arith
total-snoc (x ∷ es) e = omega (arith, total-snoc es e)

pub length-snoc : (es : List Event) (e : Event) → length (es ++ e ∷ []) ≡ length es + 1
length-snoc es e = length-append es (e ∷ []) ∙ refl

pub concat-snoc : (bs : List (List Event)) (b : List Event) → concat (bs ++ b ∷ []) ≡ concat bs ++ b
concat-snoc [] b = append-nil b
concat-snoc (x ∷ bs) b = ap (◌++◌ x) (concat-snoc bs b) ∙ sym (append_assoc x (concat bs) b)

-- What is taken up makes a batch with what is held.
grows-IsBatch :
    (c : Config) (past : List Event) (e : Event) (w : Worker)
    → Batching c past w
    → IsBatch c (w.buffer ++ e ∷ [])
grows-IsBatch c past e w h = record {
  front = w.buffer;
  final = e;
  parts = refl;
  few = omega (arith, h.few, length-snoc w.buffer e);
  light = h.light;
}

take_event-Batching :
    (c : Config) (past : List Event) (now : ℕ) (e : Event) (w : Worker)
    → 0 < c.batch_size
    → 0 < c.batch_bytes
    → Batching c past w
    → Batching c (past ++ e ∷ []) (take_event c now e w)
unfolding take_event flush
take_event-Batching c past now e w s b h =
    let grown =
      sym (append_assoc (concat w.out) w.buffer (e ∷ [])) ∙ ap (λ v. v ++ e ∷ []) h.in_order in
    elim (Bool-cases (leb c.batch_size (w.size + 1) || leb c.batch_bytes (w.bytes + length e))) [
      | inl f ↦ rw f (record {
        in_order = append-nil _ ∙ concat-snoc w.out (w.buffer ++ e ∷ []) ∙ grown;
        sized = refl;
        weighed = refl;
        few = s;
        light = b;
        held = inl refl;
        batches = All-append (IsBatch c) w.out _ h.batches (grows-IsBatch c past e w h, tt);
      })
      | inr f ↦ rw f (record {
        in_order = grown;
        sized = omega (arith, h.sized, length-snoc w.buffer e);
        weighed = omega (arith, h.weighed, total-snoc w.buffer e);
        few = ground (arith, f, h.sized, length-snoc w.buffer e);
        light = ground (arith, f, h.weighed, total-snoc w.buffer e);
        held = inr (grows-IsBatch c past e w h);
        batches = h.batches;
      })
    ]

tick-Batching :
    (c : Config) (past : List Event) (now : ℕ) (w : Worker)
    → 0 < c.batch_size
    → 0 < c.batch_bytes
    → Batching c past w
    → Batching c past (tick c now w)
unfolding tick flush
tick-Batching c past now w s b h =
    elim (Bool-cases
      (ltb 0 w.size && ltb c.batch_agg_max_timeout (now - w.first_event_append_time))) [
        | inr f ↦ rw f h
        | inl f ↦ elim h.held [
          | inl z ↦ absurd (ground (arith, f, h.sized, ap length z))
          | inr k ↦ rw f (record {
            in_order = append-nil _ ∙ concat-snoc w.out w.buffer ∙ h.in_order;
            sized = refl;
            weighed = refl;
            few = s;
            light = b;
            held = inl refl;
            batches = All-append (IsBatch c) w.out _ h.batches (k, tt);
          })
        ]
      ]

worker-keeps :
    (c : Config) (is : List Input) (past : List Event) (w : Worker)
    → 0 < c.batch_size
    → 0 < c.batch_bytes
    → Batching c past w
    → Batching c (past ++ read is) (worker c is w)
unfolding worker
worker-keeps c [] past w s b h = rw (append-nil past) h
worker-keeps c (event now e ∷ is) past w s b h = rw (← append_assoc past (e ∷ []) (read is)) (
    worker-keeps c is (past ++ e ∷ []) (take_event c now e w) s b
      (take_event-Batching c past now e w s b h))
worker-keeps c (ticks now ∷ is) past w s b h =
    worker-keeps c is past (tick c now w) s b (tick-Batching c past now w s b h)

-- Whatever the worker receives, and whenever it ticks: the batches it has sent and what it holds
-- are the events it read, in order, none lost and none twice. No batch is empty, has more than
-- `batchSize` events, or has `batchBytes` bytes before its last event; and it holds less than
-- `batchSize` events and `batchBytes` bytes.
pub worker-Batching :
    (c : Config) (now : ℕ) (is : List Input)
    → 0 < c.batch_size
    → 0 < c.batch_bytes
    → Batching c (read is) (worker c is (new_worker now))
unfolding new_worker
worker-Batching c now is s b = worker-keeps c is [] (new_worker now) s b (record {
  in_order = refl;
  sized = refl;
  weighed = refl;
  few = s;
  light = b;
  held = inl refl;
  batches = tt;
})
