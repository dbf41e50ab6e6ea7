-- ===== src/Queue/Memory.antt =====
-- A committed range of the memory queue becomes batches, and a slice that waits.
use mathlib.Core.List.{append_assoc, append-nil}
use loggie.Prelude.{
  ◌+◌, ◌<◌, ◌≡◌, refl, sym, ap, ◌∙◌, ◌||◌, List, [], ◌∷◌, ◌++◌, leb, ltb, length, concat, arith,
  Bool-cases, inl, inr, All, All-append,
}
use loggie.Queue.{Event, Config, Consumer, Slice, slice_event, slice_all, consume}
use loggie.Queue.Channel.{IsBatch, total, total-snoc, length-snoc, concat-snoc}

no_events : (es : List Event) → length es ≡ 0 → es ≡ []
no_events [] h = refl
no_events (e ∷ es) h = absurd (omega (arith, h))

-- The slice under way: what was cut so far.
record Slicing (c : Config) (past : List Event) (s : Slice) : Type 0 where
  in_order : concat s.sent ++ s.es ≡ past
  counted : s.l ≡ length s.es
  weighed : s.bytes ≡ total s.es
  few : length s.es < c.batch_size
  light : total s.es < c.batch_bytes
  batches : All (IsBatch c) s.sent

slice_event-Slicing :
    (c : Config) (past : List Event) (e : Event) (s : Slice)
    → 0 < c.batch_size
    → 0 < c.batch_bytes
    → Slicing c past s
    → Slicing c (past ++ e ∷ []) (slice_event c e s)
unfolding slice_event
slice_event-Slicing c past e s m b h =
    let grown =
      sym (append_assoc (concat s.sent) s.es (e ∷ [])) ∙ ap (λ v. v ++ e ∷ []) h.in_order in
    let batch : IsBatch c (s.es ++ e ∷ []) = record {
      front = s.es;
      final = e;
      parts = refl;
      few = omega (arith, h.few, length-snoc s.es e);
      light = h.light;
    } in
    elim (Bool-cases (leb c.batch_size (s.l + 1) || leb c.batch_bytes (s.bytes + length e))) [
      | inl f ↦ rw f (record {
        in_order = append-nil _ ∙ concat-snoc s.sent (s.es ++ e ∷ []) ∙ grown;
        counted = refl;
        weighed = refl;
        few = m;
        light = b;
        batches = All-append (IsBatch c) s.sent _ h.batches (batch, tt);
      })
      | inr f ↦ rw f (record {
        in_order = grown;
        counted = omega (arith, h.counted, length-snoc s.es e);
        weighed = omega (arith, h.weighed, total-snoc s.es e);
        few = ground (arith, f, h.counted, length-snoc s.es e);
        light = ground (arith, f, h.weighed, total-snoc s.es e);
        batches = h.batches;
      })
    ]

slice_all-Slicing :
    (c : Config) (es past : List Event) (s : Slice)
    → 0 < c.batch_size
    → 0 < c.batch_bytes
    → Slicing c past s
    → Slicing c (past ++ es) (slice_all c es s)
unfolding slice_all
slice_all-Slicing c [] past s m b h = rw (append-nil past) h
slice_all-Slicing c (e ∷ es) past s m b h = rw (← append_assoc past (e ∷ []) es) (
    slice_all-Slicing c es (past ++ e ∷ []) (slice_event c e s) m b
      (slice_event-Slicing c past e s m b h))

-- What a committed range of events becomes: batches that are sent, and slices that wait.
pub record Split (c : Config) (es : List Event) (q r : Consumer) : Type 0 where
  pub sent : List (List Event)
  pub waiting : List (List Event)
  pub out : r.worker.out ≡ q.worker.out ++ sent
  pub inner : r.inner_buffer ≡ q.inner_buffer ++ waiting
  pub held : r.worker.buffer ≡ q.worker.buffer
  pub in_order : concat sent ++ concat waiting ≡ es
  pub batches : All (IsBatch c) sent
  pub few : length (concat waiting) < c.batch_size

-- `Consume` cuts a range into batches within the limits, in order, and leaves less than
-- `batchSize` events to the inner buffer; the inner consumer's own buffer is not touched.
pub consume-Split :
    (c : Config) (es : List Event) (q : Consumer)
    → 0 < c.batch_size
    → 0 < c.batch_bytes
    → Split c es q (consume c es q)
unfolding consume
consume-Split c es q m b =
    let start : Slice = record { es = []; l = 0; bytes = 0; sent = [] } in
    let h = slice_all-Slicing c es [] start m b (record {
      in_order = refl;
      counted = refl;
      weighed = refl;
      few = m;
      light = b;
      batches = tt;
    }) in
    let s = slice_all c es start in
    elim (Bool-cases (ltb (length es) c.batch_size)) [
      | inl f ↦ rw f (record {
        sent = [];
        waiting = es ∷ [];
        out = sym (append-nil _);
        inner = refl;
        held = refl;
        in_order = append-nil es;
        batches = tt;
        few = rw (append-nil es) (ground (arith, f));
      })
      | inr f ↦ elim (Bool-cases (ltb 0 s.l)) [
        | inl z ↦
            rw (f, z)
              (record {
                sent = s.sent;
                waiting = s.es ∷ [];
                out = refl;
                inner = refl;
                held = refl;
                in_order = ap (◌++◌ (concat s.sent)) (append-nil s.es) ∙ h.in_order;
                batches = h.batches;
                few = rw (append-nil s.es) h.few;
              })
        | inr z ↦
            rw (f, z)
              (record {
                sent = s.sent;
                waiting = [];
                out = refl;
                inner = sym (append-nil _);
                held = refl;
                in_order =
                    ap (◌++◌ (concat s.sent)) (sym (no_events s.es (ground (arith, z, h.counted))))
                    ∙ h.in_order;
                batches = h.batches;
                few = m;
              })
      ]
    ]
