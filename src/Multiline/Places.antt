-- ===== src/Multiline/Places.antt =====
-- The places of the records in the file (pkg/source/file/multilines.go).
use loggie.Prelude.{
  ℕ, ◌+◌, ◌-◌, ◌<◌, ◌≡◌, refl, ◌∙◌, sym, ◌||◌, List, [], ◌∷◌, ◌++◌, ◌==◌, leb, length,
  length-append, arith, Bool-cases, inl, inr,
}
use loggie.Value.{State, Fields}
use loggie.Multiline.{
  MultiTask, MultiHolder, Event, Op, line, tick, new_multi_holder, flush, grow, append_content,
  append, must_flush, flush_timeout, run_holder,
}

-- The records cover the file from `a` to `b`: the first begins at `a`, each of the others where the
-- one before it ends, and each is its body and a line end.
abbrev pub Tiled : ℕ → ℕ → ℕ → List Event → Type 0
Tiled le a b [] = a ≡ b
Tiled le a b (e ∷ es) =
    (e.state.offset ≡ a)
    × (e.state.content_bytes ≡ length e.body + le)
    × (e.state.offset + e.state.content_bytes ≡ e.state.next_offset)
    × Tiled le e.state.next_offset b es

Tiled-snoc :
    (le a b : ℕ) (es : List Event) (e : Event)
    → Tiled le a b es
    → e.state.offset ≡ b
    → e.state.content_bytes ≡ length e.body + le
    → e.state.offset + e.state.content_bytes ≡ e.state.next_offset
    → Tiled le a e.state.next_offset (es ++ e ∷ [])
Tiled-snoc le a b [] e t o c n = (o ∙ sym t, c, n, refl)
Tiled-snoc le a b (x ∷ es) e t o c n =
    (t.0, t.1, t.2, Tiled-snoc le x.state.next_offset b es e t.3 o c n)

-- The records sent cover the file from `a` on, and the one that is held what is left up to `b`.
pub record Placed (le a b : ℕ) (mh : MultiHolder) : Type 0 where
  pub middle : ℕ
  pub tiled : Tiled le a middle mh.produced
  pub nothing_held : mh.current_size ≡ 0 → middle ≡ b
  pub held :
      0 < mh.current_size
      → (mh.state.offset ≡ middle)
        × (mh.state.next_offset ≡ b)
        × (middle + mh.current_size + le ≡ b)
  pub sized : length mh.content ≡ mh.current_size
  pub same_end : length mh.line_end ≡ le

flush-Placed : (le a b : ℕ) (mh : MultiHolder) → Placed le a b mh → Placed le a b (flush mh)
unfolding flush
flush-Placed le a b mh h = elim (Bool-cases (mh.current_size == 0)) [
  | inl z ↦ rw z h
  | inr z ↦
      let (o, n, s) = h.held (ground arith) in
      rw z (record {
        middle = mh.state.next_offset;
        tiled =
            Tiled-snoc le a h.middle mh.produced _ h.tiled o (omega (arith, h.sized, h.same_end))
              (omega (arith, o, n, s, h.same_end));
        nothing_held = λ _. n;
        held = λ lt. absurd (omega (arith, lt));
        sized = refl;
        same_end = h.same_end;
      })
]

flush-empty : (mh : MultiHolder) → (flush mh).current_size ≡ 0
unfolding flush
flush-empty mh = ground arith

grow-Placed :
    (le a b now : ℕ) (body : List ℕ) (s : State) (mh : MultiHolder)
    → 0 < length body
    → s.offset ≡ b
    → b + length body + le ≡ s.next_offset
    → Placed le a b mh
    → Placed le a s.next_offset (grow now body s mh)
unfolding grow
grow-Placed le a b now body s mh pos o e h = elim (Bool-cases (mh.current_size == 0)) [
  | inl z ↦
      let zero : mh.current_size ≡ 0 = ground arith in
      let m = h.nothing_held zero in
      rw z (record {
        middle = h.middle;
        tiled = h.tiled;
        nothing_held = λ y. absurd (omega (arith, y));
        held = λ _. (o ∙ sym m, refl, omega (arith, m, e));
        sized = length-append mh.content body ∙ omega (arith, h.sized, zero);
        same_end = h.same_end;
      })
  | inr z ↦
      let (at, n, w) = h.held (ground arith) in
      rw z (record {
        middle = h.middle;
        tiled = h.tiled;
        nothing_held = λ y. absurd (omega (arith, y));
        held = λ _. (at, refl, omega (arith, w, e, h.same_end));
        sized =
            length-append (mh.content ++ mh.line_end) body
            ∙ omega (arith, h.sized, length-append mh.content mh.line_end);
        same_end = h.same_end;
      })
]

append-Placed :
    (le a b now : ℕ) (e : Event) (mh : MultiHolder)
    → 0 < length e.body
    → e.state.offset ≡ b
    → b + length e.body + le ≡ e.state.next_offset
    → Placed le a b mh
    → Placed le a e.state.next_offset (append now e mh)
unfolding append append_content
append-Placed le a b now e mh pos o n h = elim (Bool-cases (must_flush e.body mh)) [
  | inl f ↦ rw f (placed (flush mh) (flush-Placed le a b mh h))
  | inr f ↦ rw f (placed mh h)
]
  where
    placed :
        (m : MultiHolder)
        → Placed le a b m
        → Placed le a e.state.next_offset (append_content now e.body e.state m)
    placed m k =
        let next = grow now e.body e.state m in
        let g = grow-Placed le a b now e.body e.state m pos o n k in
        elim (Bool-cases (
          leb m.task.config.max_lines next.current_lines
          || leb m.task.config.max_bytes next.current_size)) [
            | inl t ↦ rw t (flush-Placed le a e.state.next_offset next g)
            | inr t ↦ rw t g
          ]

-- Each line of the history begins where the one before it ends, the first at `b`.
abbrev pub Follows : ℕ → ℕ → List Op → Type 0
Follows le b [] = Unit
Follows le b (line now e ∷ ops) =
    (0 < length e.body)
    × (e.state.offset ≡ b)
    × (b + length e.body + le ≡ e.state.next_offset)
    × Follows le e.state.next_offset ops
Follows le b (tick now ∷ ops) = Follows le b ops

-- Where the last line ends.
abbrev pub end_of : ℕ → List Op → ℕ
end_of b [] = b
end_of b (line now e ∷ ops) = end_of e.state.next_offset ops
end_of b (tick now ∷ ops) = end_of b ops

run-Placed :
    (le a b : ℕ) (ops : List Op) (mh : MultiHolder)
    → Follows le b ops
    → Placed le a b mh
    → Placed le a (end_of b ops) (run_holder mh ops)
unfolding run_holder flush_timeout
run-Placed le a b [] mh f h = h
run-Placed le a b (line now e ∷ ops) mh f h = run-Placed le a e.state.next_offset ops _ f.3 (
    append-Placed le a b now e (record mh { last_header = e.header }) f.0 f.1 f.2
      (record {
        middle = h.middle;
        tiled = h.tiled;
        nothing_held = h.nothing_held;
        held = h.held;
        sized = h.sized;
        same_end = h.same_end;
      }))
run-Placed le a b (tick now ∷ ops) mh f h =
    elim (Bool-cases (leb mh.task.config.timeout (now - mh.init_time))) [
      | inl e ↦ rw e (run-Placed le a b ops (flush mh) f (flush-Placed le a b mh h))
      | inr e ↦ rw e (run-Placed le a b ops mh f h)
    ]

-- From a new holder, over lines that are not empty and follow on each other in the file, and any
-- ticks: the records sent cover the file from the first line on, each beginning where the one
-- before it ends, and the record that is held covers the rest, up to the end of the last line. So the
-- `Offset` of a record is that of its first line, its `NextOffset` that of its last line, and
-- `ContentBytes` the length of its body and a line end.
pub run_holder-Placed :
    (task : MultiTask) (line_end : List ℕ) (now : ℕ) (header : Fields) (s : State) (start : ℕ)
    (ops : List Op)
    → Follows (length line_end) start ops
    → Placed
        (length line_end)
        start
        (end_of start ops)
        (run_holder (new_multi_holder task line_end now header s) ops)
unfolding new_multi_holder
run_holder-Placed task line_end now header s start ops f =
    run-Placed (length line_end) start start ops (new_multi_holder task line_end now header s) f
      (record {
        middle = start;
        tiled = refl;
        nothing_held = λ _. refl;
        held = λ lt. absurd (omega (arith, lt));
        sized = refl;
        same_end = refl;
      })
