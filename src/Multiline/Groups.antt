-- ===== src/Multiline/Groups.antt =====
-- No line is lost, doubled, reordered or cut: the records are the lines, in groups.
use mathlib.Core.List.{append_assoc, append-nil}
use loggie.Prelude.{
  ℕ, ◌-◌, ◌<◌, ◌≡◌, ◌⊎◌, refl, sym, ap, ap₂, ◌∙◌, Bool, true, false, ◌||◌, List, [], ◌∷◌, ◌++◌,
  ◌==◌, leb, length, length-append, concat, arith, Bool-cases, inl, inr, All, All-append,
}
use loggie.Value.{State, Fields}
use loggie.Multiline.{
  MultiHolder, MultiTask, Event, Op, line, tick, run_holder, new_multi_holder, flush_timeout, flush,
  grow, append_content, append, must_flush,
}
use loggie.Multiline.Joining.{
  join, joins, Continues, Holds, joins-snoc, bodies-append, concat-snoc, empty_group, join-snoc_pos,
  Continues-snoc,
}

module _ (sep : List ℕ) (m : List ℕ → Bool) where
  no_match :
      (body : List ℕ) (mh : MultiHolder)
      → mh.task.matcher ≡ m
      → must_flush body mh ≡ false
      → m body ≡ false
  unfolding must_flush
  no_match body mh e f = ap (λ k. k body) (sym e) ∙ ground arith

  flush-Holds :
      (read : List (List ℕ)) (mh : MultiHolder) → Holds sep m read mh → Holds sep m read (flush mh)
  unfolding flush
  flush-Holds read mh h = elim (Bool-cases (mh.current_size == 0)) [
    | inl z ↦ rw z h
    | inr z ↦ rw z (record {
      sent = h.sent ++ h.open_group ∷ [];
      open_group = [];
      same_end = h.same_end;
      same_matcher = h.same_matcher;
      sends =
          bodies-append mh.produced _
          ∙ ap (λ v. v ++ mh.content ∷ []) h.sends
          ∙ ap (λ c. joins sep h.sent ++ c ∷ []) h.holds
          ∙ sym (joins-snoc sep h.sent h.open_group);
      holds = refl;
      sized = refl;
      filled = tt;
      in_order =
          append-nil (concat (h.sent ++ h.open_group ∷ []))
          ∙ concat-snoc h.sent h.open_group
          ∙ h.in_order;
      continues = (
        All-append (Continues m) h.sent (h.open_group ∷ []) h.continues.0 (h.continues.1, tt),
        tt,
      );
    })
  ]

  size_zero : (mh : MultiHolder) → (mh.current_size == 0) ≡ true → mh.current_size ≡ 0
  size_zero mh z = ground arith

  size_pos : (mh : MultiHolder) → (mh.current_size == 0) ≡ false → 0 < mh.current_size
  size_pos mh z = ground arith

  goes_on :
      (mh : MultiHolder) (body : List ℕ)
      → (mh.current_size == 0) ≡ false
      → (mh.current_size ≡ 0) ⊎ (m body ≡ false)
      → m body ≡ false
  goes_on mh body z (inl e) = ground arith
  goes_on mh body z (inr e) = e

  flush-empty : (mh : MultiHolder) → (flush mh).current_size ≡ 0
  unfolding flush
  flush-empty mh = ground arith

  grow-Holds :
      (read : List (List ℕ)) (now : ℕ) (body : List ℕ) (s : State) (mh : MultiHolder)
      → 0 < length body
      → (mh.current_size ≡ 0) ⊎ (m body ≡ false)
      → Holds sep m read mh
      → Holds sep m (read ++ body ∷ []) (grow now body s mh)
  unfolding grow
  grow-Holds read now body s mh pos start h = elim (Bool-cases (mh.current_size == 0)) [
    | inl z ↦
        let g : h.open_group ≡ [] =
          empty_group sep h.open_group h.filled
            (omega (arith, ap length h.holds, h.sized, size_zero mh z)) in
        rw z (record {
          sent = h.sent;
          open_group = body ∷ [];
          same_end = h.same_end;
          same_matcher = h.same_matcher;
          sends = h.sends;
          holds = ap (λ v. v ++ body) (h.holds ∙ ap (join sep) g);
          sized = omega (arith, length-append {0} mh.content body, h.sized, size_zero mh z);
          filled = (pos, tt);
          in_order =
              ap (λ v. v ++ body ∷ [])
                (sym (append-nil (concat h.sent)) ∙ ap (◌++◌ (concat h.sent)) (sym g) ∙ h.in_order);
          continues = (h.continues.0, tt);
        })
    | inr z ↦
        let bound : 0 < length (join sep h.open_group) =
          omega (arith, ap length h.holds, h.sized, size_pos mh z) in
        rw z (record {
          sent = h.sent;
          open_group = h.open_group ++ body ∷ [];
          same_end = h.same_end;
          same_matcher = h.same_matcher;
          sends = h.sends;
          holds =
              ap₂ (λ c e. (c ++ e) ++ body) h.holds h.same_end
              ∙ sym (join-snoc_pos sep body h.open_group bound);
          sized = omega (
            arith,
            length-append {0} (mh.content ++ mh.line_end) body,
            length-append {0} mh.content mh.line_end,
            h.sized,
          );
          filled = All-append (λ l. 0 < length l) h.open_group (body ∷ []) h.filled (pos, tt);
          in_order =
              sym (append_assoc (concat h.sent) h.open_group (body ∷ []))
              ∙ ap (λ v. v ++ body ∷ []) h.in_order;
          continues = (
            h.continues.0,
            Continues-snoc m body h.open_group (goes_on mh body z start) h.continues.1,
          );
        })
  ]

  append_content-Holds :
      (read : List (List ℕ)) (now : ℕ) (body : List ℕ) (s : State) (mh : MultiHolder)
      → 0 < length body
      → (mh.current_size ≡ 0) ⊎ (m body ≡ false)
      → Holds sep m read mh
      → Holds sep m (read ++ body ∷ []) (append_content now body s mh)
  unfolding append_content
  append_content-Holds read now body s mh pos start h =
      let next = grow now body s mh in
      let g = grow-Holds read now body s mh pos start h in
      elim (Bool-cases (
        leb mh.task.config.max_lines next.current_lines
        || leb mh.task.config.max_bytes next.current_size)) [
          | inl e ↦ rw e (flush-Holds (read ++ body ∷ []) next g)
          | inr e ↦ rw e g
        ]

  append-Holds :
      (read : List (List ℕ)) (now : ℕ) (e : Event) (mh : MultiHolder)
      → 0 < length e.body
      → Holds sep m read mh
      → Holds sep m (read ++ e.body ∷ []) (append now e mh)
  unfolding append
  append-Holds read now e mh pos h = elim (Bool-cases (must_flush e.body mh)) [
    | inl f ↦ rw f (
        append_content-Holds read now e.body e.state (flush mh) pos (inl (flush-empty mh))
          (flush-Holds read mh h))
    | inr f ↦ rw f (
        append_content-Holds read now e.body e.state mh pos
          (inr (no_match e.body mh h.same_matcher f)) h)
  ]

  header-Holds :
      (read : List (List ℕ)) (mh : MultiHolder) (f : Fields)
      → Holds sep m read mh
      → Holds sep m read (record mh { last_header = f })
  header-Holds read mh f h = record {
    sent = h.sent;
    open_group = h.open_group;
    same_end = h.same_end;
    same_matcher = h.same_matcher;
    sends = h.sends;
    holds = h.holds;
    sized = h.sized;
    filled = h.filled;
    in_order = h.in_order;
    continues = h.continues;
  }

  tick-Holds :
      (read : List (List ℕ)) (now : ℕ) (mh : MultiHolder)
      → Holds sep m read mh
      → Holds sep m read (flush_timeout now mh)
  unfolding flush_timeout
  tick-Holds read now mh h = elim (Bool-cases (leb mh.task.config.timeout (now - mh.init_time))) [
    | inl e ↦ rw e (flush-Holds read mh h)
    | inr e ↦ rw e h
  ]

-- The lines of a history, in order.
abbrev pub lines_of : List Op → List (List ℕ)
lines_of [] = []
lines_of (line now e ∷ ops) = e.body ∷ lines_of ops
lines_of (tick now ∷ ops) = lines_of ops

abbrev pub Filled : List Op → Type 0
Filled ops = All (λ l. 0 < length l) (lines_of ops)

run-Holds :
    (sep : List ℕ) (m : List ℕ → Bool) (ops : List Op) (read : List (List ℕ)) (mh : MultiHolder)
    → Filled ops
    → Holds sep m read mh
    → Holds sep m (read ++ lines_of ops) (run_holder mh ops)
unfolding run_holder
run-Holds sep m [] read mh f h = rw (append-nil read) h
run-Holds sep m (line now e ∷ ops) read mh f h =
    rw (← append_assoc read (e.body ∷ []) (lines_of ops)) (
      run-Holds sep m ops (read ++ e.body ∷ [])
        (append now e (record mh { last_header = e.header })) f.1
        (append-Holds sep m read now e (record mh { last_header = e.header }) f.0
          (header-Holds sep m read mh e.header h)))
run-Holds sep m (tick now ∷ ops) read mh f h =
    run-Holds sep m ops read (flush_timeout now mh) f (tick-Holds sep m read now mh h)

-- From a new holder, over any lines that are not empty and any ticks: the bodies sent and the
-- content held are the lines in groups, joined by the line end, and the groups in order are
-- exactly the lines read. In each group only the first line may match the start pattern.
pub run_holder-Holds :
    (task : MultiTask) (line_end : List ℕ) (now : ℕ) (header : Fields) (s : State) (ops : List Op)
    → Filled ops
    → Holds line_end task.matcher
        (lines_of ops)
        (run_holder (new_multi_holder task line_end now header s) ops)
unfolding new_multi_holder
run_holder-Holds task line_end now header s ops f =
    run-Holds line_end task.matcher ops [] (new_multi_holder task line_end now header s) f (record {
      sent = [];
      open_group = [];
      same_end = refl;
      same_matcher = refl;
      sends = refl;
      holds = refl;
      sized = refl;
      filled = tt;
      in_order = refl;
      continues = (tt, tt);
    })
