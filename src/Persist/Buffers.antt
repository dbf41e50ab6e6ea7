-- ===== src/Persist/Buffers.antt =====
-- The buffers of `DbHandler` (pkg/util/persistence/persistence.go).
use mathlib.Core.List.{append_assoc, append-nil}
use loggie.Prelude.{
  ℕ, ◌<◌, ◌≡◌, refl, sym, ap, ◌∙◌, if◌then◌else◌, List, [], ◌∷◌, ◌++◌, ltb, leb, length, arith,
  Bool-cases, inl, inr,
}
use loggie.Value.{State}
use loggie.Persist.{DbOpt, DbEngine}
use loggie.Persist.Handler.{
  Texts, CompressStatPair, DbConfig, opt_buffer_size, DbHandler, Input, state, opt, flush_ticks,
  clean_ticks, write, process_opt, clean_data, flush, opt_flush, step,
}
use loggie.Persist.Acts.{
  states_in, later_in, urgent_in, Act, writes, does_late, does_now, cleans, states_by, later_by,
  urgent_by, all_by, all_by-snoc, all_by-moves,
}

module _ (db : DbEngine) (texts : Texts) (order : List CompressStatPair → List CompressStatPair)
    (config : DbConfig) (d : db.Db) where
  abbrev pub apply : Act → db.Db → db.Db
  apply (writes ss) = write db texts order ss
  apply (does_late now os) = process_opt db texts now os
  apply (does_now now o) = process_opt db texts now (o ∷ [])
  apply (cleans now) = clean_data db texts config now

  -- The newest act is the last of the list.
  abbrev pub replay : List Act → db.Db → db.Db
  replay [] x = x
  replay (a ∷ acts) x = replay acts (apply a x)

  replay-snoc :
      (acts : List Act) (a : Act) (x : db.Db) → replay (acts ++ a ∷ []) x ≡ apply a (replay acts x)
  replay-snoc [] a x = refl
  replay-snoc (b ∷ acts) a x = replay-snoc acts a (apply b x)

  -- The database is what the acts make of `d`. They wrote the states that came but for those in the
  -- buffer, and did the operations that came but for those in the other buffer.
  pub record Had (ss : List State) (os us : List DbOpt) (h : DbHandler db) : Type 0 where
    pub acts : List Act
    pub database : h.d ≡ replay acts d
    pub states : all_by states_by acts ++ h.buffer ≡ ss
    pub later : all_by later_by acts ++ h.opt_buffer ≡ os
    pub urgent : all_by urgent_by acts ≡ us

  pub record Buffered (ss : List State) (os us : List DbOpt) (h : DbHandler db) : Type 0 where
    pub had : Had ss os us h
    pub bounded : length h.buffer < config.buffer_size
    pub opt_bounded : length h.opt_buffer < opt_buffer_size

  did-Had :
      (a : Act) (ss : List State) (os us : List DbOpt) (h next : DbHandler db)
      → next.d ≡ apply a h.d
      → states_by a ++ next.buffer ≡ h.buffer
      → later_by a ++ next.opt_buffer ≡ h.opt_buffer
      → Had ss os us h
      → Had ss os (us ++ urgent_by a) next
  did-Had a ss os us h next e s l v = record {
    acts = v.acts ++ a ∷ [];
    database = e ∙ ap (apply a) v.database ∙ sym (replay-snoc v.acts a d);
    states = all_by-moves states_by v.acts a h.buffer next.buffer ss s v.states;
    later = all_by-moves later_by v.acts a h.opt_buffer next.opt_buffer os l v.later;
    urgent = all_by-snoc urgent_by v.acts a ∙ ap (λ v. v ++ urgent_by a) v.urgent;
  }

  -- An act that is none of the operations to be done at once.
  late-Had :
      (a : Act) (ss : List State) (os us : List DbOpt) (h next : DbHandler db)
      → urgent_by a ≡ []
      → next.d ≡ apply a h.d
      → states_by a ++ next.buffer ≡ h.buffer
      → later_by a ++ next.opt_buffer ≡ h.opt_buffer
      → Had ss os us h
      → Had ss os us next
  late-Had a ss os us h next n e s l v =
      let r = did-Had a ss os us h next e s l v in
      record {
        acts = r.acts;
        database = r.database;
        states = r.states;
        later = r.later;
        urgent = r.urgent ∙ ap (◌++◌ us) n ∙ append-nil us;
      }

  came-Had :
      (s : State) (ss : List State) (os us : List DbOpt) (h : DbHandler db)
      → Had ss os us h
      → Had (ss ++ s ∷ []) os us (record h { buffer = h.buffer ++ s ∷ [] })
  came-Had s ss os us h v = record {
    acts = v.acts;
    database = v.database;
    states =
        sym (append_assoc (all_by states_by v.acts) h.buffer (s ∷ []))
        ∙ ap (λ v. v ++ s ∷ []) v.states;
    later = v.later;
    urgent = v.urgent;
  }

  asked-Had :
      (o : DbOpt) (ss : List State) (os us : List DbOpt) (h : DbHandler db)
      → Had ss os us h
      → Had ss (os ++ o ∷ []) us (record h { opt_buffer = h.opt_buffer ++ o ∷ [] })
  asked-Had o ss os us h v = record {
    acts = v.acts;
    database = v.database;
    states = v.states;
    later =
        sym (append_assoc (all_by later_by v.acts) h.opt_buffer (o ∷ []))
        ∙ ap (λ v. v ++ o ∷ []) v.later;
    urgent = v.urgent;
  }

  flush-Buffered :
      (ss : List State) (os us : List DbOpt) (h : DbHandler db)
      → 0 < config.buffer_size
      → length h.opt_buffer < opt_buffer_size
      → Had ss os us h
      → Buffered ss os us (flush db texts order h)
  unfolding flush
  flush-Buffered ss os us h z l v = record {
    had = late-Had (writes h.buffer) ss os us h _ refl refl (append-nil h.buffer) refl v;
    bounded = z;
    opt_bounded = l;
  }

  opt_flush-Buffered :
      (now : ℕ) (ss : List State) (os us : List DbOpt) (h : DbHandler db)
      → length h.buffer < config.buffer_size
      → Had ss os us h
      → Buffered ss os us (opt_flush db texts now h)
  unfolding opt_flush
  opt_flush-Buffered now ss os us h l v = record {
    had =
        late-Had (does_late now h.opt_buffer) ss os us h _ refl refl refl (append-nil h.opt_buffer)
          v;
    bounded = l;
    opt_bounded = omega arith;
  }

  ticked-Buffered :
      (now : ℕ) (ss : List State) (os us : List DbOpt) (h : DbHandler db)
      → Buffered ss os us h
      → Buffered ss os us (if ltb 0 (length h.opt_buffer) then opt_flush db texts now h else h)
  ticked-Buffered now ss os us h b = elim (Bool-cases (ltb 0 (length h.opt_buffer))) [
    | inl e ↦ simp e (opt_flush-Buffered now ss os us h b.bounded b.had)
    | inr e ↦ simp e b
  ]

  pub step-Buffered :
      (now : ℕ) (i : Input) (ss : List State) (os us : List DbOpt) (h : DbHandler db)
      → 0 < config.buffer_size
      → Buffered ss os us h
      → Buffered
          (ss ++ states_in ((now, i) ∷ []))
          (os ++ later_in ((now, i) ∷ []))
          (us ++ urgent_in ((now, i) ∷ []))
          (step db texts order config now i h)
  unfolding states_in later_in urgent_in step
  step-Buffered now (state s) ss os us h z b =
      let more = record h { buffer = h.buffer ++ s ∷ [] } in
      let v = came-Had s ss os us h b.had in
      rw (append-nil os, append-nil us)
        (elim (Bool-cases (leb config.buffer_size (length (h.buffer ++ s ∷ [])))) [
          | inl e ↦ simp (step, e) (flush-Buffered _ os us more z b.opt_bounded v)
          | inr e ↦
              simp (step, e)
                (record { had = v; bounded = ground (arith, e); opt_bounded = b.opt_bounded })
        ])
  step-Buffered now (opt o) ss os us h z b =
      let more = record h { opt_buffer = h.opt_buffer ++ o ∷ [] } in
      let v = asked-Had o ss os us h b.had in
      elim (Bool-cases o.immediately) [
        | inl c ↦
            simp (step, later_in, urgent_in, c, append-nil ss, append-nil os)
              (record {
                had = did-Had (does_now now o) ss os us h _ refl refl refl b.had;
                bounded = b.bounded;
                opt_bounded = b.opt_bounded;
              })
        | inr c ↦ elim (Bool-cases (leb opt_buffer_size (length (h.opt_buffer ++ o ∷ [])))) [
          | inl e ↦
              simp (step, later_in, urgent_in, c, e, append-nil ss, append-nil us)
                (opt_flush-Buffered now ss _ us more b.bounded v)
          | inr e ↦
              simp (step, later_in, urgent_in, c, e, append-nil ss, append-nil us)
                (record { had = v; bounded = b.bounded; opt_bounded = ground (arith, e) })
        ]
      ]
  step-Buffered now flush_ticks ss os us h z b =
      let first = if ltb 0 (length h.buffer) then flush db texts order h else h in
      let flushed : Buffered ss os us first = elim (Bool-cases (ltb 0 (length h.buffer))) [
        | inl e ↦ simp e (flush-Buffered ss os us h z b.opt_bounded b.had)
        | inr e ↦ simp e b
      ] in
      rw (append-nil ss, append-nil os, append-nil us) (ticked-Buffered now ss os us first flushed)
  step-Buffered now clean_ticks ss os us h z b =
      rw (append-nil ss, append-nil os, append-nil us)
        (record {
          had = late-Had (cleans now) ss os us h _ refl refl refl refl b.had;
          bounded = b.bounded;
          opt_bounded = b.opt_bounded;
        })
