-- ===== src/Multiline/Isolation.antt =====
-- Files do not disturb each other in the processor.
use loggie.Prelude.{
  lookup-insert_hit, lookup-insert_miss, ℕ, ◌≡◌, refl, sym, ap, ◌∙◌, Bool, true, false, Option,
  some, List, [], ◌∷◌, String, str_eq, eq_iff, if◌then◌else◌, Dict, lookup, insert, All, arith,
  Bool-cases, Option-cases, inl, inr,
}
use loggie.Multiline.{
  MultiTask, MultiHolder, Event, Op, line, tick, step, flush_timeout, run_holder,
}
use loggie.Multiline.Processor.{
  MultiProcessor, Message, starts, stops, events, ticks, maintenance, start_task, flush_all,
  iterate_flush, process_event, first_task, handle, run,
}

-- What the messages mean for the holder under `k`.
abbrev pub ops_of : String → List Message → List Op
ops_of k [] = []
ops_of k (events now e ∷ ms) =
    let rest = ops_of k ms in if str_eq e.state.watch_uid k then line now e ∷ rest else rest
ops_of k (ticks now ∷ ms) = tick now ∷ ops_of k ms
ops_of k (starts task ∷ ms) = ops_of k ms
ops_of k (stops task ∷ ms) = ops_of k ms
ops_of k (maintenance ∷ ms) = ops_of k ms

-- No task stops and no holder is cleaned up.
abbrev pub Quiet : Message → Type 0
Quiet (stops task) = (true ≡ false)
Quiet maintenance = (true ≡ false)
Quiet _ = Unit

pick : (b c : Bool) (x y : Option MultiHolder) → b ≡ c → (if b then x else y) ≡ (if c then x else y)
pick b c x y e = rw e refl

lookup-flush_all :
    (k : String) (now : ℕ) (d : Dict MultiHolder) (mh : MultiHolder)
    → lookup k d ≡ some mh
    → lookup k (flush_all now d) ≡ some (flush_timeout now mh)
unfolding lookup flush_all
lookup-flush_all k now [] mh h = absurd (ground (arith, h))
lookup-flush_all k now ((j, x) ∷ d) mh h = elim (Bool-cases (str_eq j k)) [
  | inl e ↦
      let same : some x ≡ some mh = sym (pick (str_eq j k) true (some x) (lookup k d) e) ∙ h in
      pick (str_eq j k) true _ _ e ∙ ap some (ap (flush_timeout now) (cc same))
  | inr e ↦
      pick (str_eq j k) false _ _ e
      ∙ lookup-flush_all k now d mh (sym (pick (str_eq j k) false (some x) (lookup k d) e) ∙ h)
]

inserted :
    (k j : String) (x : MultiHolder) (d : Dict MultiHolder) (r : Option MultiHolder)
    → lookup k d ≡ r
    → lookup k (insert j x d) ≡ (if str_eq j k then some x else r)
inserted k j x d r h = elim (Bool-cases (str_eq j k)) [
  | inl e ↦ rw e (lookup-insert_hit j k d x e)
  | inr e ↦ rw e (lookup-insert_miss j k d x e ∙ h)
]

start-holders :
    (task : MultiTask) (mp : MultiProcessor) → (start_task task mp).holder_map ≡ mp.holder_map
unfolding start_task
start-holders task mp = elim (Option-cases (lookup task.key mp.tasks)) [
  | inl e ↦ simp (start_task, e) refl
  | inr (x, e) ↦ simp (start_task, e) refl
]

module _ (order : Dict MultiTask → Dict MultiTask) (line_end_of : String → String → List ℕ) where
  -- An event of a file that has a holder goes to it.
  own_event :
      (k : String) (now : ℕ) (e : Event) (mp : MultiProcessor) (mh : MultiHolder)
      → e.state.watch_uid ≡ k
      → lookup k mp.holder_map ≡ some mh
      → lookup k (process_event order line_end_of now e mp).holder_map ≡ some (step mh (line now e))
  unfolding process_event
  own_event k now e mp mh u h =
      let f : lookup e.state.watch_uid mp.holder_map ≡ some mh =
        ap (λ v. lookup v mp.holder_map) u ∙ h in
      simp (process_event, f)
        (inserted k e.state.watch_uid (step mh (line now e)) mp.holder_map (some mh) h
          ∙ pick _ true _ _ ((eq_iff e.state.watch_uid k).1 u))

  -- An event of another file leaves the holder alone.
  other_event :
      (k : String) (now : ℕ) (e : Event) (mp : MultiProcessor) (mh : MultiHolder)
      → str_eq e.state.watch_uid k ≡ false
      → lookup k mp.holder_map ≡ some mh
      → lookup k (process_event order line_end_of now e mp).holder_map ≡ some mh
  unfolding process_event
  other_event k now e mp mh u h = elim (Option-cases (lookup e.state.watch_uid mp.holder_map)) [
    | inr (x, f) ↦
        simp (process_event, f)
          (inserted k e.state.watch_uid (step x (line now e)) mp.holder_map (some mh) h
            ∙ pick _ false _ _ u)
    | inl f ↦ elim (Option-cases (first_task e.state (order mp.tasks))) [
      | inl g ↦ simp (process_event, f, g) h
      | inr (t, g) ↦
          simp (process_event, f, g)
            (inserted k e.state.watch_uid _ mp.holder_map (some mh) h ∙ pick _ false _ _ u)
    ]
  ]

  -- However the events of many files and the ticks of the flusher come in, and whichever tasks start
  -- meanwhile, the holder of a file goes through exactly its own lines and the ticks, as it would
  -- alone, as long as no task stops and no holder is cleaned up.
  pub run-holder :
      (k : String) (ms : List Message) (mp : MultiProcessor) (mh : MultiHolder)
      → All Quiet ms
      → lookup k mp.holder_map ≡ some mh
      → lookup k (run order line_end_of ms mp).holder_map ≡ some (run_holder mh (ops_of k ms))
  unfolding run handle run_holder iterate_flush start_task step
  run-holder k [] mp mh q h = h
  run-holder k (starts task ∷ ms) mp mh q h =
      run-holder k ms (start_task task mp) mh q.1 (ap (lookup k) (start-holders task mp) ∙ h)
  run-holder k (stops task ∷ ms) mp mh q h = absurd (ground (arith, q.0))
  run-holder k (maintenance ∷ ms) mp mh q h = absurd (ground (arith, q.0))
  run-holder k (ticks now ∷ ms) mp mh q h =
      run-holder k ms (iterate_flush now mp) (flush_timeout now mh) q.1
        (lookup-flush_all k now mp.holder_map mh h)
  run-holder k (events now e ∷ ms) mp mh q h = elim (Bool-cases (str_eq e.state.watch_uid k)) [
    | inl u ↦ rw u (
        run-holder k ms (process_event order line_end_of now e mp) (step mh (line now e)) q.1
          (own_event k now e mp mh ((eq_iff e.state.watch_uid k).0 u) h))
    | inr u ↦ rw u (
        run-holder k ms (process_event order line_end_of now e mp) mh q.1
          (other_event k now e mp mh u h))
  ]
