-- ===== src/Reload/Starting.antt =====
-- What becomes of the pipelines behind one that does not start (pkg/control/controller.go).
use mathlib.Core.Option.{some-ne-none}
use loggie.Prelude.{
  sym, subst, eq_iff, lookup-insert_miss, ◌≡◌, refl, ap₂, ◌∙◌, Bool, true, false, none, some, List,
  [], ◌∷◌, ◌++◌, String, str_eq, Dict, lookup, lookup-delete, Bool-cases, inl, inr,
}
use loggie.Reload.{
  Config, Pipeline, Controller, start_each, start_pipelines, stop_each, stop_pipelines,
  retry_not_running, pipe_index, diff_each, diff_config, values, reload,
}
use loggie.Reload.Names.{config_of, Unique, or_else, config_of-append, lookup-index}
use loggie.Reload.Keyed.{Named-index}
use loggie.Reload.Diffing.{started, diff_each-Diffs}

module _ (C : Type 0) where
  start_each-none :
      (n : String) (starts : Config C → Bool) (ps : List (Config C)) (runner : Dict (Pipeline C))
      → config_of C n ps ≡ none
      → lookup n runner ≡ none
      → lookup n (start_each C starts ps runner) ≡ none
  unfolding config_of start_each
  start_each-none n starts [] runner h e = e
  start_each-none n starts (p ∷ ps) runner h e = elim (Bool-cases (str_eq p.name n)) [
    | inl f ↦ absurd (some-ne-none p (simp f at h))
    | inr f ↦
        let on = lookup-insert_miss p.name n runner (record { config = p; running = true }) f ∙ e in
        elim (Bool-cases (starts p)) [
          | inl g ↦ simp g (start_each-none n starts ps _ (simp f at h) on)
          | inr g ↦
              simp g
                (lookup-insert_miss p.name n runner (record { config = p; running = false }) f ∙ e)
        ]
  ]

  stop_each-none :
      (n : String) (ps : List (Config C)) (runner : Dict (Pipeline C))
      → lookup n runner ≡ none
      → lookup n (stop_each C ps runner) ≡ none
  unfolding stop_each
  stop_each-none n [] runner e = e
  stop_each-none n (p ∷ ps) runner e = stop_each-none n ps _ (
      lookup-delete p.name n runner
      ∙ (elim (Bool-cases (str_eq p.name n)) [ inl f ↦ simp f refl | inr f ↦ simp f e ]))

  retry-none :
      (n : String) (starts : Config C → Bool) (runner : Dict (Pipeline C))
      → lookup n runner ≡ none
      → lookup n (retry_not_running C starts runner) ≡ none
  unfolding retry_not_running lookup
  retry-none n starts [] e = e
  retry-none n starts ((k, p) ∷ runner) e = elim (Bool-cases (str_eq k n)) [
    | inl f ↦ absurd (some-ne-none p (simp f at e))
    | inr f ↦ elim (Bool-cases p.running) [
      | inl g ↦ simp (g, f) (retry-none n starts runner (simp f at e))
      | inr g ↦ simp (g, f) (retry-none n starts runner (simp f at e))
    ]
  ]

  -- A pipeline that is the same in the new configuration and in the current one, and is not in the
  -- runner, is not there after a tick either.
  reload-none :
      (same : Config C → Config C → Bool) (order : List (Config C) → List (Config C))
      (starts : Config C → Bool) (new : List (Config C)) (c : Controller C) (n : String)
      (p q : Config C)
      → Unique C new
      → Unique C c.current_config
      → config_of C n new ≡ some p
      → config_of C n c.current_config ≡ some q
      → same q p ≡ true
      → lookup n c.pipeline_runner ≡ none
      → lookup n (reload C same order starts (some new) c).pipeline_runner ≡ none
  unfolding reload diff_config stop_pipelines start_pipelines
  reload-none same order starts new c n p q u v e f s l =
      let index = pipe_index C c.current_config [] in
      let d = diff_each C same new index in
      let r = diff_each-Diffs C same n new index u (Named-index C c.current_config [] tt) in
      let not_started : config_of C n d.start_list ≡ none =
        r.starts ∙ ap₂ (started C same) e (lookup-index C n c.current_config v ∙ f) ∙ simp s refl in
      start_each-none n starts d.start_list _ not_started (
        stop_each-none n (d.stop_list ++ order (values C d.left)) _
          (retry-none n starts c.pipeline_runner l))

  -- Neither running nor kept to be started again, now and after a tick with a configuration in which
  -- the pipeline is the same.
  pub record Forgotten (same : Config C → Config C → Bool)
      (order : List (Config C) → List (Config C)) (n : String) (q : Config C) (c : Controller C)
      : Type 0 where
    pub configured : config_of C n c.current_config ≡ some q
    pub not_kept : lookup n c.pipeline_runner ≡ none
    pub not_started :
        (starts : Config C → Bool) (new : List (Config C)) (p : Config C)
        → Unique C new
        → config_of C n new ≡ some p
        → same q p ≡ true
        → lookup n (reload C same order starts (some new) c).pipeline_runner ≡ none

  behind :
      (n : String) (p : Config C) (ps : List (Config C))
      → str_eq p.name n ≡ false
      → config_of C n (p ∷ ps) ≡ config_of C n ps
  unfolding config_of
  behind n p ps e = simp e refl

  rest-Unique : (ps qs : List (Config C)) → Unique C (ps ++ qs) → Unique C qs
  rest-Unique [] qs u = u
  rest-Unique (p ∷ ps) qs u = rest-Unique ps qs u.1

  -- A name that is found behind `p` is not that of `p`, nor of one in front of it.
  only_behind :
      (n : String) (q : Config C) (qs : List (Config C)) (p : Config C) (ps : List (Config C))
      → config_of C n ps ≡ some q
      → Unique C (qs ++ p ∷ ps)
      → (config_of C n qs ≡ none) × (str_eq p.name n ≡ false)
  unfolding config_of
  only_behind n q [] p ps e u = elim (Bool-cases (str_eq p.name n)) [
    | inl f ↦
        absurd (
          some-ne-none q (sym e ∙ subst (λ m. config_of C m ps ≡ none) ((eq_iff p.name n).0 f) u.0))
    | inr f ↦ (refl, f)
  ]
  only_behind n q (r ∷ qs) p ps e u =
      let (front, other) = only_behind n q qs p ps e u.1 in
      elim (Bool-cases (str_eq r.name n)) [
        | inl f ↦
            let none_there : config_of C n (qs ++ p ∷ ps) ≡ none =
              subst (λ m. config_of C m (qs ++ p ∷ ps) ≡ none) ((eq_iff r.name n).0 f) u.0 in
            absurd (
              some-ne-none q (
                sym (
                  config_of-append C n qs (p ∷ ps)
                  ∙ ap₂ (or_else C) front (behind n p ps other ∙ e))
                ∙ none_there))
        | inr f ↦ (simp f front, other)
      ]

  -- What is behind a pipeline that does not start is not looked at.
  start_each-stops :
      (n : String) (starts : Config C → Bool) (qs : List (Config C)) (p : Config C)
      (ps : List (Config C)) (runner : Dict (Pipeline C))
      → starts p ≡ false
      → str_eq p.name n ≡ false
      → config_of C n qs ≡ none
      → lookup n runner ≡ none
      → lookup n (start_each C starts (qs ++ p ∷ ps) runner) ≡ none
  unfolding config_of start_each
  start_each-stops n starts [] p ps runner fails other h e =
      simp fails
        (lookup-insert_miss p.name n runner (record { config = p; running = false }) other ∙ e)
  start_each-stops n starts (q ∷ qs) p ps runner fails other h e =
      elim (Bool-cases (str_eq q.name n)) [
        | inl f ↦ absurd (some-ne-none q (simp f at h))
        | inr f ↦ elim (Bool-cases (starts q)) [
          | inl g ↦ simp g (
              start_each-stops n starts qs p ps _ fails other (simp f at h)
                (lookup-insert_miss q.name n runner (record { config = q; running = true }) f ∙ e))
          | inr g ↦
              simp g
                (lookup-insert_miss q.name n runner (record { config = q; running = false }) f ∙ e)
        ]
      ]

  -- When one of the pipelines that are to be started does not start, wherever it stands, those
  -- behind it are in the current configuration but neither run nor are kept to be started again; the
  -- next tick, by a configuration in which they are the same, does not start them either. (For names
  -- that are all different, in the current configuration with the pipelines to start, and in the next
  -- configuration, and for a pipeline behind it that was not there before.)
  pub start_pipelines-Forgotten :
      (same : Config C → Config C → Bool) (order : List (Config C) → List (Config C))
      (starts : Config C → Bool) (qs : List (Config C)) (p q : Config C) (ps : List (Config C))
      (c : Controller C) (n : String)
      → starts p ≡ false
      → config_of C n ps ≡ some q
      → config_of C n c.current_config ≡ none
      → lookup n c.pipeline_runner ≡ none
      → Unique C (c.current_config ++ (qs ++ p ∷ ps))
      → Forgotten same order n q (start_pipelines C starts (qs ++ p ∷ ps) c)
  unfolding start_pipelines
  start_pipelines-Forgotten same order starts qs p q ps c n fails there old l u =
      let (in_front, other) =
        only_behind n q qs p ps there (rest-Unique c.current_config (qs ++ p ∷ ps) u) in
      let found : config_of C n (p ∷ ps) ≡ some q = behind n p ps other ∙ there in
      let known =
        config_of-append C n c.current_config (qs ++ p ∷ ps)
        ∙ ap₂ (or_else C) old (config_of-append C n qs (p ∷ ps) ∙ ap₂ (or_else C) in_front found) in
      let kept = start_each-stops n starts qs p ps c.pipeline_runner fails other in_front l in
      record {
        configured = known;
        not_kept = kept;
        not_started =
            λ again new x v e s. reload-none same order again new _ n x q v u e known s kept;
      }
