-- ===== src/Reload/Running.antt =====
-- What a tick of the reloader makes of the pipelines that run (pkg/core/reloader/reload.go,
-- pkg/control/controller.go).
use loggie.Prelude.{
  lookup-insert_hit, lookup-insert_miss, lookup-delete_hit, lookup-delete_miss, ◌≡◌, refl, ap, ap₂,
  ◌∙◌, subst, Bool, true, is_some, if◌then◌else◌, Option, none, some, List, [], ◌∷◌, String, str_eq,
  eq_iff, Dict, lookup, delete, All, arith, Bool-cases, Option-cases, inl, inr,
}
use loggie.Reload.{
  Config, Pipeline, Controller, start_each, start_pipelines, stop_each, stop_pipelines,
  retry_not_running, pipe_index, diff_each, diff_config, reload,
}
use loggie.Reload.Names.{config_of, Unique, or_else, without}
use loggie.Reload.Keyed.{Named, Named-index, Named-delete}
use loggie.Reload.Diffing.{started, stopped, configured, diff_each-Diffs}
use loggie.Reload.Settling.{diff_config-Found, reload-configured}

module _ (C : Type 0) where
  abbrev pub Starts : (Config C → Bool) → List (Config C) → Type 0
  Starts starts = All (λ p. starts p ≡ true)

  -- What a pipeline in the runner is after it was tried again.
  abbrev pub retried : (Config C → Bool) → Option (Pipeline C) → Option (Pipeline C)
  retried starts none = none
  retried starts (some p) = some (if p.running then p else record p { running = starts p.config })

  lookup-retry :
      (n : String) (starts : Config C → Bool) (runner : Dict (Pipeline C))
      → lookup n (retry_not_running C starts runner) ≡ retried starts (lookup n runner)
  unfolding retry_not_running lookup
  lookup-retry n starts [] = refl
  lookup-retry n starts ((k, p) ∷ runner) = elim (Bool-cases (str_eq k n)) [
    | inl e ↦ elim (Bool-cases p.running) [ inl f ↦ simp (e, f) refl | inr f ↦ simp (e, f) refl ]
    | inr e ↦ elim (Bool-cases p.running) [
      | inl f ↦ simp (e, f) (lookup-retry n starts runner)
      | inr f ↦ simp (e, f) (lookup-retry n starts runner)
    ]
  ]

  abbrev pub on : Config C → Pipeline C
  on c = record { config = c; running = true }

  abbrev placed : Option (Config C) → Option (Pipeline C) → Option (Pipeline C)
  placed none r = r
  placed (some c) r = some (on c)

  lookup-start_each :
      (n : String) (starts : Config C → Bool) (ps : List (Config C)) (runner : Dict (Pipeline C))
      → Starts starts ps
      → Unique C ps
      → lookup n (start_each C starts ps runner) ≡ placed (config_of C n ps) (lookup n runner)
  unfolding config_of start_each
  lookup-start_each n starts [] runner s u = refl
  lookup-start_each n starts (p ∷ ps) runner s u =
      let deeper = lookup-start_each n starts ps _ s.1 u.1 in
      elim (Bool-cases (str_eq p.name n)) [
        | inl e ↦
            let none_left = subst (λ m. config_of C m ps ≡ none) ((eq_iff p.name n).0 e) u.0 in
            simp (s.0, e)
              (deeper ∙ ap₂ placed none_left (lookup-insert_hit p.name n runner (on p) e))
        | inr e ↦
            simp (s.0, e)
              (deeper
                ∙ ap (placed (config_of C n ps)) (lookup-insert_miss p.name n runner (on p) e))
      ]

  abbrev dropped : Option (Config C) → Option (Pipeline C) → Option (Pipeline C)
  dropped none r = r
  dropped (some c) r = none

  dropped-none : (o : Option (Config C)) → dropped o none ≡ none
  dropped-none none = refl
  dropped-none (some c) = refl

  lookup-stop_each :
      (n : String) (ps : List (Config C)) (runner : Dict (Pipeline C))
      → lookup n (stop_each C ps runner) ≡ dropped (config_of C n ps) (lookup n runner)
  unfolding config_of stop_each
  lookup-stop_each n [] runner = refl
  lookup-stop_each n (p ∷ ps) runner =
      let deeper = lookup-stop_each n ps (delete p.name runner) in
      elim (Bool-cases (str_eq p.name n)) [
        | inl e ↦ simp e (
            deeper
            ∙ ap (dropped (config_of C n ps)) (lookup-delete_hit p.name n runner e)
            ∙ dropped-none (config_of C n ps))
        | inr e ↦
            simp e (deeper ∙ ap (dropped (config_of C n ps)) (lookup-delete_miss p.name n runner e))
      ]

  module _ (same : Config C → Config C → Bool) where
    absent :
        (p : Config C) (ps : List (Config C)) (index : Dict (Config C))
        → config_of C p.name ps ≡ none
        → Unique C ps
        → Named C index
        → config_of C p.name (diff_each C same ps index).start_list ≡ none
    absent p ps index e u h =
        (diff_each-Diffs C same p.name ps index u h).starts
        ∙ ap (λ w. started C same w (lookup p.name index)) e

    start_list-Unique :
        (new : List (Config C)) (index : Dict (Config C))
        → Unique C new
        → Named C index
        → Unique C (diff_each C same new index).start_list
    unfolding diff_each
    start_list-Unique [] index u h = tt
    start_list-Unique (p ∷ ps) index u h = elim (Option-cases (lookup p.name index)) [
      | inl e ↦ simp (diff_each, e) (absent p ps index u.0 u.1 h, start_list-Unique ps index u.1 h)
      | inr (old, e) ↦
          let g = Named-delete C p.name index h in
          let rest = start_list-Unique ps (delete p.name index) u.1 g in
          elim (Bool-cases (same old p)) [
            | inl f ↦ simp (diff_each, e, f) rest
            | inr f ↦ simp (diff_each, e, f) (absent p ps (delete p.name index) u.0 u.1 g, rest)
          ]
    ]

    start_list-Starts :
        (starts : Config C → Bool) (new : List (Config C)) (index : Dict (Config C))
        → Starts starts new
        → Starts starts (diff_each C same new index).start_list
    unfolding diff_each
    start_list-Starts starts [] index s = tt
    start_list-Starts starts (p ∷ ps) index s = elim (Option-cases (lookup p.name index)) [
      | inl e ↦ simp (diff_each, e) (s.0, start_list-Starts starts ps index s.1)
      | inr (old, e) ↦
          let rest = start_list-Starts starts ps (delete p.name index) s.1 in
          elim (Bool-cases (same old p)) [
            | inl f ↦ simp (diff_each, e, f) rest
            | inr f ↦ simp (diff_each, e, f) (s.0, rest)
          ]
    ]

    -- What the runner has of a name, where it had `r`: the new pipeline runs, unless it is the same
    -- as the old one, which is left alone; an old one that is not wanted is gone.
    abbrev pub settled :
        Option (Config C) → Option (Config C) → Option (Pipeline C) → Option (Pipeline C)
    settled none none r = r
    settled none (some d) r = none
    settled (some c) none r = some (on c)
    settled (some c) (some d) r = if same d c then r else some (on c)

    settled_cases :
        (w o s : Option (Config C)) (r : Option (Pipeline C))
        → is_some s ≡ is_some (or_else C (stopped C same w o) (without C w o))
        → placed (started C same w o) (dropped s r) ≡ settled w o r
    settled_cases none none none r e = refl
    settled_cases none none (some s) r e = absurd (ground (arith, e))
    settled_cases none (some d) none r e = absurd (ground (arith, e))
    settled_cases none (some d) (some s) r e = refl
    settled_cases (some c) none s r e = refl
    settled_cases (some c) (some d) none r e = elim (Bool-cases (same d c)) [
      | inl f ↦ simp f refl
      | inr f ↦ absurd (ground (arith, simp f at e))
    ]
    settled_cases (some c) (some d) (some s) r e = elim (Bool-cases (same d c)) [
      | inl f ↦ absurd (ground (arith, simp f at e))
      | inr f ↦ simp f refl
    ]

    -- The configuration and the runner behind a tick, at one name.
    pub record Settled (starts : Config C → Bool) (new : List (Config C)) (c after : Controller C)
        (n : String) : Type 0 where
      pub configures :
          config_of C n after.current_config
          ≡ configured C same (config_of C n new) (config_of C n c.current_config)
      pub runs :
          lookup n after.pipeline_runner
          ≡ settled
              (config_of C n new)
              (config_of C n c.current_config)
              (retried starts (lookup n c.pipeline_runner))

    -- Where the names of the pipelines are all different, in the new configuration and in the
    -- current one, and all the pipelines of the new one start: behind a tick of the reloader a
    -- pipeline that is new or not the same as before runs, with its new configuration, one that is
    -- not wanted any more is gone, and one that is the same as before is as it was, or, if it did not
    -- run, was tried again. The current configuration has just the pipelines of the new one. The
    -- runtime may visit the old ones in any order that has them all.
    pub reload-Settled :
        (order : List (Config C) → List (Config C)) (starts : Config C → Bool)
        (new : List (Config C)) (c : Controller C) (n : String)
        → ((ps : List (Config C)) → is_some (config_of C n (order ps)) ≡ is_some (config_of C n ps))
        → Unique C new
        → Unique C c.current_config
        → Starts starts new
        → Settled starts new c (reload C same order starts (some new) c) n
    unfolding reload diff_config stop_pipelines start_pipelines
    reload-Settled order starts new c n visits u v s =
        let old = c.current_config in
        let index = pipe_index C old [] in
        let f = diff_config-Found C same order new old n visits u v in
        let (stop_list, start_list) = diff_config C same order new old in
        let again = retry_not_running C starts c.pipeline_runner in
        record {
          configures = reload-configured C same order starts new c n visits u v;
          runs =
              lookup-start_each n starts start_list (stop_each C stop_list again)
                (start_list-Starts starts new index s)
                (start_list-Unique new index u (Named-index C old [] tt))
              ∙ ap₂ placed f.starts (lookup-stop_each n stop_list again)
              ∙ settled_cases (config_of C n new) (config_of C n old) (config_of C n stop_list)
                  (lookup n again) f.stops
              ∙ ap (settled (config_of C n new) (config_of C n old))
                  (lookup-retry n starts c.pipeline_runner);
        }
