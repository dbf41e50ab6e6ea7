-- ===== src/Reload/Settling.antt =====
-- What a tick of the reloader makes of the configuration (pkg/core/reloader/reload.go).
use loggie.Prelude.{
  ◌≡◌, refl, ap, ap₂, ◌∙◌, Bool, is_some, Option, none, some, List, [], String, arith, Bool-cases,
  inl, inr,
}
use loggie.Reload.{
  Config, Controller, diff_each, diff_config, pipe_index, values, start_pipelines, stop_pipelines,
  remove_pipelines, reload,
}
use loggie.Reload.Names.{
  config_of, Unique, or_else, without, config_of-append, config_of-remove_pipelines, lookup-index,
}
use loggie.Reload.Keyed.{Named-index, values-lookup}
use loggie.Reload.Diffing.{started, stopped, configured, diff_each-Diffs}

module _ (C : Type 0) (same : Config C → Config C → Bool) where
  settle_cases :
      (w o s : Option (Config C))
      → is_some s ≡ is_some (or_else C (stopped C same w o) (without C w o))
      → or_else C (without C s o) (started C same w o) ≡ configured C same w o
  settle_cases none none none e = refl
  settle_cases none none (some s) e = refl
  settle_cases none (some d) none e = absurd (ground (arith, e))
  settle_cases none (some d) (some s) e = refl
  settle_cases (some c) none none e = refl
  settle_cases (some c) none (some s) e = refl
  settle_cases (some c) (some d) none e = elim (Bool-cases (same d c)) [
    | inl f ↦ simp f refl
    | inr f ↦ absurd (ground (arith, simp f at e))
  ]
  settle_cases (some c) (some d) (some s) e = elim (Bool-cases (same d c)) [
    | inl f ↦ absurd (ground (arith, simp f at e))
    | inr f ↦ simp f refl
  ]

  is_some-or_else :
      (a b c : Option (Config C))
      → is_some b ≡ is_some c
      → is_some (or_else C a b) ≡ is_some (or_else C a c)
  is_some-or_else none b c e = e
  is_some-or_else (some x) b c e = refl

  -- What the comparison finds of one name, in the new configuration and in the current one.
  pub record Found (order : List (Config C) → List (Config C)) (new old : List (Config C))
      (n : String) : Type 0 where
    pub starts :
        config_of C n (diff_config C same order new old).1
        ≡ started C same (config_of C n new) (config_of C n old)
    pub stops :
        is_some (config_of C n (diff_config C same order new old).0)
        ≡ is_some (
            or_else C
              (stopped C same (config_of C n new) (config_of C n old))
              (without C (config_of C n new) (config_of C n old)))

  pub diff_config-Found :
      (order : List (Config C) → List (Config C)) (new old : List (Config C)) (n : String)
      → ((ps : List (Config C)) → is_some (config_of C n (order ps)) ≡ is_some (config_of C n ps))
      → Unique C new
      → Unique C old
      → Found order new old n
  unfolding diff_config
  diff_config-Found order new old n visits u v =
      let index = pipe_index C old [] in
      let d = diff_each C same new index in
      let r = diff_each-Diffs C same n new index u (Named-index C old [] tt) in
      let at = lookup-index C n old v in
      let w = config_of C n new in
      let o = config_of C n old in
      let stops_at : config_of C n d.stop_list ≡ stopped C same w o =
        r.stops ∙ ap (stopped C same w) at in
      let lefts_at : config_of C n (values C d.left) ≡ without C w o =
        values-lookup C n d.left r.named ∙ r.lefts ∙ ap (without C w) at in
      record {
        starts = r.starts ∙ ap (started C same w) at;
        stops =
            ap is_some (config_of-append C n d.stop_list (order (values C d.left)))
            ∙ is_some-or_else _ _ _ (visits (values C d.left) ∙ ap is_some lefts_at)
            ∙ ap (λ x. is_some (or_else C x (without C w o))) stops_at;
      }

  -- Where the names of the pipelines are all different, in the new configuration and in the current
  -- one, the current configuration after a tick has just the pipelines of the new one, those that
  -- are the same as before as they were.
  pub reload-configured :
      (order : List (Config C) → List (Config C)) (starts : Config C → Bool) (new : List (Config C))
      (c : Controller C) (n : String)
      → ((ps : List (Config C)) → is_some (config_of C n (order ps)) ≡ is_some (config_of C n ps))
      → Unique C new
      → Unique C c.current_config
      → config_of C n (reload C same order starts (some new) c).current_config
        ≡ configured C same (config_of C n new) (config_of C n c.current_config)
  unfolding reload stop_pipelines start_pipelines
  reload-configured order starts new c n visits u v =
      let old = c.current_config in
      let f = diff_config-Found order new old n visits u v in
      let (stop_list, start_list) = diff_config C same order new old in
      config_of-append C n (remove_pipelines C stop_list old) start_list
      ∙ ap₂ (or_else C) (config_of-remove_pipelines C n stop_list old v) f.starts
      ∙ settle_cases (config_of C n new) (config_of C n old) (config_of C n stop_list) f.stops
