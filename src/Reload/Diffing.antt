-- ===== src/Reload/Diffing.antt =====
-- The comparison of two configurations (pkg/core/reloader/reload.go).
use loggie.Prelude.{
  lookup-delete_hit, lookup-delete_miss, ◌≡◌, refl, sym, ap, ap₂, ◌∙◌, subst, Bool, true, false,
  Option, none, some, List, [], ◌∷◌, String, str_eq, eq_iff, if◌then◌else◌, Dict, lookup, delete,
  Bool-cases, Option-cases, inl, inr,
}
use loggie.Reload.{Config, Diff, diff_each}
use loggie.Reload.Names.{config_of, Unique, without}
use loggie.Reload.Keyed.{Named, Named-delete, Named-lookup}

module _ (C : Type 0) where
  module _ (same : Config C → Config C → Bool) where
    -- What is started and stopped of a new pipeline and an old one with the same name.
    abbrev pub started : Option (Config C) → Option (Config C) → Option (Config C)
    started none o = none
    started (some c) none = some c
    started (some c) (some d) = if same d c then none else some c

    abbrev pub stopped : Option (Config C) → Option (Config C) → Option (Config C)
    stopped none o = none
    stopped (some c) none = none
    stopped (some c) (some d) = if same d c then none else some d

    -- What is configured then: the new pipelines, of which those that are the same stay as they were.
    abbrev pub configured : Option (Config C) → Option (Config C) → Option (Config C)
    configured none o = none
    configured (some c) none = some c
    configured (some c) (some d) = if same d c then some d else some c

    -- The lists that come of a new pipeline `w` with the name, if any, and an old one `o`.
    pub record Diffs (n : String) (w o : Option (Config C)) (d : Diff C) : Type 0 where
      pub starts : config_of C n d.start_list ≡ started w o
      pub stops : config_of C n d.stop_list ≡ stopped w o
      pub lefts : lookup n d.left ≡ without C w o
      pub named : Named C d.left

    hit :
        (n : String) (p : Config C) (ps : List (Config C))
        → str_eq p.name n ≡ true
        → config_of C n (p ∷ ps) ≡ some p
    unfolding config_of
    hit n p ps e = simp e refl

    miss :
        (n : String) (p : Config C) (ps : List (Config C))
        → str_eq p.name n ≡ false
        → config_of C n (p ∷ ps) ≡ config_of C n ps
    unfolding config_of
    miss n p ps e = simp e refl

    moved :
        (n : String) (w o x y : Option (Config C)) (d e : Diff C)
        → w ≡ x
        → o ≡ y
        → e ≡ d
        → Diffs n x y d
        → Diffs n w o e
    moved n w o x y d e f g h r =
        subst (λ v. Diffs n v o e) (sym f)
          (subst (λ v. Diffs n x v e) (sym g) (subst (λ v. Diffs n x y v) (sym h) r))

    -- A new pipeline that was not there before.
    fresh-Diffs :
        (n : String) (p : Config C) (ps : List (Config C)) (index : Dict (Config C)) (d : Diff C)
        → lookup p.name index ≡ none
        → config_of C p.name ps ≡ none
        → Diffs n (config_of C n ps) (lookup n index) d
        → Diffs n
            (config_of C n (p ∷ ps))
            (lookup n index)
            (record d { start_list = p ∷ d.start_list })
    fresh-Diffs n p ps index d e u r = elim (Bool-cases (str_eq p.name n)) [
      | inl f ↦
          let at = (eq_iff p.name n).0 f in
          let no_old : lookup n index ≡ none = subst (λ m. lookup m index ≡ none) at e in
          let no_more : config_of C n ps ≡ none = subst (λ m. config_of C m ps ≡ none) at u in
          moved n _ _ (some p) none _ _ (hit n p ps f) no_old refl (record {
            starts = hit n p d.start_list f;
            stops = r.stops ∙ ap₂ stopped no_more no_old;
            lefts = r.lefts ∙ ap₂ (without C) no_more no_old;
            named = r.named;
          })
      | inr f ↦
          moved n _ _ (config_of C n ps) (lookup n index) _ _ (miss n p ps f) refl refl (record {
            starts = miss n p d.start_list f ∙ r.starts;
            stops = r.stops;
            lefts = r.lefts;
            named = r.named;
          })
    ]

    -- A new pipeline with the name of an old one, which leaves the index.
    met-Diffs :
        (n : String) (p old : Config C) (ps : List (Config C)) (index : Dict (Config C))
        (d : Diff C)
        → lookup p.name index ≡ some old
        → old.name ≡ p.name
        → config_of C p.name ps ≡ none
        → Diffs n (config_of C n ps) (lookup n (delete p.name index)) d
        → Diffs n (config_of C n (p ∷ ps)) (lookup n index) (
            if same old p
            then d
            else record d { stop_list = old ∷ d.stop_list; start_list = p ∷ d.start_list })
    met-Diffs n p old ps index d e name u r = elim (Bool-cases (str_eq p.name n)) [
      | inl f ↦
          let at = (eq_iff p.name n).0 f in
          let g : str_eq old.name n ≡ true = ap (λ m. str_eq m n) name ∙ f in
          let there : lookup n index ≡ some old = subst (λ m. lookup m index ≡ some old) at e in
          let gone : lookup n (delete p.name index) ≡ none = lookup-delete_hit p.name n index f in
          let no_more : config_of C n ps ≡ none = subst (λ m. config_of C m ps ≡ none) at u in
          elim (Bool-cases (same old p)) [
            | inl c ↦
                moved n _ _ (some p) (some old) d _ (hit n p ps f) there (simp c refl) (record {
                  starts = r.starts ∙ ap₂ started no_more gone ∙ simp c refl;
                  stops = r.stops ∙ ap₂ stopped no_more gone ∙ simp c refl;
                  lefts = r.lefts ∙ ap₂ (without C) no_more gone;
                  named = r.named;
                })
            | inr c ↦
                moved n _ _ (some p) (some old)
                  (record d { stop_list = old ∷ d.stop_list; start_list = p ∷ d.start_list }) _
                  (hit n p ps f) there (simp c refl)
                  (record {
                    starts = hit n p d.start_list f ∙ simp c refl;
                    stops = hit n old d.stop_list g ∙ simp c refl;
                    lefts = r.lefts ∙ ap₂ (without C) no_more gone;
                    named = r.named;
                  })
          ]
      | inr f ↦
          let g : str_eq old.name n ≡ false = ap (λ m. str_eq m n) name ∙ f in
          let kept : lookup n (delete p.name index) ≡ lookup n index =
            lookup-delete_miss p.name n index f in
          let q = subst (λ o. Diffs n (config_of C n ps) o d) kept r in
          elim (Bool-cases (same old p)) [
            | inl c ↦
                moved n _ _ (config_of C n ps) (lookup n index) d _ (miss n p ps f) refl
                  (simp c refl) q
            | inr c ↦
                moved n _ _ (config_of C n ps) (lookup n index)
                  (record d { stop_list = old ∷ d.stop_list; start_list = p ∷ d.start_list }) _
                  (miss n p ps f) refl (simp c refl)
                  (record {
                    starts = miss n p d.start_list f ∙ q.starts;
                    stops = miss n old d.stop_list g ∙ q.stops;
                    lefts = q.lefts;
                    named = q.named;
                  })
          ]
    ]

    pub diff_each-Diffs :
        (n : String) (new : List (Config C)) (index : Dict (Config C))
        → Unique C new
        → Named C index
        → Diffs n (config_of C n new) (lookup n index) (diff_each C same new index)
    unfolding diff_each config_of
    diff_each-Diffs n [] index u h = record { starts = refl; stops = refl; lefts = refl; named = h }
    diff_each-Diffs n (p ∷ ps) index u h = elim (Option-cases (lookup p.name index)) [
      | inl e ↦
          moved n _ _ (config_of C n (p ∷ ps)) (lookup n index) _ _ refl refl
            (simp (diff_each, e) refl)
            (fresh-Diffs n p ps index (diff_each C same ps index) e u.0
              (diff_each-Diffs n ps index u.1 h))
      | inr (old, e) ↦
          let left = delete p.name index in
          moved n _ _ (config_of C n (p ∷ ps)) (lookup n index) _ _ refl refl
            (simp (diff_each, e) refl)
            (met-Diffs n p old ps index (diff_each C same ps left) e
              (Named-lookup C p.name old index h e) u.0
              (diff_each-Diffs n ps left u.1 (Named-delete C p.name index h)))
    ]
