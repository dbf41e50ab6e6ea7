-- ===== src/Reload/Names.antt =====
-- The configuration of a pipeline by its name, and what stopping and starting do to it
-- (pkg/control/config.go).
use mathlib.Core.Option.{some-ne-none}
use loggie.Prelude.{
  lookup-insert_hit, lookup-insert_miss, ◌≡◌, refl, sym, ap, ap₂, ◌∙◌, subst, false, Option, none,
  some, List, [], ◌∷◌, ◌++◌, String, str_eq, eq_iff, str_eq_sym, if◌then◌else◌, Dict, lookup,
  insert, arith, Bool-cases, inl, inr,
}
use loggie.Reload.{Config, remove_name, remove_pipelines, pipe_index}

module _ (C : Type 0) where
  -- The first configuration with the name.
  unfoldable pub config_of : String → List (Config C) → Option (Config C)
  config_of n [] = none
  config_of n (p ∷ ps) = let more = config_of n ps in if str_eq p.name n then some p else more

  -- No two pipelines have the same name.
  abbrev pub Unique : List (Config C) → Type 0
  Unique [] = Unit
  Unique (p ∷ ps) = (config_of p.name ps ≡ none) × Unique ps

  -- `o`, or else `p`.
  abbrev pub or_else : Option (Config C) → Option (Config C) → Option (Config C)
  or_else none p = p
  or_else (some c) p = some c

  -- `p`, unless there is `o`.
  abbrev pub without : Option (Config C) → Option (Config C) → Option (Config C)
  without none p = p
  without (some c) p = none

  without-none : (o : Option (Config C)) → without o none ≡ none
  without-none none = refl
  without-none (some c) = refl

  pub config_of-append :
      (n : String) (ps qs : List (Config C))
      → config_of n (ps ++ qs) ≡ or_else (config_of n ps) (config_of n qs)
  unfolding config_of
  config_of-append n [] qs = refl
  config_of-append n (p ∷ ps) qs = elim (Bool-cases (str_eq p.name n)) [
    | inl e ↦ simp e refl
    | inr e ↦ simp e (config_of-append n ps qs)
  ]

  -- Where no name comes twice the loop removes just the one with the name.
  remove_name-none :
      (t : String) (ps : List (Config C)) → config_of t ps ≡ none → remove_name C t ps ≡ ps
  unfolding config_of remove_name
  remove_name-none t [] h = refl
  remove_name-none t (p ∷ []) h = elim (Bool-cases (str_eq p.name t)) [
    | inl e ↦ absurd (some-ne-none p (simp e at h))
    | inr e ↦ let f = str_eq_sym t p.name ∙ e in simp f refl
  ]
  remove_name-none t (p ∷ q ∷ ps) h = elim (Bool-cases (str_eq p.name t)) [
    | inl e ↦ absurd (some-ne-none p (simp e at h))
    | inr e ↦
        let f = str_eq_sym t p.name ∙ e in
        simp f (ap (◌∷◌ p) (remove_name-none t (q ∷ ps) (simp e at h)))
  ]

  behind-none :
      (n : String) (p : Config C) (ps : List (Config C))
      → config_of n (p ∷ ps) ≡ none
      → config_of n ps ≡ none
  unfolding config_of
  behind-none n p ps h = elim (Bool-cases (str_eq p.name n)) [
    | inl e ↦ absurd (some-ne-none p (simp e at h))
    | inr e ↦ simp e at h
  ]

  remove_name-here :
      (t : String) (p : Config C) (ps : List (Config C))
      → t ≡ p.name
      → config_of p.name ps ≡ none
      → remove_name C t (p ∷ ps) ≡ ps
  unfolding remove_name
  remove_name-here t p [] e u = let f = (eq_iff t p.name).1 e in simp f refl
  remove_name-here t p (q ∷ ps) e u =
      let f = (eq_iff t p.name).1 e in
      let h = subst (λ n. config_of n ps ≡ none) (sym e) (behind-none p.name q ps u) in
      simp f (ap (◌∷◌ q) (remove_name-none t ps h))

  remove_name-there :
      (t : String) (p : Config C) (ps : List (Config C))
      → str_eq t p.name ≡ false
      → remove_name C t (p ∷ ps) ≡ p ∷ remove_name C t ps
  unfolding remove_name
  remove_name-there t p [] e = simp e refl
  remove_name-there t p (q ∷ ps) e = simp e refl

  pub config_of-remove_name :
      (t n : String) (ps : List (Config C))
      → Unique ps
      → config_of n (remove_name C t ps) ≡ (if str_eq t n then none else config_of n ps)
  unfolding config_of remove_name
  config_of-remove_name t n [] u = elim (Bool-cases (str_eq t n)) [
    | inl e ↦ simp e refl
    | inr e ↦ simp e refl
  ]
  config_of-remove_name t n (p ∷ ps) u = elim (Bool-cases (str_eq t p.name)) [
    | inl e ↦
        let at = (eq_iff t p.name).0 e in
        ap (config_of n) (remove_name-here t p ps at u.0) ∙ elim (Bool-cases (str_eq t n)) [
          | inl f ↦
              let name : p.name ≡ n = sym at ∙ (eq_iff t n).0 f in
              simp f (subst (λ m. config_of m ps ≡ none) name u.0)
          | inr f ↦ ground (arith, f, at, eq_iff p.name n, eq_iff t n)
        ]
    | inr e ↦ ap (config_of n) (remove_name-there t p ps e) ∙ elim (Bool-cases (str_eq p.name n)) [
      | inl f ↦ ground (arith, e, f, eq_iff p.name n, eq_iff t n, eq_iff t p.name)
      | inr f ↦ simp f (config_of-remove_name t n ps u.1)
    ]
  ]

  remove_name-Unique : (t : String) (ps : List (Config C)) → Unique ps → Unique (remove_name C t ps)
  unfolding remove_name
  remove_name-Unique t [] u = tt
  remove_name-Unique t (p ∷ ps) u = elim (Bool-cases (str_eq t p.name)) [
    | inl e ↦ subst Unique (sym (remove_name-here t p ps ((eq_iff t p.name).0 e) u.0)) u.1
    | inr e ↦
        subst Unique (sym (remove_name-there t p ps e))
          (config_of-remove_name t p.name ps u.1 ∙ simp e u.0, remove_name-Unique t ps u.1)
  ]

  -- What is left of the pipelines once others were removed: those without the name of one of these.
  pub config_of-remove_pipelines :
      (n : String) (qs ps : List (Config C))
      → Unique ps
      → config_of n (remove_pipelines C qs ps) ≡ without (config_of n qs) (config_of n ps)
  unfolding remove_pipelines config_of
  config_of-remove_pipelines n [] ps u = refl
  config_of-remove_pipelines n (q ∷ qs) ps u =
      let deeper =
        config_of-remove_pipelines n qs (remove_name C q.name ps)
          (remove_name-Unique q.name ps u) in
      let one = config_of-remove_name q.name n ps u in
      elim (Bool-cases (str_eq q.name n)) [
        | inl e ↦
            let none_left : config_of n (remove_name C q.name ps) ≡ none = one ∙ simp e refl in
            simp e
              (deeper ∙ ap (without (config_of n qs)) none_left ∙ without-none (config_of n qs))
        | inr e ↦
            let same_left : config_of n (remove_name C q.name ps) ≡ config_of n ps =
              one ∙ simp e refl in
            simp e (deeper ∙ ap (without (config_of n qs)) same_left)
      ]

  -- The index of pipelines that have names of their own finds what the list has.
  lookup-pipe_index :
      (n : String) (ps : List (Config C)) (index : Dict (Config C))
      → Unique ps
      → lookup n (pipe_index C ps index) ≡ or_else (config_of n ps) (lookup n index)
  unfolding pipe_index config_of
  lookup-pipe_index n [] index u = refl
  lookup-pipe_index n (p ∷ ps) index u =
      let next = insert p.name p index in
      let deeper = lookup-pipe_index n ps next u.1 in
      elim (Bool-cases (str_eq p.name n)) [
        | inl e ↦
            let at : lookup n next ≡ some p = lookup-insert_hit p.name n index p e in
            let none_left : config_of n ps ≡ none =
              subst (λ m. config_of m ps ≡ none) ((eq_iff p.name n).0 e) u.0 in
            simp e (deeper ∙ ap₂ or_else none_left at)
        | inr e ↦
            let at : lookup n next ≡ lookup n index = lookup-insert_miss p.name n index p e in
            simp e (deeper ∙ ap (or_else (config_of n ps)) at)
      ]

  or_else-none : (o : Option (Config C)) → or_else o none ≡ o
  or_else-none none = refl
  or_else-none (some c) = refl

  pub lookup-index :
      (n : String) (ps : List (Config C))
      → Unique ps
      → lookup n (pipe_index C ps []) ≡ config_of n ps
  unfolding lookup
  lookup-index n ps u = lookup-pipe_index n ps [] u ∙ or_else-none (config_of n ps)
