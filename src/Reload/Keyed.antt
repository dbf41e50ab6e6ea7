-- ===== src/Reload/Keyed.antt =====
-- Maps from names to configurations, each under its own name (pkg/core/reloader/reload.go).
use mathlib.Core.Option.{some-ne-none, some-injective}
use loggie.Prelude.{
  ◌≡◌, refl, sym, ap, ◌∙◌, some, List, [], ◌∷◌, String, str_eq, eq_iff, Dict, lookup, insert,
  delete, Bool-cases, inl, inr,
}
use loggie.Reload.{Config, pipe_index, values}
use loggie.Reload.Names.{config_of}

module _ (C : Type 0) where
  -- Each configuration stands under its own name.
  abbrev pub Named : Dict (Config C) → Type 0
  Named [] = Unit
  Named ((k, p) ∷ dict) = (p.name ≡ k) × Named dict

  pub Named-delete : (k : String) (dict : Dict (Config C)) → Named dict → Named (delete k dict)
  unfolding delete
  Named-delete k [] h = tt
  Named-delete k ((j, p) ∷ dict) h = elim (Bool-cases (str_eq j k)) [
    | inl e ↦ simp e (Named-delete k dict h.1)
    | inr e ↦ simp e (h.0, Named-delete k dict h.1)
  ]

  Named-insert : (p : Config C) (dict : Dict (Config C)) → Named dict → Named (insert p.name p dict)
  unfolding insert
  Named-insert p [] h = (refl, tt)
  Named-insert p ((j, q) ∷ dict) h = elim (Bool-cases (str_eq j p.name)) [
    | inl e ↦ simp e (refl, h.1)
    | inr e ↦ simp e (h.0, Named-insert p dict h.1)
  ]

  pub Named-index :
      (ps : List (Config C)) (index : Dict (Config C)) → Named index → Named (pipe_index C ps index)
  unfolding pipe_index
  Named-index [] index h = h
  Named-index (p ∷ ps) index h = Named-index ps _ (Named-insert p index h)

  pub values-lookup :
      (n : String) (dict : Dict (Config C))
      → Named dict
      → config_of C n (values C dict) ≡ lookup n dict
  unfolding config_of lookup
  values-lookup n [] h = refl
  values-lookup n ((k, p) ∷ dict) h =
      let same = ap (λ m. str_eq m n) h.0 in
      elim (Bool-cases (str_eq k n)) [
        | inl e ↦ let f = same ∙ e in simp (e, f) refl
        | inr e ↦ let f = same ∙ e in simp (e, f) (values-lookup n dict h.1)
      ]

  pub Named-lookup :
      (n : String) (p : Config C) (dict : Dict (Config C))
      → Named dict
      → lookup n dict ≡ some p
      → p.name ≡ n
  unfolding lookup
  Named-lookup n p [] h e = absurd (some-ne-none p (sym e))
  Named-lookup n p ((k, q) ∷ dict) h e = elim (Bool-cases (str_eq k n)) [
    | inl c ↦ ap (λ r. r.name) (sym (some-injective q p (simp c at e))) ∙ h.0 ∙ (eq_iff k n).0 c
    | inr c ↦ Named-lookup n p dict h.1 (simp c at e)
  ]
