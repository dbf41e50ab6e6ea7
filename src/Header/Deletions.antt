-- ===== src/Header/Deletions.antt =====
-- Reading a field that was deleted (`DelPaths` of pkg/util/runtime/object.go).
use loggie.Prelude.{
  ℕ, ◌≡◌, refl, ap, ◌∙◌, subst, true, Option, none, some, List, [], ◌∷◌, String, ◌==◌, Dict, lookup,
  delete, lookup-delete_hit, eq_refl, arith, Option-cases, inl, inr,
}
use loggie.Header.{
  Item, null, text, raw, other, map_at, Event, map_of, value_or, get_paths, map_del, del_from,
}
use loggie.Header.Walks.{walk, Avoids, Straight, walk_child, Straight-child, child_map}

module _ (a : ℕ) (p q : String) (qs : List String) (e : Event) where
  del_child :
      (c : ℕ) → map_of (lookup p (e.maps a)) ≡ some c → del_from a p (q ∷ qs) e ≡ del_from c q qs e
  unfolding del_from
  del_child c n = rw (del_from, n) refl

  del_nothing : map_of (lookup p (e.maps a)) ≡ none → del_from a p (q ∷ qs) e ≡ e
  unfolding del_from
  del_nothing n = rw (del_from, n) refl

-- A deletion along a path leaves the maps that are not on it.
unaltered :
    (b a : ℕ) (p : String) (ps : List String) (e : Event)
    → Avoids b (walk e.maps a p ps)
    → (del_from a p ps e).maps b ≡ e.maps b
unfolding del_from walk
unaltered b a p [] e h = rw h.0 refl
unaltered b a p (q ∷ qs) e h = elim (Option-cases (map_of (lookup p (e.maps a)))) [
  | inl n ↦ ap (λ r. r.maps b) (del_nothing a p q qs e n)
  | inr (c, n) ↦
      let g = subst (Avoids b) (walk_child a p q qs e c n) h in
      ap (λ r. r.maps b) (del_child a p q qs e c n) ∙ unaltered b c q qs e g.1
]

get_paths-null : (maps : ℕ → Dict Item) (ps : List String) → get_paths maps ps null ≡ null
get_paths-null maps [] = refl
get_paths-null maps (p ∷ ps) = get_paths-null maps ps

-- There is nothing below what is no map.
no_child :
    (maps : ℕ → Dict Item) (q : String) (qs : List String) (o : Option Item)
    → map_of o ≡ none
    → get_paths maps (q ∷ qs) (value_or o) ≡ null
no_child maps q qs none n = get_paths-null maps qs
no_child maps q qs (some null) n = get_paths-null maps qs
no_child maps q qs (some (text t)) n = get_paths-null maps qs
no_child maps q qs (some (raw b)) n = get_paths-null maps qs
no_child maps q qs (some (other x)) n = get_paths-null maps qs
no_child maps q qs (some (map_at a)) n = cc

pub get-del_from :
    (a : ℕ) (p : String) (ps : List String) (e : Event)
    → Straight e a p ps
    → get_paths (del_from a p ps e).maps (p ∷ ps) (map_at a) ≡ null
unfolding del_from Straight
get-del_from a p [] e s =
    let yes : (a == a) ≡ true = ground arith in
    let here : (map_del a p e).maps a ≡ delete p (e.maps a) = simp yes refl in
    ap (λ m. value_or (lookup p m)) here
    ∙ ap value_or (lookup-delete_hit p p (e.maps a) (eq_refl p))
get-del_from a p (q ∷ qs) e s = elim (Option-cases (map_of (lookup p (e.maps a)))) [
  | inl n ↦
      ap (λ r. get_paths r.maps (p ∷ q ∷ qs) (map_at a)) (del_nothing a p q qs e n)
      ∙ no_child e.maps q qs (lookup p (e.maps a)) n
  | inr (c, n) ↦
      let at = subst (λ t. t) (Straight-child a p q qs e c n) s in
      let read =
        ap (λ m. value_or (lookup p m)) (unaltered a c q qs e at.1.0)
        ∙ child_map (lookup p (e.maps a)) c n in
      ap (λ r. get_paths r.maps (p ∷ q ∷ qs) (map_at a)) (del_child a p q qs e c n)
      ∙ ap (get_paths (del_from c q qs e).maps (q ∷ qs)) read
      ∙ get-del_from c q qs e at.1.1
]
