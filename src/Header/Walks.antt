-- ===== src/Header/Walks.antt =====
-- The maps that a path goes through, and what a write along it leaves alone.
use loggie.Prelude.{
  ℕ, ◌<◌, ◌≤◌, ◌≡◌, refl, sym, ap, ◌∙◌, true, false, Option, none, some, List, [], ◌∷◌, String,
  ◌==◌, Dict, lookup, insert, lookup-insert_hit, eq_refl, All, All-weaken, arith, Bool-cases,
  Option-cases, inl, inr, subst,
}
use loggie.Header.{
  Item, null, text, raw, other, map_at, Event, map_of, value_or, get_paths, map_set, new_child,
  set_from,
}

-- The maps from the one at `a` on, by the key `p` and then `ps`.
unfoldable pub walk : (ℕ → Dict Item) → ℕ → String → List String → List ℕ
walk maps a p [] = a ∷ []
walk maps a p (q ∷ qs) = elim (map_of (lookup p (maps a))) [
  | some c ↦ a ∷ walk maps c q qs
  | none ↦ a ∷ []
]

abbrev pub Avoids : ℕ → List ℕ → Type 0
Avoids b = All (λ a. (b == a) ≡ false)

-- No map of the path comes again on it.
unfoldable pub Straight : Event → ℕ → String → List String → Type 0
unfolding walk
Straight e a p [] = a < e.fresh
Straight e a p (q ∷ qs) = (a < e.fresh) × (elim (map_of (lookup p (e.maps a))) [
  | some c ↦ Avoids a (walk e.maps c q qs) × Straight e c q qs
  | none ↦ Unit
])

-- The two ways at the first key.
module _ (a : ℕ) (p q : String) (qs : List String) (e : Event) where
  pub walk_child :
      (c : ℕ)
      → map_of (lookup p (e.maps a)) ≡ some c
      → walk e.maps a p (q ∷ qs) ≡ a ∷ walk e.maps c q qs
  unfolding walk
  walk_child c n = rw (walk, n) refl

  walk_end : map_of (lookup p (e.maps a)) ≡ none → walk e.maps a p (q ∷ qs) ≡ a ∷ []
  unfolding walk
  walk_end n = rw (walk, n) refl

  pub Straight-child :
      (c : ℕ)
      → map_of (lookup p (e.maps a)) ≡ some c
      → Straight e a p (q ∷ qs)
        ≡ ((a < e.fresh) × (Avoids a (walk e.maps c q qs) × Straight e c q qs))
  unfolding Straight
  Straight-child c n = rw (Straight, n) refl

  pub Straight-end :
      map_of (lookup p (e.maps a)) ≡ none → Straight e a p (q ∷ qs) ≡ ((a < e.fresh) × Unit)
  unfolding Straight
  Straight-end n = rw (Straight, n) refl

  pub set_child :
      (c : ℕ) (v : Item)
      → map_of (lookup p (e.maps a)) ≡ some c
      → set_from a p (q ∷ qs) v e ≡ set_from c q qs v e
  unfolding set_from
  set_child c v n = rw (set_from, n) refl

  pub set_new :
      (v : Item)
      → map_of (lookup p (e.maps a)) ≡ none
      → set_from a p (q ∷ qs) v e ≡ set_from e.fresh q qs v (new_child a p e)
  unfolding set_from
  set_new v n = rw (set_from, n) refl

-- A map that was just made is empty: the path ends there.
pub new_maps : (a : ℕ) (k : String) (e : Event) → a < e.fresh → (new_child a k e).maps e.fresh ≡ []
new_maps a k e h = ground arith

empty : (k : String) (m : Dict Item) → m ≡ [] → map_of (lookup k m) ≡ none
unfolding lookup
empty k m h = rw h refl

walk_new :
    (e : Event) (a : ℕ) (p : String) (ps : List String)
    → e.maps a ≡ []
    → walk e.maps a p ps ≡ a ∷ []
unfolding walk
walk_new e a p [] h = refl
walk_new e a p (q ∷ qs) h = walk_end a p q qs e (empty p (e.maps a) h)

pub Straight-new :
    (e : Event) (a : ℕ) (p : String) (ps : List String)
    → a < e.fresh
    → e.maps a ≡ []
    → Straight e a p ps
unfolding Straight
Straight-new e a p [] l h = l
Straight-new e a p (q ∷ qs) l h =
    subst (λ t. t) (sym (Straight-end a p q qs e (empty p (e.maps a) h))) (l, tt)

-- A write along a path leaves the maps that are not on it.
pub untouched :
    (b a : ℕ) (p : String) (ps : List String) (v : Item) (e : Event)
    → b < e.fresh
    → Straight e a p ps
    → Avoids b (walk e.maps a p ps)
    → (set_from a p ps v e).maps b ≡ e.maps b
unfolding set_from walk Straight
untouched b a p [] v e l m h = rw h.0 refl
untouched b a p (q ∷ qs) v e l m h = elim (Option-cases (map_of (lookup p (e.maps a)))) [
  | inl n ↦
      let next = new_child a p e in
      let at = subst (λ t. t) (Straight-end a p q qs e n) m in
      let g = subst (Avoids b) (walk_end a p q qs e n) h in
      let fresh_map = new_maps a p e at.0 in
      let avoid : Avoids b (walk next.maps e.fresh q qs) =
        subst (Avoids b) (sym (walk_new next e.fresh q qs fresh_map)) (ground (arith, l), tt) in
      let kept : next.maps b ≡ e.maps b = ground (arith, g.0, l) in
      ap (λ r. r.maps b) (set_new a p q qs e v n)
      ∙ untouched b e.fresh q qs v next (omega (arith, l))
          (Straight-new next e.fresh q qs (omega arith) fresh_map) avoid
      ∙ kept
  | inr (c, n) ↦
      let at = subst (λ t. t) (Straight-child a p q qs e c n) m in
      let g = subst (Avoids b) (walk_child a p q qs e c n) h in
      ap (λ r. r.maps b) (set_child a p q qs e c v n) ∙ untouched b c q qs v e l at.1.1 g.1
]

pub child_map : (o : Option Item) (c : ℕ) → map_of o ≡ some c → value_or o ≡ map_at c
child_map none c n = cc
child_map (some null) c n = cc
child_map (some (text t)) c n = cc
child_map (some (raw b)) c n = cc
child_map (some (other x)) c n = cc
child_map (some (map_at a)) c n = cc

-- What is written along a path is read along it.
pub get-set_from :
    (a : ℕ) (p : String) (ps : List String) (v : Item) (e : Event)
    → Straight e a p ps
    → get_paths (set_from a p ps v e).maps (p ∷ ps) (map_at a) ≡ v
unfolding set_from Straight
get-set_from a p [] v e s =
    let yes : (a == a) ≡ true = ground arith in
    let here : (map_set a p v e).maps a ≡ insert p v (e.maps a) = simp yes refl in
    ap (λ m. value_or (lookup p m)) here
    ∙ ap value_or (lookup-insert_hit p p (e.maps a) v (eq_refl p))
get-set_from a p (q ∷ qs) v e s = elim (Option-cases (map_of (lookup p (e.maps a)))) [
  | inl n ↦
      let next = new_child a p e in
      let at = subst (λ t. t) (Straight-end a p q qs e n) s in
      let fresh_map = new_maps a p e at.0 in
      let straight = Straight-new next e.fresh q qs (omega arith) fresh_map in
      let avoid : Avoids a (walk next.maps e.fresh q qs) =
        subst (Avoids a) (sym (walk_new next e.fresh q qs fresh_map)) (ground (arith, at.0), tt) in
      let yes : (a == a) ≡ true = ground arith in
      let no : (a == e.fresh) ≡ false = ground (arith, at.0) in
      let linked : next.maps a ≡ insert p (map_at e.fresh) (e.maps a) = simp (yes, no) refl in
      let kept = untouched a e.fresh q qs v next (omega (arith, at.0)) straight avoid ∙ linked in
      let read =
        ap (λ m. value_or (lookup p m)) kept
        ∙ ap value_or (lookup-insert_hit p p (e.maps a) (map_at e.fresh) (eq_refl p)) in
      ap (λ r. get_paths r.maps (p ∷ q ∷ qs) (map_at a)) (set_new a p q qs e v n)
      ∙ ap (get_paths (set_from e.fresh q qs v next).maps (q ∷ qs)) read
      ∙ get-set_from e.fresh q qs v next straight
  | inr (c, n) ↦
      let at = subst (λ t. t) (Straight-child a p q qs e c n) s in
      let kept = untouched a c q qs v e at.0 at.1.1 at.1.0 in
      let read = ap (λ m. value_or (lookup p m)) kept ∙ child_map (lookup p (e.maps a)) c n in
      ap (λ r. get_paths r.maps (p ∷ q ∷ qs) (map_at a)) (set_child a p q qs e c v n)
      ∙ ap (get_paths (set_from c q qs v e).maps (q ∷ qs)) read
      ∙ get-set_from c q qs v e at.1.1
]

-- No map holds itself, be it through others: a map stands above those that it holds. All the maps
-- that it holds were made.
pub record Acyclic (e : Event) (rank : ℕ → ℕ) : Type 0 where
  pub made : e.header < e.fresh
  pub falls :
      (a : ℕ) (k : String) (c : ℕ)
      → map_of (lookup k (e.maps a)) ≡ some c
      → (rank c < rank a) × (c < e.fresh)

differ : (rank : ℕ → ℕ) (x y c : ℕ) → rank c < rank x → rank y ≤ rank c → (x == y) ≡ false
differ rank x y c f g = elim (Bool-cases (x == y)) [
  | inr e ↦ e
  | inl e ↦ let same : x ≡ y = ground arith in absurd (omega (arith, f, g, ap rank same))
]

walk-below :
    (e : Event) (rank : ℕ → ℕ) (a : ℕ) (p : String) (ps : List String)
    → Acyclic e rank
    → All (λ b. rank b ≤ rank a) (walk e.maps a p ps)
unfolding walk
walk-below e rank a p [] h = (omega arith, tt)
walk-below e rank a p (q ∷ qs) h = elim (Option-cases (map_of (lookup p (e.maps a)))) [
  | inl n ↦ subst (All (λ b. rank b ≤ rank a)) (sym (walk_end a p q qs e n)) (omega arith, tt)
  | inr (c, n) ↦
      let f = h.falls a p c n in
      subst (All (λ b. rank b ≤ rank a)) (sym (walk_child a p q qs e c n)) (
        omega arith,
        All-weaken (λ b. rank b ≤ rank c) (λ b. rank b ≤ rank a) (λ b l. omega (arith, l, f.0))
            (walk e.maps c q qs) (walk-below e rank c q qs h),
      )
]

pub Acyclic-Straight :
    (e : Event) (rank : ℕ → ℕ) (a : ℕ) (p : String) (ps : List String)
    → a < e.fresh
    → Acyclic e rank
    → Straight e a p ps
unfolding Straight
Acyclic-Straight e rank a p [] l h = l
Acyclic-Straight e rank a p (q ∷ qs) l h = elim (Option-cases (map_of (lookup p (e.maps a)))) [
  | inl n ↦ subst (λ t. t) (sym (Straight-end a p q qs e n)) (l, tt)
  | inr (c, n) ↦
      let f = h.falls a p c n in
      let apart = λ (b : ℕ) (g : rank b ≤ rank c). differ rank a b c f.0 g in
      subst (λ t. t) (sym (Straight-child a p q qs e c n))
        (
          l,
          (
            All-weaken (λ b. rank b ≤ rank c) (λ b. (a == b) ≡ false) apart (walk e.maps c q qs)
                (walk-below e rank c q qs h),
            Acyclic-Straight e rank c q qs f.1 h,
          ),
        )
]
