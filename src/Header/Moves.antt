-- ===== src/Header/Moves.antt =====
-- What the operations on an event's fields promise (pkg/util/eventops/event.go).
use loggie.Prelude.{
  ℕ, ◌<◌, ◌≡◌, refl, sym, ap, ◌∙◌, subst, false, some, List, [], ◌∷◌, ◌++◌, String, str_eq, ◌==◌,
  ◌&&◌, not, length, lookup, lookup-delete, All, arith, Bool-cases, Option-cases, inl, inr,
}
use loggie.Header.{
  Item, null, map_at, Event, map_of, body_name, is_body, get_paths, map_del, set_from, del_from,
  set_paths, del_paths, get, set, del, copy, move, del_keys,
}
use loggie.Header.Query.{get_query_paths, HasKey, paths-HasKey}
use loggie.Header.Deletions.{get-del_from}
use loggie.Header.Walks.{Acyclic, Acyclic-Straight, get-set_from}

-- The header is still the same map, and the body is not changed.
record Same (e r : Event) : Type 0 where
  header : r.header ≡ e.header
  body : r.body ≡ e.body

set_from-Same :
    (a : ℕ) (p : String) (ps : List String) (v : Item) (e : Event) → Same e (set_from a p ps v e)
unfolding set_from
set_from-Same a p [] v e = record { header = refl; body = refl }
set_from-Same a p (q ∷ qs) v e = elim (Option-cases (map_of (lookup p (e.maps a)))) [
  | inl n ↦
      let r = set_from-Same e.fresh q qs v _ in
      rw (set_from, n) (record { header = r.header; body = r.body })
  | inr (c, n) ↦ rw (set_from, n) (set_from-Same c q qs v e)
]

set_paths-Same : (ps : List String) (v : Item) (e : Event) → Same e (set_paths ps v e)
unfolding set_paths
set_paths-Same [] v e = record { header = refl; body = refl }
set_paths-Same (p ∷ ps) v e = set_from-Same e.header p ps v e

get_field :
    (e : Event) (k : String)
    → is_body k e ≡ false
    → get e k ≡ get_paths e.maps (get_query_paths k) (map_at e.header)
unfolding get
get_field e k h = rw h refl

get-set_paths :
    (ps : List String) (v : Item) (e : Event) (rank : ℕ → ℕ)
    → HasKey ps
    → Acyclic e rank
    → get_paths (set_paths ps v e).maps ps (map_at e.header) ≡ v
unfolding set_paths
get-set_paths [] v e rank h c = absurd (ground (arith, h.shape))
get-set_paths (p ∷ ps) v e rank h c =
    get-set_from e.header p ps v e (Acyclic-Straight e rank e.header p ps c.made c)

-- A write at a field, read there behind it.
written :
    (e : Event) (to : String) (v : Item) (rank : ℕ → ℕ)
    → is_body to e ≡ false
    → Acyclic e rank
    → get (set_paths (get_query_paths to) v e) to ≡ v
written e to v rank h c =
    let ps = get_query_paths to in
    let r = set_paths ps v e in
    let s = set_paths-Same ps v e in
    let no_body : is_body to r ≡ false =
      ap (λ b. str_eq to body_name && not (length b == 0)) s.body ∙ h in
    get_field r to no_body
    ∙ ap (λ a. get_paths r.maps ps (map_at a)) s.header
    ∙ get-set_paths ps v e rank (paths-HasKey to) c

-- What `Set` writes, `Get` reads, whatever stood on the way and whichever fields share their maps,
-- where no map of the event holds itself. (Not for the body's name while the body is not empty.)
pub get-set :
    (e : Event) (key : String) (v : Item) (rank : ℕ → ℕ)
    → is_body key e ≡ false
    → Acyclic e rank
    → get (set e key v) key ≡ v
unfolding set
get-set e key v rank h c = written e key v rank h c

-- A deletion makes no map, and leaves the header and the body.
pub record Thinner (e r : Event) : Type 0 where
  pub header : r.header ≡ e.header
  pub body : r.body ≡ e.body
  pub fresh : r.fresh ≡ e.fresh
  pub fewer :
      (a : ℕ) (k : String) (c : ℕ)
      → map_of (lookup k (r.maps a)) ≡ some c
      → map_of (lookup k (e.maps a)) ≡ some c

map_del-Thinner : (a : ℕ) (p : String) (e : Event) → Thinner e (map_del a p e)
map_del-Thinner a p e = record {
  header = refl;
  body = refl;
  fresh = refl;
  fewer = λ b k c h. elim (Bool-cases (b == a)) [
    | inr n ↦ simp n at h
    | inl n ↦
        let g = ap map_of (sym (lookup-delete p k (e.maps b))) ∙ simp n at h in
        elim (Bool-cases (str_eq p k)) [
          | inl t ↦ absurd (ground (arith, simp t at g))
          | inr t ↦ simp t at g
        ]
  ];
}

del_from-Thinner :
    (a : ℕ) (p : String) (ps : List String) (e : Event) → Thinner e (del_from a p ps e)
unfolding del_from
del_from-Thinner a p [] e = map_del-Thinner a p e
del_from-Thinner a p (q ∷ qs) e = elim (Option-cases (map_of (lookup p (e.maps a)))) [
  | inl n ↦
      rw (del_from, n) (record { header = refl; body = refl; fresh = refl; fewer = λ b k c h. h })
  | inr (c, n) ↦ rw (del_from, n) (del_from-Thinner c q qs e)
]

del_paths-Thinner : (ps : List String) (e : Event) → Thinner e (del_paths ps e)
unfolding del_paths
del_paths-Thinner [] e = record { header = refl; body = refl; fresh = refl; fewer = λ b k c h. h }
del_paths-Thinner (p ∷ ps) e = del_from-Thinner e.header p ps e

Thinner-Acyclic : (e r : Event) (rank : ℕ → ℕ) → Thinner e r → Acyclic e rank → Acyclic r rank
Thinner-Acyclic e r rank t c = record {
  made = ground (arith, t.header, t.fresh, c.made);
  falls = λ a k b h.
      let f = c.falls a k b (t.fewer a k b h) in (f.0, subst (λ n. b < n) (sym t.fresh) f.1);
}

pub record Arrives (e r : Event) (from to : String) : Type 0 where
  pub arrives : get r to ≡ get e from
  pub same_body : r.body ≡ e.body

-- What `Move` and `Copy` leave.
pub record Moved (e moved copied : Event) (from to : String) : Type 0 where
  pub moves : Arrives e moved from to
  pub deletes : moved ≡ set (del e from) to (get e from)
  pub copies : Arrives e copied from to

-- `Move` and `Copy` between fields of the header, where no map of the event holds itself: the new
-- field reads as the old one did, be it the same map, whichever fields share their maps and whether
-- or not one of the two paths goes on from the other. `Move` is `Del` of the old field, and behind
-- it `Set` of the new one. The body stays. (The old field is not the body's name, and the new one
-- neither while the body is not empty.)
pub move-Moved :
    (string : List ℕ → String) (e : Event) (from to : String) (rank : ℕ → ℕ)
    → str_eq from body_name ≡ false
    → is_body to e ≡ false
    → Acyclic e rank
    → Moved e (move string e from to) (copy string e from to) from to
unfolding move copy del set
move-Moved string e from to rank hn ht c =
    let v = get_paths e.maps (get_query_paths from) (map_at e.header) in
    let ts = get_query_paths to in
    let mid = del_paths (get_query_paths from) e in
    let t = del_paths-Thinner (get_query_paths from) e in
    let hf : is_body from e ≡ false = rw hn refl in
    let no_body : is_body to mid ≡ false =
      ap (λ b. str_eq to body_name && not (length b == 0)) t.body ∙ ht in
    let read = sym (get_field e from hf) in
    let moved : move string e from to ≡ set_paths ts v mid = rw (move, hf) refl in
    record {
      moves =
          subst (λ r. Arrives e r from to) (sym moved)
            (record {
              arrives = written mid to v rank no_body (Thinner-Acyclic e mid rank t c) ∙ read;
              same_body = (set_paths-Same ts v mid).body ∙ t.body;
            });
      deletes = moved ∙ ap (λ x. set_paths ts x mid) read ∙ rw (del, hn) refl;
      copies =
          rw (copy, hf)
            (record {
              arrives = written e to v rank ht c ∙ read;
              same_body = (set_paths-Same ts v e).body;
            });
    }

get-del_paths :
    (ps : List String) (e : Event) (rank : ℕ → ℕ)
    → HasKey ps
    → Acyclic e rank
    → get_paths (del_paths ps e).maps ps (map_at e.header) ≡ null
unfolding del_paths
get-del_paths [] e rank h c = absurd (ground (arith, h.shape))
get-del_paths (p ∷ ps) e rank h c =
    get-del_from e.header p ps e (Acyclic-Straight e rank e.header p ps c.made c)

-- What `Del` deletes reads as nothing, whichever fields share their maps, where no map of the event
-- holds itself and the field is not the body's name. The body stays.
pub get-del :
    (e : Event) (key : String) (rank : ℕ → ℕ)
    → str_eq key body_name ≡ false
    → Acyclic e rank
    → (get (del e key) key ≡ null) × ((del e key).body ≡ e.body)
unfolding del
get-del e key rank h c =
    let ps = get_query_paths key in
    let r = del_paths ps e in
    let t = del_paths-Thinner ps e in
    let no_body : is_body key r ≡ false = rw h refl in
    rw (del, h)
      (
        get_field r key no_body
            ∙ ap (λ a. get_paths r.maps ps (map_at a)) t.header
            ∙ get-del_paths ps e rank (paths-HasKey key) c,
        t.body,
      )

abbrev pub FieldName : String → Type 0
FieldName k = str_eq k body_name ≡ false

-- Where the body's name is among the keys, the keys behind it are not deleted.
pub del_keys-stops :
    (keys behind : List String) (e : Event)
    → All FieldName keys
    → del_keys e (keys ++ body_name ∷ behind) ≡ record (del_keys e keys) { body = [] }
unfolding del_keys
del_keys-stops [] behind e h = refl
del_keys-stops (k ∷ keys) behind e h =
    rw h.0 (del_keys-stops keys behind (del_paths (get_query_paths k) e) h.1)
