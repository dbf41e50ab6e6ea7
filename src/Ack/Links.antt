-- ===== src/Ack/Links.antt =====
-- Linking a new node behind the last one.
use loggie.Prelude.{
  ℕ, suc, ◌≡◌, refl, ap, false, Option, none, some, [], ◌∷◌, ◌++◌, String, str_eq, eq_iff,
  str_eq_sym, if◌then◌else◌, arith,
}
use loggie.Ack.{Ack, update, key}
use loggie.Ack.Cells.{Cells, Holds, Seg, last, last_above, find, Distinct, Rest, Firsts, view}

-- The last node points to `q`, where `b` stands.
abbrev pub snoc : Cells → ℕ → Ack → Cells
snoc [] q b = (q, b) ∷ []
snoc ((p, a) ∷ []) q b = (p, record a { next = some q }) ∷ (q, b) ∷ []
snoc (c ∷ d ∷ ns) q b = c ∷ snoc (d ∷ ns) q b

pub Holds-snoc :
    (h : ℕ → Ack) (t q : ℕ) (b : Ack) (lo : ℕ) (o : Option ℕ) (ns : Cells)
    → Seg lo q o ns
    → last ns ≡ some t
    → Holds h ns
    → h q ≡ b
    → Holds (update h t (record (h t) { next = some q })) (snoc ns q b)
Holds-snoc h t q b lo o [] s l hd e = cc
Holds-snoc h t q b lo o ((p, a) ∷ []) s l hd e = (ground arith, (ground arith, tt))
Holds-snoc h t q b lo o ((p, a) ∷ (r, c) ∷ ns) s l hd e = (
  ground (arith, last_above t (suc p) q a.next ((r, c) ∷ ns) s.3),
  Holds-snoc h t q b (suc p) a.next ((r, c) ∷ ns) s.3 l hd.1 e,
)

pub Seg-snoc :
    (q : ℕ) (b : Ack) (lo : ℕ) (o : Option ℕ) (p : ℕ) (a : Ack) (ns : Cells)
    → b.next ≡ none
    → Seg lo q o ((p, a) ∷ ns)
    → Seg lo (suc q) o (snoc ((p, a) ∷ ns) q b)
Seg-snoc q b lo o p a [] e s = (s.0, s.1, omega arith, (refl, omega arith, omega arith, e))
Seg-snoc q b lo o p a ((r, c) ∷ ns) e s =
    (s.0, s.1, omega arith, Seg-snoc q b (suc p) a.next r c ns e s.3)

pub last-snoc : (q : ℕ) (b : Ack) (ns : Cells) → last (snoc ns q b) ≡ some q
last-snoc q b [] = refl
last-snoc q b ((p, a) ∷ []) = refl
last-snoc q b (c ∷ (p, a) ∷ []) = refl
last-snoc q b (c ∷ d ∷ e ∷ ns) = last-snoc q b (d ∷ e ∷ ns)

pub find-snoc :
    (k : String) (q : ℕ) (b : Ack) (ns : Cells)
    → find (key b) ns ≡ none
    → find k (snoc ns q b) ≡ (if str_eq (key b) k then some q else find k ns)
find-snoc k q b [] f = refl
find-snoc k q b ((p, a) ∷ []) f =
    ground (arith, eq_iff (key a) k, eq_iff (key b) k, eq_iff (key a) (key b))
find-snoc k q b ((p, a) ∷ (r, c) ∷ ns) f = ground (
  arith,
  eq_iff (key a) k,
  eq_iff (key b) k,
  eq_iff (key a) (key b),
  find-snoc k q b ((r, c) ∷ ns),
)

pub Distinct-snoc :
    (q : ℕ) (b : Ack) (ns : Cells) → find (key b) ns ≡ none → Distinct ns → Distinct (snoc ns q b)
Distinct-snoc q b [] f d = (refl, tt)
Distinct-snoc q b ((p, a) ∷ []) f d = (ground (arith, str_eq_sym (key a) (key b)), (refl, tt))
Distinct-snoc q b ((p, a) ∷ (r, c) ∷ ns) f d =
    let g : find (key b) ((r, c) ∷ ns) ≡ none = ground arith in
    (
      ground (arith, str_eq_sym (key a) (key b), find-snoc (key a) q b ((r, c) ∷ ns) g),
      Distinct-snoc q b ((r, c) ∷ ns) g d.1,
    )

pub Rest-snoc : (q : ℕ) (b : Ack) (ns : Cells) → b.first ≡ false → Rest ns → Rest (snoc ns q b)
Rest-snoc q b [] e r = (e, tt)
Rest-snoc q b ((p, a) ∷ []) e r = (r.0, (e, tt))
Rest-snoc q b ((p, a) ∷ c ∷ ns) e r = (r.0, Rest-snoc q b (c ∷ ns) e r.1)

pub Firsts-snoc :
    (q : ℕ) (b : Ack) (p : ℕ) (a : Ack) (ns : Cells)
    → b.first ≡ false
    → Firsts ((p, a) ∷ ns)
    → Firsts (snoc ((p, a) ∷ ns) q b)
Firsts-snoc q b p a [] e r = (r.0, (e, tt))
Firsts-snoc q b p a (c ∷ ns) e r = (r.0, Rest-snoc q b (c ∷ ns) e r.1)

pub view-snoc :
    (q : ℕ) (b : Ack) (ns : Cells) → view (snoc ns q b) ≡ view ns ++ (b.state, b.done) ∷ []
view-snoc q b [] = refl
view-snoc q b ((p, a) ∷ []) = refl
view-snoc q b ((p, a) ∷ c ∷ ns) = ap (◌∷◌ (a.state, a.done)) (view-snoc q b (c ∷ ns))
