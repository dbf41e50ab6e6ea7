-- ===== src/Ack/Cells.antt =====
-- The nodes of a chain in order, as addresses with their contents, and how writes to the heap
-- change them.
use loggie.Prelude.{
  ℕ, suc, ◌≤◌, ◌<◌, ◌≡◌, refl, true, false, Option, none, some, List, [], ◌∷◌, String, str_eq, ◌==◌,
  if◌then◌else◌, is_some, arith, Bool-cases, inl, inr, ◌∙◌,
}
use loggie.Ack.{Ack, update, key}
use loggie.Ack.Spec.{Entry, has, mark_entry}

abbrev pub Cells : Type 0
Cells = List (ℕ × Ack)

-- The heap holds these nodes.
abbrev pub Holds : (ℕ → Ack) → Cells → Type 0
Holds h [] = Unit
Holds h ((p, a) ∷ ns) = (h p ≡ a) × Holds h ns

-- They are linked from `o` on, at rising addresses between the bounds.
abbrev pub Seg : ℕ → ℕ → Option ℕ → Cells → Type 0
Seg lo hi o [] = o ≡ none
Seg lo hi o ((p, a) ∷ ns) = (o ≡ some p) × (lo ≤ p) × (p < hi) × Seg (suc p) hi a.next ns

abbrev pub last : Cells → Option ℕ
last [] = none
last ((p, a) ∷ []) = some p
last (c ∷ d ∷ ns) = last (d ∷ ns)

abbrev pub find : String → Cells → Option ℕ
find k [] = none
find k ((p, a) ∷ ns) = if str_eq (key a) k then some p else find k ns

abbrev pub Distinct : Cells → Type 0
Distinct [] = Unit
Distinct ((p, a) ∷ ns) = (find (key a) ns ≡ none) × Distinct ns

abbrev pub Rest : Cells → Type 0
Rest [] = Unit
Rest ((p, a) ∷ ns) = (a.first ≡ false) × Rest ns

-- Only the head carries the mark `first`.
abbrev pub Firsts : Cells → Type 0
Firsts [] = Unit
Firsts ((p, a) ∷ ns) = (a.first ≡ true) × Rest ns

abbrev pub view : Cells → List Entry
view [] = []
view ((p, a) ∷ ns) = (a.state, a.done) ∷ view ns

-- A write outside the bounds leaves the nodes alone.
pub Holds-below :
    (h : ℕ → Ack) (p : ℕ) (a : Ack) (lo hi : ℕ) (o : Option ℕ) (ns : Cells)
    → Seg lo hi o ns
    → p < lo
    → Holds h ns
    → Holds (update h p a) ns
Holds-below h p a lo hi o [] s lt hd = tt
Holds-below h p a lo hi o ((q, b) ∷ ns) s lt hd =
    (ground arith, Holds-below h p a (suc q) hi b.next ns s.3 (omega arith) hd.1)

pub Holds-above :
    (h : ℕ → Ack) (p : ℕ) (a : Ack) (lo hi : ℕ) (o : Option ℕ) (ns : Cells)
    → Seg lo hi o ns
    → hi ≤ p
    → Holds h ns
    → Holds (update h p a) ns
Holds-above h p a lo hi o [] s le hd = tt
Holds-above h p a lo hi o ((q, b) ∷ ns) s le hd =
    (ground arith, Holds-above h p a (suc q) hi b.next ns s.3 le hd.1)

-- Mark the node at an address as done.
abbrev pub mark_cell : ℕ → Cells → Cells
mark_cell n [] = []
mark_cell n ((p, a) ∷ ns) =
    if p == n then (p, record a { done = true }) ∷ ns else (p, a) ∷ mark_cell n ns

pub last_above :
    (t lo hi : ℕ) (o : Option ℕ) (ns : Cells) → Seg lo hi o ns → last ns ≡ some t → lo ≤ t
last_above t lo hi o [] s l = cc
last_above t lo hi o ((p, a) ∷ []) s l = ground arith
last_above t lo hi o ((p, a) ∷ (q, b) ∷ ns) s l =
    omega (arith, last_above t (suc p) hi a.next ((q, b) ∷ ns) s.3 l)

last_behind :
    (n p : ℕ) (a : Ack) (q : ℕ) (b : Ack) (ns : Cells)
    → last ((p, a) ∷ mark_cell n ((q, b) ∷ ns)) ≡ last (mark_cell n ((q, b) ∷ ns))
last_behind n p a q b ns = elim (Bool-cases (q == n)) [ inl e ↦ rw e refl | inr e ↦ rw e refl ]

pub find_above :
    (k : String) (n lo hi : ℕ) (o : Option ℕ) (ns : Cells)
    → Seg lo hi o ns
    → find k ns ≡ some n
    → (lo ≤ n) × (n < hi)
find_above k n lo hi o [] s f = cc
find_above k n lo hi o ((p, a) ∷ ns) s f = ground (arith, find_above k n (suc p) hi a.next ns s.3)

pub Holds-mark :
    (h : ℕ → Ack) (n lo hi : ℕ) (o : Option ℕ) (ns : Cells)
    → Seg lo hi o ns
    → Holds h ns
    → Holds (update h n (record (h n) { done = true })) (mark_cell n ns)
Holds-mark h n lo hi o [] s hd = tt
Holds-mark h n lo hi o ((p, a) ∷ ns) s hd = elim (Bool-cases (p == n)) [
  | inl e ↦ rw e (
    ground arith,
    Holds-below h n (record (h n) { done = true }) (suc p) hi a.next ns s.3 (ground arith) hd.1,
  )
  | inr e ↦ rw e (ground arith, Holds-mark h n (suc p) hi a.next ns s.3 hd.1)
]

-- Marking keeps the links, the keys and the head.
pub Seg-mark :
    (n lo hi : ℕ) (o : Option ℕ) (ns : Cells) → Seg lo hi o ns → Seg lo hi o (mark_cell n ns)
Seg-mark n lo hi o [] s = s
Seg-mark n lo hi o ((p, a) ∷ ns) s = elim (Bool-cases (p == n)) [
  | inl e ↦ rw e s
  | inr e ↦ rw e (s.0, s.1, s.2, Seg-mark n (suc p) hi a.next ns s.3)
]

pub find-mark : (k : String) (n : ℕ) (ns : Cells) → find k (mark_cell n ns) ≡ find k ns
find-mark k n [] = refl
find-mark k n ((p, a) ∷ ns) = ground (arith, find-mark k n ns)

pub Distinct-mark : (n : ℕ) (ns : Cells) → Distinct ns → Distinct (mark_cell n ns)
Distinct-mark n [] d = tt
Distinct-mark n ((p, a) ∷ ns) d = elim (Bool-cases (p == n)) [
  | inl e ↦ rw e d
  | inr e ↦ rw e (find-mark (key a) n ns ∙ d.0, Distinct-mark n ns d.1)
]

pub Rest-mark : (n : ℕ) (ns : Cells) → Rest ns → Rest (mark_cell n ns)
Rest-mark n [] r = tt
Rest-mark n ((p, a) ∷ ns) r = elim (Bool-cases (p == n)) [
  | inl e ↦ rw e r
  | inr e ↦ rw e (r.0, Rest-mark n ns r.1)
]

pub Firsts-mark : (n : ℕ) (ns : Cells) → Firsts ns → Firsts (mark_cell n ns)
Firsts-mark n [] r = tt
Firsts-mark n ((p, a) ∷ ns) r = elim (Bool-cases (p == n)) [
  | inl e ↦ rw e r
  | inr e ↦ rw e (r.0, Rest-mark n ns r.1)
]

pub last-mark : (n : ℕ) (ns : Cells) → last (mark_cell n ns) ≡ last ns
last-mark n [] = refl
last-mark n ((p, a) ∷ []) = ground arith
last-mark n ((p, a) ∷ (q, b) ∷ ns) = elim (Bool-cases (p == n)) [
  | inl e ↦ rw e refl
  | inr e ↦ rw e (last_behind n p a q b ns ∙ last-mark n ((q, b) ∷ ns))
]

-- The address that the map knows for a key holds the entry of that key.
pub view-mark :
    (k : String) (n lo hi : ℕ) (o : Option ℕ) (ns : Cells)
    → Seg lo hi o ns
    → find k ns ≡ some n
    → view (mark_cell n ns) ≡ mark_entry k (view ns)
view-mark k n lo hi o [] s f = refl
view-mark k n lo hi o ((p, a) ∷ ns) s f =
    ground (arith, find_above k n (suc p) hi a.next ns s.3, view-mark k n (suc p) hi a.next ns s.3)

pub has-view : (k : String) (ns : Cells) → has k (view ns) ≡ is_some (find k ns)
has-view k [] = refl
has-view k ((p, a) ∷ ns) = ground (arith, has-view k ns)
