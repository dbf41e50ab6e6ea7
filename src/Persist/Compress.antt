-- ===== src/Persist/Compress.antt =====
-- What the compression of the buffered states keeps (pkg/util/persistence/persistence.go).
use loggie.Prelude.{
  subst, lookup-insert_miss, str_eq_sym, ◌≡◌, refl, sym, ap, ◌∙◌, if◌then◌else◌, Option, none, some,
  List, [], ◌∷◌, String, str_eq, eq_iff, ltb, Dict, lookup, insert, lookup-insert, Bool-cases, inl,
  inr,
}
use loggie.Value.{State}
use loggie.Persist.Handler.{CompressStatPair, widen, compress_into, compress_stats, values}

-- The states of one job.
unfoldable pub states_of : String → List State → List State
states_of uid [] = []
states_of uid (s ∷ ss) =
    let more = states_of uid ss in if str_eq s.watch_uid uid then s ∷ more else more

-- The state that reaches furthest, the first of those that do: what the code means to keep.
unfoldable pub furthest : Option State → List State → Option State
furthest best [] = best
furthest none (s ∷ ss) = furthest (some s) ss
furthest (some b) (s ∷ ss) = furthest (some (if ltb b.offset s.offset then s else b)) ss

abbrev pub last_of : Option CompressStatPair → Option State
last_of none = none
last_of (some cs) = some cs.last

widen-furthest :
    (o : Option CompressStatPair) (s : State) (ss : List State)
    → furthest (last_of (some (widen s o))) ss ≡ furthest (last_of o) (s ∷ ss)
unfolding furthest
widen-furthest none s ss = refl
widen-furthest (some cs) s ss = refl

compress_into-furthest :
    (uid : String) (ss : List State) (m : Dict CompressStatPair)
    → last_of (lookup uid (compress_into ss m))
      ≡ furthest (last_of (lookup uid m)) (states_of uid ss)
unfolding compress_into states_of furthest
compress_into-furthest uid [] m = refl
compress_into-furthest uid (s ∷ ss) m =
    let next = insert s.watch_uid (widen s (lookup s.watch_uid m)) m in
    let deeper = compress_into-furthest uid ss next in
    let here = lookup-insert s.watch_uid uid (widen s (lookup s.watch_uid m)) m in
    elim (Bool-cases (str_eq s.watch_uid uid)) [
      | inr e ↦
          let at : lookup uid next ≡ lookup uid m = here ∙ simp e refl in
          simp e (deeper ∙ ap (λ o. furthest (last_of o) (states_of uid ss)) at)
      | inl e ↦
          let same : s.watch_uid ≡ uid = (eq_iff s.watch_uid uid).0 e in
          let at : lookup uid next ≡ some (widen s (lookup s.watch_uid m)) = here ∙ simp e refl in
          simp e (
            deeper
            ∙ ap (λ o. furthest (last_of o) (states_of uid ss)) at
            ∙ widen-furthest (lookup s.watch_uid m) s (states_of uid ss)
            ∙ ap (λ u. furthest (last_of (lookup u m)) (s ∷ states_of uid ss)) same)
    ]

-- No key has two entries.
unfoldable pub Once : Dict CompressStatPair → Type 0
unfolding lookup
Once [] = Unit
Once ((k, cs) ∷ m) = (lookup k m ≡ none) × Once m

insert-Once :
    (k : String) (cs : CompressStatPair) (m : Dict CompressStatPair) → Once m → Once (insert k cs m)
unfolding Once insert lookup
insert-Once k cs [] h = (refl, tt)
insert-Once k cs ((j, x) ∷ m) h = elim (Bool-cases (str_eq j k)) [
  | inl e ↦ let same = (eq_iff j k).0 e in simp e (subst (λ u. lookup u m ≡ none) same h.0, h.1)
  | inr e ↦ simp e (lookup-insert_miss k j m cs (str_eq_sym k j ∙ e) ∙ h.0, insert-Once k cs m h.1)
]

compress_into-Once :
    (ss : List State) (m : Dict CompressStatPair) → Once m → Once (compress_into ss m)
unfolding compress_into
compress_into-Once [] m h = h
compress_into-Once (s ∷ ss) m h = compress_into-Once ss _ (insert-Once s.watch_uid _ m h)

pub record Compressed (order : List CompressStatPair → List CompressStatPair) (ss : List State)
    : Type 0 where
  pub entries : Dict CompressStatPair
  pub visited : compress_stats order ss ≡ order (values entries)
  pub once : Once entries
  pub kept : (uid : String) → last_of (lookup uid entries) ≡ furthest none (states_of uid ss)

-- However the states of many jobs are mixed in a buffer, the runtime visits one entry for each job
-- that has a state there, in an order of its own: that of the state of the job that reaches
-- furthest, the first of those that do, as it would be with its states alone. No job has a second
-- entry, and a job without a state has none. A buffer with one state is treated apart, which makes
-- no difference: the runtime visits one entry in one order only.
pub compress_stats-Compressed :
    (order : List CompressStatPair → List CompressStatPair) (ss : List State)
    → ((cs : CompressStatPair) → order (cs ∷ []) ≡ cs ∷ [])
    → Compressed order ss
unfolding compress_stats compress_into lookup insert Once
compress_stats-Compressed order ss one = record {
  entries = compress_into ss [];
  visited = visits ss;
  once = compress_into-Once ss [] tt;
  kept = λ uid. compress_into-furthest uid ss [];
}
  where
    visits : (ss : List State) → compress_stats order ss ≡ order (values (compress_into ss []))
    visits [] = refl
    visits (s ∷ []) = sym (one (record { first = s; last = s }))
    visits (s ∷ t ∷ ss) = refl
