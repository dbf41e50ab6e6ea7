-- ===== src/Ack/Drain.antt =====
-- `ackLoop` releases the acked prefix of the chain, and hands its last state to persistence.
use loggie.Prelude.{
  ℕ, zero, suc, ◌+◌, ◌≤◌, ◌<◌, ◌≡◌, refl, ap, ◌∙◌, true, false, Option, none, some, List, [], ◌∷◌,
  String, lookup, delete, lookup-delete, str_eq, eq_iff, eq_refl, if◌then◌else◌, arith, Bool-cases,
  inl, inr,
}
use loggie.Value.{State}
use loggie.Ack.{Ack, JobAckChain, update, key, unlink, ack_loop}
use loggie.Ack.Spec.{Entry, release}
use loggie.Ack.Cells.{Cells, Holds, Seg, last, find, Distinct, Rest, view, Holds-below}
use loggie.Ack.Rep.{Refines, last-some, last-head}

-- Inside `ackLoop`: the nodes from `o` on are left, and none of them is marked `first`.
pub record LoopRep (ac : JobAckChain) (lo : ℕ) (o : Option ℕ) (ns : Cells) : Type 0 where
  pub holds : Holds ac.heap ns
  pub linked : Seg lo ac.fresh o ns
  pub ends : ac.tail ≡ last ns
  pub indexed : (k : String) → lookup k ac.all_ack ≡ find k ns
  pub distinct : Distinct ns
  pub rest : Rest ns

last-key :
    (h : ℕ → Ack) (k : String) (t : ℕ) (ns : Cells)
    → Holds h ns
    → last ns ≡ some t
    → find k ns ≡ none
    → str_eq (key (h t)) k ≡ false
last-key h k t [] hd l f = cc
last-key h k t ((p, a) ∷ []) hd l f = ground arith
last-key h k t ((p, a) ∷ (q, b) ∷ ns) hd l f = last-key h k t ((q, b) ∷ ns) hd.1 l (ground arith)

abbrev pub unlinked : ℕ → ℕ → JobAckChain → JobAckChain
unlinked t n ac = record ac {
  tail = if str_eq (key (ac.heap t)) (key (ac.heap n)) then none else some t;
  all_ack = delete (key (ac.heap n)) ac.all_ack;
  heap = update ac.heap n (record (ac.heap n) { next = none });
}

pub unlink_lem :
    (ac : JobAckChain) (n t : ℕ) → ac.tail ≡ some t → unlink n ac ≡ some (unlinked t n ac)
unfolding unlink
unlink_lem ac n t e = ground arith

unlinked-ends :
    (ac : JobAckChain) (t n : ℕ) (a : Ack) (ns : Cells)
    → Holds ac.heap ((n, a) ∷ ns)
    → last ((n, a) ∷ ns) ≡ some t
    → find (key a) ns ≡ none
    → (unlinked t n ac).tail ≡ last ns
unlinked-ends ac t n a [] hd l f = ground (arith, eq_refl (key a))
unlinked-ends ac t n a ((q, b) ∷ ns) hd l f =
    ground (arith, last-key ac.heap (key a) t ((q, b) ∷ ns) hd.1 l f)

unlinked-lookup :
    (ac : JobAckChain) (t n : ℕ) (a : Ack) (ns : Cells) (k : String)
    → ac.heap n ≡ a
    → lookup k ac.all_ack ≡ find k ((n, a) ∷ ns)
    → find (key a) ns ≡ none
    → lookup k (unlinked t n ac).all_ack ≡ find k ns
unlinked-lookup ac t n a ns k e x d =
    rw (e, lookup-delete (key a) k ac.all_ack) (ground (arith, eq_iff (key a) k))

pub unlinked-LoopRep :
    (ac : JobAckChain) (t n lo : ℕ) (o : Option ℕ) (a : Ack) (ns : Cells)
    → Holds ac.heap ((n, a) ∷ ns)
    → Seg lo ac.fresh o ((n, a) ∷ ns)
    → last ((n, a) ∷ ns) ≡ some t
    → ((k : String) → lookup k ac.all_ack ≡ find k ((n, a) ∷ ns))
    → Distinct ((n, a) ∷ ns)
    → Rest ns
    → LoopRep (unlinked t n ac) (suc n) a.next ns
unlinked-LoopRep ac t n lo o a ns hd s l x d r = record {
  holds =
      Holds-below ac.heap n (record (ac.heap n) { next = none }) (suc n) ac.fresh a.next ns s.3
        (omega arith) hd.1;
  linked = s.3;
  ends = unlinked-ends ac t n a ns hd l d.0;
  indexed = λ k. unlinked-lookup ac t n a ns k hd.0 (x k) d.0;
  distinct = d.1;
  rest = r;
}

pub loop_step :
    (ac ac' : JobAckChain) (f n : ℕ) (a : Ack) (o : Option ℕ) (prev : State)
    → o ≡ some n
    → ac.heap n ≡ a
    → a.done ≡ true
    → unlink n ac ≡ some ac'
    → ack_loop (suc f) o prev ac ≡ ack_loop f a.next a.state ac'
unfolding ack_loop
loop_step ac ac' f n a o prev e h d u = ground arith

loop_stop :
    (ac : JobAckChain) (f n : ℕ) (a : Ack) (o : Option ℕ) (prev : State)
    → o ≡ some n
    → ac.heap n ≡ a
    → a.done ≡ false
    → ack_loop (suc f) o prev ac
      ≡ some (record ac {
        heap = update ac.heap n (record a { first = true });
        persisted = prev ∷ ac.persisted;
      })
unfolding ack_loop
loop_stop ac f n a o prev e h d = ground arith

loop_end :
    (ac : JobAckChain) (f : ℕ) (o : Option ℕ) (prev : State)
    → o ≡ none
    → ack_loop (suc f) o prev ac ≡ some (record ac { persisted = prev ∷ ac.persisted })
unfolding ack_loop
loop_end ac f o prev e = rw e refl

-- What `ackLoop` returns: a chain without the acked prefix `r.0`, and `r.1` handed to persistence.
pub record Settled (ac : JobAckChain) (res : Option JobAckChain) (r : List Entry × State)
    : Type 0 where
  pub after : JobAckChain
  pub returns : res ≡ some after
  pub refines : Refines after r.0
  pub logged : after.persisted ≡ r.1 ∷ ac.persisted
  pub same_epoch : after.epoch ≡ ac.epoch
  pub same_uid : after.job_watch_uid ≡ ac.job_watch_uid

stop-Refines :
    (ac : JobAckChain) (p lo : ℕ) (o : Option ℕ) (a : Ack) (ns : Cells) (prev : State)
    → Holds ac.heap ((p, a) ∷ ns)
    → Seg lo ac.fresh o ((p, a) ∷ ns)
    → ac.tail ≡ last ((p, a) ∷ ns)
    → ((k : String) → lookup k ac.all_ack ≡ find k ((p, a) ∷ ns))
    → Distinct ((p, a) ∷ ns)
    → Rest ((p, a) ∷ ns)
    → a.done ≡ false
    → Refines
        (record ac {
          heap = update ac.heap p (record a { first = true });
          persisted = prev ∷ ac.persisted;
        })
        ((a.state, false) ∷ view ns)
stop-Refines ac p lo o a ns prev hd s l x d r open_head = record {
  cells = (p, record a { first = true }) ∷ ns;
  rep = record {
    holds = (
      ground arith,
      Holds-below ac.heap p (record a { first = true }) (suc p) ac.fresh a.next ns s.3 (omega arith)
          hd.1,
    );
    linked = (refl, omega arith, s.2, s.3);
    ends = l ∙ last-head p a (record a { first = true }) ns;
    indexed = x;
    distinct = d;
    firsts = (refl, r.1);
  };
  viewed = ap (λ b. (a.state, b) ∷ view ns) open_head;
  head_open = refl;
}

pub ack_loop-Settled :
    (ns : Cells) (ac : JobAckChain) (f lo : ℕ) (o : Option ℕ) (prev : State)
    → lo ≤ ac.fresh
    → ac.fresh < lo + f
    → LoopRep ac lo o ns
    → Settled ac (ack_loop f o prev ac) (release prev (view ns))
ack_loop-Settled ns ac zero lo o prev le lt r = absurd (omega arith)
ack_loop-Settled [] ac (suc f) lo o prev le lt r = record {
  after = record ac { persisted = prev ∷ ac.persisted };
  returns = loop_end ac f o prev r.linked;
  refines = record {
    cells = [];
    rep = record {
      holds = tt;
      linked = refl;
      ends = r.ends;
      indexed = r.indexed;
      distinct = tt;
      firsts = tt;
    };
    viewed = refl;
    head_open = tt;
  };
  logged = refl;
  same_epoch = refl;
  same_uid = refl;
}
ack_loop-Settled ((p, a) ∷ ns) ac (suc f) lo o prev le lt r = elim (Bool-cases a.done) [
  | inl d ↦ rw d (
      let (t, l) = last-some p a ns in
      let rest =
        ack_loop-Settled ns (unlinked t p ac) f (suc p) a.next a.state (omega arith) (omega arith)
          (unlinked-LoopRep ac t p lo o a ns r.holds r.linked l r.indexed r.distinct r.rest.1) in
      record {
        after = rest.after;
        returns =
            loop_step ac (unlinked t p ac) f p a o prev r.linked.0 r.holds.0 d
              (unlink_lem ac p t (r.ends ∙ l))
            ∙ rest.returns;
        refines = rest.refines;
        logged = rest.logged;
        same_epoch = rest.same_epoch;
        same_uid = rest.same_uid;
      })
  | inr d ↦ rw d (record {
    after = record ac {
      heap = update ac.heap p (record a { first = true });
      persisted = prev ∷ ac.persisted;
    };
    returns = loop_stop ac f p a o prev r.linked.0 r.holds.0 d;
    refines =
        stop-Refines ac p lo o a ns prev r.holds r.linked r.ends r.indexed r.distinct r.rest d;
    logged = refl;
    same_epoch = refl;
    same_uid = refl;
  })
]
