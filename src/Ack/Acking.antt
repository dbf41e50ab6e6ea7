-- ===== src/Ack/Acking.antt =====
-- `Ack` implements the queue's: mark an entry, and release the marked prefix.
use loggie.Prelude.{
  ℕ, suc, ◌≡◌, refl, sym, ◌∙◌, true, false, Option, none, some, List, [], ◌∷◌, String, lookup,
  str_eq, arith, Bool-cases, Option-cases, inl, inr,
}
use loggie.Value.{State, epoch_equal}
use loggie.Ack.{Ack, JobAckChain, update, key, mark, ack, ack_loop}
use loggie.Ack.Spec.{Entry, mark_entry, settle, spec_ack, HeadOpen}
use loggie.Ack.Cells.{
  Cells, Holds, Seg, find, Rest, view, Holds-below, mark_cell, Holds-mark, Seg-mark, find-mark,
  Distinct-mark, Firsts-mark, last-mark, view-mark,
}
use loggie.Ack.Rep.{Refines, Rep, head_address, last-some, last-head}
use loggie.Ack.Drain.{unlinked, unlink_lem, unlinked-LoopRep, loop_step, ack_loop-Settled}

-- What `Ack` returns: always a chain, which stands for the queue `r.0`, and has logged `r.1`.
pub record Acked (ac : JobAckChain) (res : Option JobAckChain) (r : List Entry × List State)
    : Type 0 where
  pub after : JobAckChain
  pub returns : res ≡ some after
  pub refines : Refines after r.0
  pub logged : after.persisted ≡ r.1
  pub same_epoch : after.epoch ≡ ac.epoch
  pub same_uid : after.job_watch_uid ≡ ac.job_watch_uid

abbrev marked : ℕ → JobAckChain → JobAckChain
marked n ac = record ac { heap = update ac.heap n (record (ac.heap n) { done = true }) }

ack-mark :
    (ac : JobAckChain) (s : State) (n : ℕ)
    → epoch_equal ac.epoch s.epoch ≡ true
    → lookup s.event_uid ac.all_ack ≡ some n
    → ack ac s ≡ mark n ac
unfolding ack
ack-mark ac s n e l = ground arith

mark_first :
    (ac : JobAckChain) (n : ℕ)
    → (ac.heap n).first ≡ true
    → mark n ac ≡ ack_loop (suc (suc ac.fresh)) (some n) (ac.heap n).state (marked n ac)
unfolding mark
mark_first ac n e = rw e refl

mark_later : (ac : JobAckChain) (n : ℕ) → (ac.heap n).first ≡ false → mark n ac ≡ some (marked n ac)
unfolding mark
mark_later ac n e = rw e refl

marked_head :
    (ac : JobAckChain) (p : ℕ) (a : Ack) (ns : Cells)
    → Rep ac ((p, a) ∷ ns)
    → Holds (marked p ac).heap ((p, record a { done = true }) ∷ ns)
marked_head ac p a ns r = (
  ground (arith, r.holds.0),
  Holds-below ac.heap p (record (ac.heap p) { done = true }) (suc p) ac.fresh a.next ns r.linked.3
      (omega arith) r.holds.1,
)

ack_head :
    (ac : JobAckChain) (s : State) (p : ℕ) (a : Ack) (ns : Cells)
    → epoch_equal ac.epoch s.epoch ≡ true
    → str_eq (key a) s.event_uid ≡ true
    → Rep ac ((p, a) ∷ ns)
    → Acked ac (ack ac s) (settle ((a.state, true) ∷ view ns) ac.persisted)
ack_head ac s p a ns e f r =
    let b : Ack = record a { done = true } in
    let (t, l) = last-some p b ns in
    let hd : Holds (marked p ac).heap ((p, b) ∷ ns) = marked_head ac p a ns r in
    let sg : Seg 0 ac.fresh (some p) ((p, b) ∷ ns) = (refl, omega arith, r.linked.2, r.linked.3) in
    let rest =
      ack_loop-Settled ns (unlinked t p (marked p ac)) (suc ac.fresh) (suc p) a.next a.state
        (omega arith) (omega arith)
        (unlinked-LoopRep (marked p ac) t p 0 (some p) b ns hd sg l r.indexed r.distinct
          r.firsts.1) in
    record {
      after = rest.after;
      returns =
          ack-mark ac s p e (r.indexed s.event_uid ∙ ground arith)
          ∙ mark_first ac p (ground arith)
          ∙ loop_step (marked p ac) (unlinked t p (marked p ac)) (suc ac.fresh) p b (some p)
              (ac.heap p).state refl hd.0 refl
              (unlink_lem (marked p ac) p t (r.ends ∙ last-head p a b ns ∙ l))
          ∙ rest.returns;
      refines = rest.refines;
      logged = rest.logged;
      same_epoch = rest.same_epoch;
      same_uid = rest.same_uid;
    }

rest_first :
    (h : ℕ → Ack) (k : String) (n : ℕ) (ns : Cells)
    → Holds h ns
    → Rest ns
    → find k ns ≡ some n
    → (h n).first ≡ false
rest_first h k n [] hd r f = cc
rest_first h k n ((p, a) ∷ ns) hd r f = ground (arith, rest_first h k n ns hd.1 r.1)

head_address-mark : (n : ℕ) (ns : Cells) → head_address (mark_cell n ns) ≡ head_address ns
head_address-mark n [] = refl
head_address-mark n ((p, a) ∷ ns) = ground arith

marked-Rep :
    (ac : JobAckChain) (n : ℕ) (ns : Cells) → Rep ac ns → Rep (marked n ac) (mark_cell n ns)
marked-Rep ac n ns r = record {
  holds = Holds-mark ac.heap n 0 ac.fresh (head_address ns) ns r.linked r.holds;
  linked = rw (head_address-mark n ns) (Seg-mark n 0 ac.fresh (head_address ns) ns r.linked);
  ends = r.ends ∙ sym (last-mark n ns);
  indexed = λ k. r.indexed k ∙ sym (find-mark k n ns);
  distinct = Distinct-mark n ns r.distinct;
  firsts = Firsts-mark n ns r.firsts;
}

ack_behind :
    (ac : JobAckChain) (s : State) (n p : ℕ) (a : Ack) (ns : Cells)
    → epoch_equal ac.epoch s.epoch ≡ true
    → str_eq (key a) s.event_uid ≡ false
    → find s.event_uid ns ≡ some n
    → a.done ≡ false
    → Rep ac ((p, a) ∷ ns)
    → Acked ac (ack ac s) ((a.state, false) ∷ mark_entry s.event_uid (view ns), ac.persisted)
ack_behind ac s n p a ns e f g d r = record {
  after = marked n ac;
  returns =
      ack-mark ac s n e (r.indexed s.event_uid ∙ ground arith)
      ∙ mark_later ac n (rest_first ac.heap s.event_uid n ns r.holds.1 r.firsts.1 g);
  refines = record {
    cells = mark_cell n ((p, a) ∷ ns);
    rep = marked-Rep ac n ((p, a) ∷ ns) r;
    viewed =
        view-mark s.event_uid n 0 ac.fresh (some p) ((p, a) ∷ ns) r.linked (ground arith)
        ∙ ground arith;
    head_open = refl;
  };
  logged = refl;
  same_epoch = refl;
  same_uid = refl;
}

unknown_ack :
    (ac : JobAckChain) (s : State) → lookup s.event_uid ac.all_ack ≡ none → ack ac s ≡ some ac
unfolding ack
unknown_ack ac s e = ground arith

mark_absent : (k : String) (ns : Cells) → find k ns ≡ none → mark_entry k (view ns) ≡ view ns
mark_absent k [] f = refl
mark_absent k ((p, a) ∷ ns) f = ground (arith, mark_absent k ns)

settle_open : (q : List Entry) (log : List State) → HeadOpen q → settle q log ≡ (q, log)
settle_open [] log h = refl
settle_open ((s, d) ∷ q) log h = rw h refl

ack_found :
    (ac : JobAckChain) (s : State) (n : ℕ) (ns : Cells)
    → epoch_equal ac.epoch s.epoch ≡ true
    → find s.event_uid ns ≡ some n
    → HeadOpen (view ns)
    → Rep ac ns
    → Acked ac (ack ac s) (spec_ack s.event_uid (view ns) ac.persisted)
ack_found ac s n [] e f h r = cc
ack_found ac s n ((p, a) ∷ ns) e f h r = elim (Bool-cases (str_eq (key a) s.event_uid)) [
  | inl g ↦ rw g (ack_head ac s p a ns e g r)
  | inr g ↦ rw (g, h) (ack_behind ac s n p a ns e g (ground arith) h r)
]

ack_cells :
    (ac : JobAckChain) (s : State) (ns : Cells)
    → epoch_equal ac.epoch s.epoch ≡ true
    → HeadOpen (view ns)
    → Rep ac ns
    → Acked ac (ack ac s) (spec_ack s.event_uid (view ns) ac.persisted)
ack_cells ac s ns e h r = elim (Option-cases (find s.event_uid ns)) [
  | inl f ↦
      rw (mark_absent s.event_uid ns f, settle_open (view ns) ac.persisted h)
        (record {
          after = ac;
          returns = unknown_ack ac s (r.indexed s.event_uid ∙ f);
          refines = record { cells = ns; rep = r; viewed = refl; head_open = h };
          logged = refl;
          same_epoch = refl;
          same_uid = refl;
        })
  | inr (n, f) ↦ ack_found ac s n ns e f h r
]

-- `Ack` of a state of the chain's epoch always returns: `ackLoop` ends and meets no nil pointer.
-- It implements the queue's operation: the entry with that event uid is marked; if the oldest
-- entry then is marked, the whole marked prefix leaves the chain, and persistence is handed
-- exactly one state, the last one of that prefix.
pub ack-Acked :
    (ac : JobAckChain) (s : State) (q : List Entry)
    → epoch_equal ac.epoch s.epoch ≡ true
    → Refines ac q
    → Acked ac (ack ac s) (spec_ack s.event_uid q ac.persisted)
ack-Acked ac s q e v = rw (← v.viewed) (ack_cells ac s v.cells e (rw v.viewed v.head_open) v.rep)
