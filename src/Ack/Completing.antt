-- ===== src/Ack/Completing.antt =====
-- Once every event is acked the chain is empty and the checkpoint is at the last event, in whatever
-- order the acks come.
use mathlib.Core.List.{append-nil}
use loggie.Prelude.{
  ◌≡◌, refl, sym, ap, ◌∙◌, true, false, ◌||◌, Option, some, List, [], ◌∷◌, ◌++◌, String, str_eq,
  str_eq_sym, eq_iff, All, arith, subst, Bool-cases, Option-cases, inl, inr,
}
use loggie.Value.{Epoch, State, epoch_equal}
use loggie.Ack.{JobAckChain, new_job_ack_chain, is_empty}
use loggie.Ack.Spec.{Entry, has, mark_entry, release, settle, spec_ack, HeadOpen}
use loggie.Ack.Cells.{Cells, last, view}
use loggie.Ack.Rep.{Refines}
use loggie.Ack.Acking.{ack-Acked}
use loggie.Ack.History.{
  Op, acks, step, run, appended, acked, mem, uids, Unique, states, last?, newest,
}
use loggie.Ack.Ledger.{AllIn, Ledger, ack-Ledger, has-states, states-mark}
use loggie.Ack.Runs.{run_on, run_checkpoint}

-- The entries of the queue are different, and each is marked or still to be acked by `ks`.
abbrev Waits : List String → List Entry → Type 0
Waits ks [] = Unit
Waits ks ((s, d) ∷ q) =
    ((d || mem s.event_uid ks) ≡ true) × (has s.event_uid q ≡ false) × Waits ks q

release-Waits :
    (ks : List String) (q : List Entry) (s : State) → Waits ks q → Waits ks (release s q).0
release-Waits ks [] s w = w
release-Waits ks ((t, false) ∷ q) s w = w
release-Waits ks ((t, true) ∷ q) s w = release-Waits ks q t w.2

settle-Waits :
    (ks : List String) (q : List Entry) (log : List State) → Waits ks q → Waits ks (settle q log).0
settle-Waits ks [] log w = w
settle-Waits ks ((s, false) ∷ q) log w = w
settle-Waits ks ((s, true) ∷ q) log w = release-Waits ks q s w.2

has-mark : (j k : String) (q : List Entry) → has j (mark_entry k q) ≡ has j q
has-mark j k q =
    has-states j (mark_entry k q)
    ∙ ap (λ ss. mem j (uids ss)) (states-mark k q)
    ∙ sym (has-states j q)

other-Waits :
    (k : String) (ks : List String) (q : List Entry)
    → has k q ≡ false
    → Waits (k ∷ ks) q
    → Waits ks q
other-Waits k ks [] f w = w
other-Waits k ks ((s, d) ∷ q) f (h, g, w) =
    (ground (arith, str_eq_sym k s.event_uid), g, other-Waits k ks q (ground arith) w)

mark-Waits :
    (k : String) (ks : List String) (q : List Entry) → Waits (k ∷ ks) q → Waits ks (mark_entry k q)
mark-Waits k ks [] w = w
mark-Waits k ks ((s, d) ∷ q) (h, g, w) = elim (Bool-cases (str_eq s.event_uid k)) [
  | inl e ↦ rw e (refl, g, other-Waits k ks q (ground (arith, eq_iff s.event_uid k)) w)
  | inr e ↦
      rw e (
        ground (arith, str_eq_sym k s.event_uid),
        has-mark s.event_uid k q ∙ g,
        mark-Waits k ks q w,
      )
]

none_left : (q : List Entry) → HeadOpen q → Waits [] q → q ≡ []
none_left [] h w = refl
none_left ((s, d) ∷ q) h w = ground (arith, h, w.0)

covered-Waits :
    (ks : List String) (q : List Entry)
    → Unique (uids (states q))
    → AllIn ks (states q)
    → Waits ks q
covered-Waits ks [] u a = tt
covered-Waits ks ((s, d) ∷ q) u a =
    (ground (arith, a.0), has-states s.event_uid q ∙ u.0, covered-Waits ks q u.1 a.1)

-- The rest of a history, behind what has left the chain.
rest-Unique : (ss ts : List State) → Unique (uids (ss ++ ts)) → Unique (uids ts)
rest-Unique [] ts u = u
rest-Unique (s ∷ ss) ts u = rest-Unique ss ts u.1

rest-AllIn : (ks : List String) (ss ts : List State) → AllIn ks (ss ++ ts) → AllIn ks ts
rest-AllIn ks [] ts a = a
rest-AllIn ks (s ∷ ss) ts a = rest-AllIn ks ss ts a.1

no_cells : (ac : JobAckChain) (ns : Cells) → view ns ≡ [] → ac.tail ≡ last ns → is_empty ac ≡ true
unfolding is_empty
no_cells ac [] v e = rw e refl
no_cells ac (n ∷ ns) v e = cc

-- The calls return, and leave an empty chain, whose checkpoint is the last of `past`.
pub record Drained (res : Option JobAckChain) (past : List State) : Type 0 where
  pub after : JobAckChain
  pub returns : res ≡ some after
  pub empty : is_empty after ≡ true
  pub checkpoint : newest after.persisted ≡ last? past

abbrev pub acks_of : List State → List Op
acks_of [] = []
acks_of (s ∷ ss) = acks s ∷ acks_of ss

abbrev pub InEpoch : Epoch → List State → Type 0
InEpoch e = All (λ s. epoch_equal e s.epoch ≡ true)

settled-Drained :
    (past : List State) (ks : List String) (q : List Entry) (ac : JobAckChain)
    → Refines ac q
    → Ledger past ks q ac.persisted
    → q ≡ []
    → Drained (some ac) past
settled-Drained past ks q ac r v e = record {
  after = ac;
  returns = refl;
  empty = no_cells ac r.cells (r.viewed ∙ e) r.rep.ends;
  checkpoint =
      v.checkpoint
      ∙ ap last? (sym (v.split ∙ ap (λ p. v.released ++ states p) e ∙ append-nil v.released));
}

acks-Drained :
    (e : Epoch) (ss past : List State) (ks : List String) (q : List Entry) (ac : JobAckChain)
    → ac.epoch ≡ e
    → InEpoch e ss
    → Waits (uids ss) q
    → Refines ac q
    → Ledger past ks q ac.persisted
    → Drained (run ac (acks_of ss)) past
unfolding run step
acks-Drained e [] past ks q ac same i w r v =
    settled-Drained past ks q ac r v (none_left q r.head_open w)
acks-Drained e (s ∷ ss) past ks q ac same i w r v =
    let a = ack-Acked ac s q (rw same i.0) r in
    rw (run_on (acks s) (acks_of ss) ac a.after a.returns) (
      acks-Drained e ss past (ks ++ s.event_uid ∷ []) (spec_ack s.event_uid q ac.persisted).0
        a.after (a.same_epoch ∙ same) i.1
        (settle-Waits (uids ss) (mark_entry s.event_uid q) ac.persisted
          (mark-Waits s.event_uid (uids ss) q w))
        a.refines (rw a.logged (ack-Ledger past ks q ac.persisted s.event_uid v)))

run-append :
    (ops ms : List Op) (ac after : JobAckChain)
    → run ac ops ≡ some after
    → run ac (ops ++ ms) ≡ run after ms
unfolding run
run-append [] ms ac after e = ground arith
run-append (op ∷ ops) ms ac after e = elim (Option-cases (step ac op)) [
  | inl f ↦ absurd (ground (arith, e, f))
  | inr (next, f) ↦
      run_on op (ops ++ ms) ac next f
      ∙ run-append ops ms next after (sym (run_on op ops ac next f) ∙ e)
]

-- From a new chain, let any history of `Append` and `Ack` calls in which no event uid of the
-- chain's epoch is appended twice be followed by acks of the chain's epoch, in any order and
-- repeated at will, with one for every event uid that was appended: every call returns, the chain
-- is empty then, and the newest state that persistence was handed is the last one appended.
pub run_drains :
    (e : Epoch) (pipeline source uid : String) (ops : List Op) (ss : List State)
    → Unique (uids (appended e ops))
    → InEpoch e ss
    → AllIn (uids ss) (appended e ops)
    → Drained (run (new_job_ack_chain e pipeline source uid) (ops ++ acks_of ss)) (appended e ops)
run_drains e pipeline source uid ops ss u i a =
    let c = run_checkpoint e pipeline source uid ops u in
    let t = c.tracks in
    let v = t.ledger in
    rw (run-append ops (acks_of ss) (new_job_ack_chain e pipeline source uid) c.after c.returns) (
      acks-Drained e ss (appended e ops) (acked e ops) t.queue c.after c.same_epoch i
        (covered-Waits (uids ss) t.queue
          (rest-Unique v.released (states t.queue) (subst (λ ps. Unique (uids ps)) v.split u))
          (rest-AllIn (uids ss) v.released (states t.queue) (subst (AllIn (uids ss)) v.split a)))
        t.refines v)
