-- ===== src/Ack/Rep.antt =====
-- The heap nodes of a `JobAckChain` represent a queue of entries (Ack/Spec.antt), and `Append`
-- and `Ack` implement its operations.
use loggie.Prelude.{
  ℕ, ◌≡◌, refl, sym, ◌∙◌, true, false, Option, none, some, List, [], ◌∷◌, ◌++◌, String, lookup,
  lookup-insert, arith, Option-cases, inl, inr,
}
use loggie.Value.{State, epoch_equal}
use loggie.Ack.{Ack, JobAckChain, update, new_ack_with, link, append}
use loggie.Ack.Spec.{Entry, spec_append, HeadOpen}
use loggie.Ack.Cells.{Cells, Holds, Seg, last, find, Distinct, Firsts, view, Holds-above, has-view}
use loggie.Ack.Links.{
  snoc, Holds-snoc, Seg-snoc, last-snoc, find-snoc, Distinct-snoc, Firsts-snoc, view-snoc,
}

abbrev pub head_address : Cells → Option ℕ
head_address [] = none
head_address ((p, a) ∷ ns) = some p

head_address-snoc :
    (p : ℕ) (a : Ack) (ns : Cells) (q : ℕ) (b : Ack)
    → head_address (snoc ((p, a) ∷ ns) q b) ≡ some p
head_address-snoc p a [] q b = refl
head_address-snoc p a (c ∷ ns) q b = refl

pub record Rep (ac : JobAckChain) (ns : Cells) : Type 0 where
  pub holds : Holds ac.heap ns
  pub linked : Seg 0 ac.fresh (head_address ns) ns
  pub ends : ac.tail ≡ last ns
  pub indexed : (k : String) → lookup k ac.all_ack ≡ find k ns
  pub distinct : Distinct ns
  pub firsts : Firsts ns

-- The chain stands for the queue `q`.
pub record Refines (ac : JobAckChain) (q : List Entry) : Type 0 where
  pub cells : Cells
  pub rep : Rep ac cells
  pub viewed : view cells ≡ q
  pub head_open : HeadOpen q

pub last-some : (p : ℕ) (a : Ack) (ns : Cells) → (t : ℕ) × (last ((p, a) ∷ ns) ≡ some t)
last-some p a [] = (p, refl)
last-some p a ((q, b) ∷ ns) = last-some q b ns

pub last-head : (p : ℕ) (a b : Ack) (ns : Cells) → last ((p, a) ∷ ns) ≡ last ((p, b) ∷ ns)
last-head p a b [] = refl
last-head p a b (c ∷ ns) = refl

append-link :
    (ac : JobAckChain) (s : State)
    → epoch_equal ac.epoch s.epoch ≡ true
    → lookup s.event_uid ac.all_ack ≡ none
    → append ac s ≡ link s ac.tail ac
unfolding append
append-link ac s e f = ground arith

link_empty : (ac : JobAckChain) (s : State) → Rep ac [] → Refines (link s none ac) ((s, false) ∷ [])
unfolding link
link_empty ac s r = record {
  cells = (ac.fresh, record (new_ack_with s) { first = true }) ∷ [];
  rep = record {
    holds = ground arith;
    linked = (refl, omega arith, omega arith, refl);
    ends = refl;
    indexed = λ k. lookup-insert s.event_uid k ac.fresh ac.all_ack ∙ ground (arith, r.indexed k);
    distinct = (refl, tt);
    firsts = (refl, tt);
  };
  viewed = refl;
  head_open = refl;
}

link_behind :
    (ac : JobAckChain) (s : State) (t p : ℕ) (a : Ack) (ns : Cells)
    → find s.event_uid ((p, a) ∷ ns) ≡ none
    → last ((p, a) ∷ ns) ≡ some t
    → Rep ac ((p, a) ∷ ns)
    → Rep (link s (some t) ac) (snoc ((p, a) ∷ ns) ac.fresh (new_ack_with s))
unfolding link
link_behind ac s t p a ns f l r = record {
  holds =
      Holds-snoc (update ac.heap ac.fresh (new_ack_with s)) t ac.fresh (new_ack_with s) 0 (some p)
        ((p, a) ∷ ns) r.linked l
        (Holds-above ac.heap ac.fresh (new_ack_with s) 0 ac.fresh (some p) ((p, a) ∷ ns) r.linked
          (omega arith) r.holds)
        (ground arith);
  linked =
      rw (head_address-snoc p a ns ac.fresh (new_ack_with s))
        (Seg-snoc ac.fresh (new_ack_with s) 0 (some p) p a ns refl r.linked);
  ends = sym (last-snoc ac.fresh (new_ack_with s) ((p, a) ∷ ns));
  indexed = λ k.
      lookup-insert s.event_uid k ac.fresh ac.all_ack
      ∙ ground (arith, r.indexed k, find-snoc k ac.fresh (new_ack_with s) ((p, a) ∷ ns) f);
  distinct = Distinct-snoc ac.fresh (new_ack_with s) ((p, a) ∷ ns) f r.distinct;
  firsts = Firsts-snoc ac.fresh (new_ack_with s) p a ns refl r.firsts;
}

open_append : (q : List Entry) (s : State) → HeadOpen q → HeadOpen (q ++ (s, false) ∷ [])
open_append [] s h = refl
open_append (e ∷ q) s h = h

append_absent :
    (ac : JobAckChain) (s : State) (ns : Cells)
    → epoch_equal ac.epoch s.epoch ≡ true
    → find s.event_uid ns ≡ none
    → HeadOpen (view ns)
    → Rep ac ns
    → Refines (append ac s) (view ns ++ (s, false) ∷ [])
unfolding link
append_absent ac s [] e f h r =
    rw (append-link ac s e (r.indexed s.event_uid)) (rw r.ends (link_empty ac s r))
append_absent ac s ((p, a) ∷ ns) e f h r =
    let (t, l) = last-some p a ns in
    rw (append-link ac s e (r.indexed s.event_uid ∙ f)) (
      rw (r.ends ∙ l) (record {
        cells = snoc ((p, a) ∷ ns) ac.fresh (new_ack_with s);
        rep = link_behind ac s t p a ns f l r;
        viewed = view-snoc ac.fresh (new_ack_with s) ((p, a) ∷ ns);
        head_open = open_append (view ((p, a) ∷ ns)) s h;
      }))

append_known :
    (ac : JobAckChain) (s : State) (n : ℕ)
    → lookup s.event_uid ac.all_ack ≡ some n
    → append ac s ≡ ac
unfolding append
append_known ac s n e = ground arith

-- `Append` of a state of the chain's epoch implements the queue's: the state goes behind the last
-- one, unless a state with its event uid is in the chain.
pub append-Refines :
    (ac : JobAckChain) (s : State) (q : List Entry)
    → epoch_equal ac.epoch s.epoch ≡ true
    → Refines ac q
    → Refines (append ac s) (spec_append s q)
append-Refines ac s q e v = rw (← v.viewed) (
    rw (has-view s.event_uid v.cells) (elim (Option-cases (find s.event_uid v.cells)) [
      | inl f ↦ rw f (append_absent ac s v.cells e f (rw v.viewed v.head_open) v.rep)
      | inr (n, f) ↦ rw f (
          rw (append_known ac s n (v.rep.indexed s.event_uid ∙ f)) (record {
            cells = v.cells;
            rep = v.rep;
            viewed = refl;
            head_open = rw v.viewed v.head_open;
          }))
    ]))
