-- ===== src/Ack/Ledger.antt =====
-- What has been handed to persistence is a checkpoint in the order of appending.
use mathlib.Core.List.{append_assoc}
use loggie.Prelude.{
  ◌≡◌, refl, sym, ap, ◌∙◌, true, false, ◌||◌, some, List, [], ◌∷◌, ◌++◌, String, str_eq, str_eq_sym,
  All, All-append, arith, Bool-cases, inl, inr,
}
use loggie.Value.{State}
use loggie.Ack.Spec.{Entry, has, mark_entry, release, settle, spec_append, spec_ack}
use loggie.Ack.History.{mem, uids, states, last?, newest}

pub mem-append : (k : String) (ks js : List String) → mem k (ks ++ js) ≡ (mem k ks || mem k js)
mem-append k [] js = refl
mem-append k (j ∷ ks) js = ground (arith, mem-append k ks js)

pub uids-append : (ss ts : List State) → uids (ss ++ ts) ≡ uids ss ++ uids ts
uids-append [] ts = refl
uids-append (s ∷ ss) ts = ap (◌∷◌ s.event_uid) (uids-append ss ts)

states-append : (p q : List Entry) → states (p ++ q) ≡ states p ++ states q
states-append [] q = refl
states-append ((s, d) ∷ p) q = ap (◌∷◌ s) (states-append p q)

pub has-states : (k : String) (q : List Entry) → has k q ≡ mem k (uids (states q))
has-states k [] = refl
has-states k ((s, d) ∷ q) = ap (λ b. str_eq s.event_uid k || b) (has-states k q)

pub states-mark : (k : String) (q : List Entry) → states (mark_entry k q) ≡ states q
states-mark k [] = refl
states-mark k ((s, d) ∷ q) = ground (arith, states-mark k q)

last?-append : (ss : List State) (t : State) → last? (ss ++ t ∷ []) ≡ some t
last?-append [] t = refl
last?-append (s ∷ []) t = refl
last?-append (s ∷ u ∷ ss) t = last?-append (u ∷ ss) t

-- Every marked entry has been acked.
abbrev Marked : List String → List Entry → Type 0
Marked ks = All (λ e. e.1 ≡ true → mem e.0.event_uid ks ≡ true)

abbrev pub AllIn : List String → List State → Type 0
AllIn ks = All (λ s. mem s.event_uid ks ≡ true)

-- Given the states appended and the uids acked so far: a prefix of the former has left the queue,
-- all of it acked, and the checkpoint is the last state of the prefix.
pub record Ledger (past : List State) (ks : List String) (q : List Entry) (log : List State)
    : Type 0 where
  pub released : List State
  pub split : past ≡ released ++ states q
  pub all_acked : AllIn ks released
  pub marked : Marked ks q
  pub checkpoint : newest log ≡ last? released

append_marked :
    (ks : List String) (q : List Entry) (s : State) → Marked ks q → Marked ks (q ++ (s, false) ∷ [])
append_marked ks q s m =
    All-append (λ e. e.1 ≡ true → mem e.0.event_uid ks ≡ true) q ((s, false) ∷ []) m ((λ e. cc), tt)

pub append-Ledger :
    (past : List State) (ks : List String) (q : List Entry) (log : List State) (s : State)
    → mem s.event_uid (uids past) ≡ false
    → Ledger past ks q log
    → Ledger (past ++ s ∷ []) ks (spec_append s q) log
append-Ledger past ks q log s fresh v = rw absent (record {
  released = v.released;
  split =
      ap (λ ss. ss ++ s ∷ []) v.split
      ∙ append_assoc v.released (states q) (s ∷ [])
      ∙ ap (◌++◌ v.released) (sym (states-append q ((s, false) ∷ [])));
  all_acked = v.all_acked;
  marked = append_marked ks q s v.marked;
  checkpoint = v.checkpoint;
})
  where
    absent : has s.event_uid q ≡ false
    absent = ground (
      arith,
      has-states s.event_uid q,
      mem-append s.event_uid (uids v.released) (uids (states q)),
      uids-append v.released (states q),
      ap uids v.split,
    )

release-Ledger :
    (q : List Entry) (past : List State) (ks : List String) (log released : List State) (s : State)
    → past ≡ (released ++ s ∷ []) ++ states q
    → AllIn ks (released ++ s ∷ [])
    → Marked ks q
    → Ledger past ks (release s q).0 ((release s q).1 ∷ log)
release-Ledger [] past ks log released s e a m = record {
  released = released ++ s ∷ [];
  split = e;
  all_acked = a;
  marked = m;
  checkpoint = sym (last?-append released s);
}
release-Ledger ((t, false) ∷ q) past ks log released s e a m = record {
  released = released ++ s ∷ [];
  split = e;
  all_acked = a;
  marked = m;
  checkpoint = sym (last?-append released s);
}
release-Ledger ((t, true) ∷ q) past ks log released s e a m =
    release-Ledger q past ks log (released ++ s ∷ []) t
      (e ∙ sym (append_assoc (released ++ s ∷ []) (t ∷ []) (states q)))
      (All-append (λ u. mem u.event_uid ks ≡ true) (released ++ s ∷ []) (t ∷ []) a (m.0 refl, tt))
      m.1

settle-Ledger :
    (past : List State) (ks : List String) (q : List Entry) (log : List State)
    → Ledger past ks q log
    → Ledger past ks (settle q log).0 (settle q log).1
settle-Ledger past ks [] log v = v
settle-Ledger past ks ((s, false) ∷ q) log v = v
settle-Ledger past ks ((s, true) ∷ q) log v =
    release-Ledger q past ks log v.released s
      (v.split ∙ sym (append_assoc v.released (s ∷ []) (states q)))
      (All-append (λ u. mem u.event_uid ks ≡ true) v.released (s ∷ []) v.all_acked
        (v.marked.0 refl, tt))
      v.marked.1

mem-grow : (k j : String) (ks : List String) → mem k ks ≡ true → mem k (ks ++ j ∷ []) ≡ true
mem-grow k j ks h = ground (arith, mem-append k ks (j ∷ []))

AllIn-grow :
    (k : String) (ks : List String) (ss : List State) → AllIn ks ss → AllIn (ks ++ k ∷ []) ss
AllIn-grow k ks [] a = tt
AllIn-grow k ks (s ∷ ss) a = (mem-grow s.event_uid k ks a.0, AllIn-grow k ks ss a.1)

Marked-grow :
    (k : String) (ks : List String) (q : List Entry) → Marked ks q → Marked (ks ++ k ∷ []) q
Marked-grow k ks [] a = tt
Marked-grow k ks ((s, d) ∷ q) a = ((λ e. mem-grow s.event_uid k ks (a.0 e)), Marked-grow k ks q a.1)

mark-Marked :
    (k : String) (ks : List String) (q : List Entry)
    → Marked ks q
    → Marked (ks ++ k ∷ []) (mark_entry k q)
mark-Marked k ks [] m = tt
mark-Marked k ks ((s, d) ∷ q) m = elim (Bool-cases (str_eq s.event_uid k)) [
  | inl e ↦ rw e (
    (λ _. ground (arith, mem-append s.event_uid ks (k ∷ []), str_eq_sym k s.event_uid)),
    Marked-grow k ks q m.1,
  )
  | inr e ↦ rw e ((λ h. mem-grow s.event_uid k ks (m.0 h)), mark-Marked k ks q m.1)
]

pub ack-Ledger :
    (past : List State) (ks : List String) (q : List Entry) (log : List State) (k : String)
    → Ledger past ks q log
    → Ledger past (ks ++ k ∷ []) (spec_ack k q log).0 (spec_ack k q log).1
ack-Ledger past ks q log k v = settle-Ledger past (ks ++ k ∷ []) (mark_entry k q) log (record {
  released = v.released;
  split = v.split ∙ ap (◌++◌ v.released) (sym (states-mark k q));
  all_acked = AllIn-grow k ks v.released v.all_acked;
  marked = mark-Marked k ks q v.marked;
  checkpoint = v.checkpoint;
})
