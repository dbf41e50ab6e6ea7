-- ===== src/AckHandler/Stopping.antt =====
-- Stopping a task leaves none of its chains behind.
use loggie.Prelude.{
  lookup-delete_hit, ◌≡◌, ap, ◌∙◌, Bool, true, none, some, [], ◌∷◌, String, str_eq, eq_iff,
  if◌then◌else◌, Dict, lookup, delete, lookup-delete, arith, Bool-cases, inl, inr,
}
use loggie.Ack.{JobAckChain}
use loggie.AckHandler.{AckTask, Handler, is_parent_of, remove_where, stop_task}
use loggie.AckHandler.Appending.{Chains}

delete-none :
    (j k : String) (m : Dict JobAckChain) → lookup k m ≡ none → lookup k (delete j m) ≡ none
delete-none j k m e = lookup-delete j k m ∙ ground arith

remove_where-none :
    (p : JobAckChain → Bool) (k : String) (left m : Dict JobAckChain)
    → lookup k m ≡ none
    → lookup k (remove_where p left m) ≡ none
unfolding remove_where
remove_where-none p k [] m e = e
remove_where-none p k ((j, c) ∷ left) m e = elim (Bool-cases (p c)) [
  | inl q ↦
      rw q
        (remove_where-none p k left (delete c.job_watch_uid m) (delete-none c.job_watch_uid k m e))
  | inr q ↦ rw q (remove_where-none p k left m e)
]

removed :
    (p : JobAckChain → Bool) (k : String) (c : JobAckChain) (left m : Dict JobAckChain)
    → c.job_watch_uid ≡ k
    → p c ≡ true
    → lookup k left ≡ some c
    → lookup k (remove_where p left m) ≡ none
unfolding remove_where lookup
removed p k c [] m u q e = cc
removed p k c ((j, d) ∷ left) m u q e = elim (Bool-cases (str_eq j k)) [
  | inl f ↦
      let same : d ≡ c = ground arith in
      let own : str_eq d.job_watch_uid k ≡ true =
        (eq_iff d.job_watch_uid k).1 (ap (λ x. x.job_watch_uid) same ∙ u) in
      rw (ap p same ∙ q) (
        remove_where-none p k left (delete d.job_watch_uid m)
          (lookup-delete_hit d.job_watch_uid k m own))
  | inr f ↦ removed p k c left (if p d then delete d.job_watch_uid m else m) u q (ground arith)
]

-- Where each chain stands under its own watch uid, a stop message leaves no chain of the task.
pub stop_task_clears :
    (at : AckTask) (h : Handler) (k : String) (c : JobAckChain)
    → Chains h.job_ack_chains
    → lookup k h.job_ack_chains ≡ some c
    → is_parent_of at c ≡ true
    → lookup k (stop_task at h).job_ack_chains ≡ none
unfolding stop_task
stop_task_clears at h k c v e q =
    removed (is_parent_of at) k c h.job_ack_chains h.job_ack_chains (v k c e).keyed q e
