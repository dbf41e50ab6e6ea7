-- ===== src/Retry/Retrying.antt =====
-- A batch that waits is retried (pkg/interceptor/retry/interceptor.go).
use loggie.Prelude.{
  ℕ, ◌≡◌, ◌⊎◌, refl, sym, ap, ◌∙◌, subst, true, some, List, [], ◌∷◌, ◌++◌, arith, inl, inr,
}
use loggie.Retry.{
  Retry, new_retry, fire, hand_on, rearm, Reached, starts, resets, takes, fires, hands,
}
use loggie.Retry.Phases.{Phase, timer-head, out-head, fired}
use loggie.Retry.Loop.{Reached-Ready, fire_head, handed, hand_head}

-- The timer runs, or has fired, unless a batch is being handed on.
abbrev Armed : Retry → Type 0
Armed i = (i.timer ≡ true) ⊎ (i.out ≡ true)

rearm-Armed : (i : Retry) → Armed i → Armed (rearm i)
rearm-Armed i h = ground (arith, h)

rearm-same :
    (i : Retry)
    → ((rearm i).buffer ≡ i.buffer)
      × ((rearm i).active ≡ i.active)
      × ((rearm i).out ≡ i.out)
      × ((rearm i).survived ≡ i.survived)
rearm-same i = (ground arith, ground arith, ground arith, ground arith)

Reached-Armed : (taken : List ℕ) (i : Retry) → Reached taken i → Armed i
unfolding new_retry
Reached-Armed _ _ starts = inl refl
Reached-Armed taken _ (resets {i = i} r) = rearm-Armed _ (Reached-Armed taken i r)
Reached-Armed _ _ (takes {bs} {i} b r) = rearm-Armed _ (Reached-Armed bs i r)
Reached-Armed taken _ (fires {i = i} {j = j} r e t f) =
    let (b, bs, q, a) = timer-head i.out i.active i.c i.buffer (Reached-Ready taken i r).phase e in
    let same : fired b i ≡ j = cc (sym (fire_head b bs i q) ∙ f) in
    rearm-Armed j (subst Armed same (inr refl))
Reached-Armed taken _ (hands {i = i} {j = j} r e f) =
    let (b, bs, q, a, z) = out-head i.out i.active i.c i.buffer (Reached-Ready taken i r).phase e in
    let same : handed b bs i ≡ j = cc (sym (hand_head b bs i q a) ∙ f) in
    rearm-Armed j (subst Armed same (inl refl))

-- What the loop does while nothing comes in: its timer fires, and it hands on.
pub data Works (i : Retry) : Retry → Type 0 where
  waits : Works i i
  then_fires :
      {j k : Retry} → Works i j → j.c ≡ true → j.timer ≡ true → fire j ≡ some k → Works i (rearm k)
  then_hands : {j k : Retry} → Works i j → j.out ≡ true → hand_on j ≡ some k → Works i (rearm k)

-- The loop gets to hand on the batch `b`, with `bs` left in the buffer.
pub record Retried (i : Retry) (b : ℕ) (bs : List ℕ) : Type 0 where
  pub after : Retry
  pub works : Works i after
  pub handed_on : after.survived ≡ i.survived ++ b ∷ []
  pub left : after.buffer ≡ bs

hands-Retried :
    (i j : Retry) (b : ℕ) (bs : List ℕ)
    → Works i j
    → j.survived ≡ i.survived
    → j.buffer ≡ b ∷ bs
    → j.active ≡ some b
    → j.out ≡ true
    → Retried i b bs
hands-Retried i j b bs w s q a o =
    let (left, _, _, handed_on) = rearm-same (handed b bs j) in
    record {
      after = rearm (handed b bs j);
      works = then_hands w o (hand_head b bs j q a);
      handed_on = handed_on ∙ ap (λ v. v ++ b ∷ []) s;
      left = left;
    }

Phase-Retried :
    (i : Retry) (b : ℕ) (bs : List ℕ)
    → i.buffer ≡ b ∷ bs
    → Armed i
    → Phase i.out i.active i.c (b ∷ bs)
    → Retried i b bs
Phase-Retried i b bs q m (inr h) = hands-Retried i i b bs waits refl q h.1 h.0
Phase-Retried i b bs q m (inl h) =
    let armed : i.timer ≡ true = ground (arith, m, h.0) in
    let (buffer, active, out, survived) = rearm-same (fired b i) in
    hands-Retried i (rearm (fired b i)) b bs (then_fires waits h.2 armed (fire_head b bs i q))
      survived (buffer ∙ q) active out

-- A batch that waits is retried: from any state that the loop can reach with a batch in the buffer,
-- the cases of the timer and of `out` alone, each of which can be chosen then, hand on the oldest
-- batch and leave the others in the buffer. The timer runs whenever the loop waits for it.
pub Reached-Retried :
    (taken : List ℕ) (i : Retry) (b : ℕ) (bs : List ℕ)
    → Reached taken i
    → i.buffer ≡ b ∷ bs
    → Retried i b bs
Reached-Retried taken i b bs r q =
    Phase-Retried i b bs q (Reached-Armed taken i r)
      (subst (Phase i.out i.active i.c) q (Reached-Ready taken i r).phase)
