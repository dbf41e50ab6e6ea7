-- ===== src/Retry/Loop.antt =====
-- The retry loop never panics, never waits for nothing, and retries in the order of failing.
use mathlib.Core.Path.{subst}
use mathlib.Core.List.{append_assoc}
use loggie.Prelude.{
  ℕ, ◌+◌, ◌≡◌, ◌≢◌, ◌⊎◌, refl, sym, ap, ◌∙◌, Bool, true, false, Option, none, some, List, [], ◌∷◌,
  ◌++◌, ◌==◌, if◌then◌else◌, arith, Bool-cases, inl, inr,
}
use loggie.Retry.{
  Retry, new_retry, take_in, counted, fire, hand_on, rearm, Reached, starts, resets, takes, fires,
  hands,
}
use loggie.Retry.Phases.{
  times, count_of, one_of, Ready, Half, rearm-Ready, half, Half-snoc, timer-head, out-head, fired,
}

count_counted : (m : Option ℕ) → counted m ≡ count_of m + 1
count_counted none = omega arith
count_counted (some n) = omega arith

pub fire_head : (b : ℕ) (bs : List ℕ) (i : Retry) → i.buffer ≡ b ∷ bs → fire i ≡ some (fired b i)
fire_head b bs i e = simp (fire, e) refl

times-snoc :
    (b x : ℕ) (xs : List ℕ) → times b (xs ++ x ∷ []) ≡ times b xs + (if b == x then 1 else 0)
times-snoc b x [] = omega arith
times-snoc b x (y ∷ xs) = omega (arith, times-snoc b x xs)

fired-counts :
    (b x : ℕ) (i : Retry)
    → ((y : ℕ) → count_of (i.meta y) ≡ times y i.survived + one_of y i.active)
    → i.active ≡ none
    → count_of ((fired b i).meta x) ≡ times x i.survived + (if x == b then 1 else 0)
fired-counts b x i n e = elim (Bool-cases (x == b)) [
  | inl t ↦
      let q : b ≡ x = ground (arith, t) in
      rw t (
        omega
          (arith, count_counted (i.meta b), n b, ap (one_of b) e, ap (λ v. times v i.survived) q))
  | inr f ↦ rw f (omega (arith, n x, ap (one_of x) e))
]

fire-Ready :
    (taken : List ℕ) (i j : Retry)
    → Ready taken i
    → i.c ≡ true
    → fire i ≡ some j
    → Ready taken (rearm j)
fire-Ready taken i j h e f =
    let (b, bs, q, a) = timer-head i.out i.active i.c i.buffer h.phase e in
    let same : fired b i ≡ j = cc (sym (fire_head b bs i q) ∙ f) in
    subst (λ k. Ready taken (rearm k)) same
      (rearm-Ready taken i.buffer (some b) true false false i.pause_sign (fired b i).meta i.survived
        (subst (Half true (some b) false) (sym q) (inr (refl, refl, refl))) h.in_order
        (λ x. fired-counts b x i h.counts a))

abbrev pub handed : ℕ → List ℕ → Retry → Retry
handed a bs i = record i {
  buffer = bs;
  active = none;
  out = false;
  timer = true;
  survived = i.survived ++ a ∷ [];
}

pub hand_head :
    (b : ℕ) (bs : List ℕ) (i : Retry)
    → i.buffer ≡ b ∷ bs
    → i.active ≡ some b
    → hand_on i ≡ some (handed b bs i)
hand_head b bs i e f = simp (hand_on, e, f) refl

Half-rest : (c : Bool) (bs : List ℕ) → c ≡ false → Half false none c bs
Half-rest c [] e = (refl, refl, e)
Half-rest c (b ∷ bs) e = inl (refl, refl)

hand-Ready :
    (taken : List ℕ) (i j : Retry)
    → Ready taken i
    → i.out ≡ true
    → hand_on i ≡ some j
    → Ready taken (rearm j)
hand-Ready taken i j h e f =
    let (b, bs, q, a, z) = out-head i.out i.active i.c i.buffer h.phase e in
    let same : handed b bs i ≡ j = cc (sym (hand_head b bs i q a) ∙ f) in
    subst (λ k. Ready taken (rearm k)) same
      (rearm-Ready taken bs none false i.c true i.pause_sign i.meta (i.survived ++ b ∷ [])
        (Half-rest i.c bs z)
        (append_assoc i.survived (b ∷ []) bs ∙ ap (◌++◌ i.survived) (sym q) ∙ h.in_order)
        (λ x. omega (arith, h.counts x, ap (one_of x) a, times-snoc x b i.survived)))

-- Every state that the loop can reach is idle with nothing to retry, waits for its timer with a
-- batch to retry, or is handing on the oldest one. What was handed on and what waits are the
-- batches taken in, in order; and a batch's retry count is the number of times it was handed on,
-- and one more while it is being handed on.
pub Reached-Ready : (taken : List ℕ) (i : Retry) → Reached taken i → Ready taken i
unfolding new_retry
Reached-Ready _ _ starts = record {
  phase = (refl, refl, refl);
  in_order = refl;
  counts = λ b. omega arith;
}
Reached-Ready taken _ (resets {i = i} r) =
    let h = Reached-Ready taken i r in
    rearm-Ready taken i.buffer i.active i.out i.c i.timer false i.meta i.survived
      (half i.out i.active i.c i.buffer h.phase) h.in_order h.counts
Reached-Ready _ _ (takes {bs} {i} b r) =
    let h = Reached-Ready bs i r in
    rearm-Ready (bs ++ b ∷ []) (i.buffer ++ b ∷ []) i.active i.out i.c i.timer
      (take_in b i).pause_sign i.meta i.survived (Half-snoc i.out i.active i.c i.buffer b h.phase)
      (sym (append_assoc i.survived i.buffer (b ∷ [])) ∙ ap (λ v. v ++ b ∷ []) h.in_order) h.counts
Reached-Ready taken _ (fires {i = i} {j = j} r e t f) =
    fire-Ready taken i j (Reached-Ready taken i r) e f
Reached-Ready taken _ (hands {i = i} {j = j} r e f) =
    hand-Ready taken i j (Reached-Ready taken i r) e f

-- No case of the loop that can be chosen panics: where the timer is set the buffer has a head, and
-- where `out` is set there is a batch to hand on.
pub Reached-safe :
    (taken : List ℕ) (i : Retry)
    → Reached taken i
    → ((i.c ≡ false) ⊎ (fire i ≢ none)) × ((i.out ≡ false) ⊎ (hand_on i ≢ none))
Reached-safe taken i r =
    let h = Reached-Ready taken i r in
    (
      elim (Bool-cases i.c) [
        | inr f ↦ inl f
        | inl t ↦
            let (b, bs, q, a) = timer-head i.out i.active i.c i.buffer h.phase t in
            inr (λ n. cc (sym (fire_head b bs i q) ∙ n))
      ],
      elim (Bool-cases i.out) [
        | inr f ↦ inl f
        | inl t ↦
            let (b, bs, q, a, z) = out-head i.out i.active i.c i.buffer h.phase t in
            inr (λ n. cc (sym (hand_head b bs i q a) ∙ n))
      ],
    )
