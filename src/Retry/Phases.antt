-- ===== src/Retry/Phases.antt =====
-- The phases of the retry loop (pkg/interceptor/retry/interceptor.go).
use loggie.Prelude.{
  ℕ, ◌+◌, ◌≡◌, ◌⊎◌, refl, Bool, true, false, Option, none, some, List, [], ◌∷◌, ◌++◌, ◌==◌,
  if◌then◌else◌, arith, inl, inr,
}
use loggie.Retry.{Retry, counted, rearm}

abbrev pub times : ℕ → List ℕ → ℕ
times b [] = 0
times b (x ∷ xs) = (if b == x then 1 else 0) + times b xs

abbrev pub count_of : Option ℕ → ℕ
count_of none = 0
count_of (some n) = n

abbrev pub one_of : ℕ → Option ℕ → ℕ
one_of b none = 0
one_of b (some a) = if b == a then 1 else 0

-- Idle with an empty buffer; waiting for the timer; or handing on the head of the buffer.
abbrev pub Phase : Bool → Option ℕ → Bool → List ℕ → Type 0
Phase out active c [] = (out ≡ false) × (active ≡ none) × (c ≡ false)
Phase out active c (b ∷ bs) =
    ((out ≡ false) × (active ≡ none) × (c ≡ true))
    ⊎ ((out ≡ true) × (active ≡ some b) × (c ≡ false))

pub record Ready (taken : List ℕ) (i : Retry) : Type 0 where
  pub phase : Phase i.out i.active i.c i.buffer
  pub in_order : i.survived ++ i.buffer ≡ taken
  pub counts : (b : ℕ) → count_of (i.meta b) ≡ times b i.survived + one_of b i.active

-- Before `rearm`.
abbrev pub Half : Bool → Option ℕ → Bool → List ℕ → Type 0
Half out active c [] = (out ≡ false) × (active ≡ none) × (c ≡ false)
Half out active c (b ∷ bs) =
    ((out ≡ false) × (active ≡ none)) ⊎ ((out ≡ true) × (active ≡ some b) × (c ≡ false))

pub rearm-Ready :
    (taken buffer : List ℕ) (active : Option ℕ) (out c t p : Bool) (meta : ℕ → Option ℕ)
    (survived : List ℕ)
    → Half out active c buffer
    → survived ++ buffer ≡ taken
    → ((b : ℕ) → count_of (meta b) ≡ times b survived + one_of b active)
    → Ready taken (
        rearm (record {
          buffer = buffer;
          active = active;
          out = out;
          c = c;
          timer = t;
          pause_sign = p;
          meta = meta;
          survived = survived;
        }))
rearm-Ready taken [] active out c t p meta survived h o n = record {
  phase = h;
  in_order = o;
  counts = n;
}
rearm-Ready taken (b ∷ bs) none out c t p meta survived (inl h) o n = record {
  phase = inl (h.0, refl, refl);
  in_order = o;
  counts = n;
}
rearm-Ready taken (b ∷ bs) none out c t p meta survived (inr h) o n = absurd (ground (arith, h))
rearm-Ready taken (b ∷ bs) (some a) out c t p meta survived (inl h) o n = absurd (ground (arith, h))
rearm-Ready taken (b ∷ bs) (some a) out c t p meta survived (inr h) o n = record {
  phase = inr h;
  in_order = o;
  counts = n;
}

pub half :
    (out : Bool) (active : Option ℕ) (c : Bool) (buffer : List ℕ)
    → Phase out active c buffer
    → Half out active c buffer
half out active c [] h = h
half out active c (b ∷ bs) (inl h) = inl (h.0, h.1)
half out active c (b ∷ bs) (inr h) = inr h

pub Half-snoc :
    (out : Bool) (active : Option ℕ) (c : Bool) (buffer : List ℕ) (x : ℕ)
    → Phase out active c buffer
    → Half out active c (buffer ++ x ∷ [])
Half-snoc out active c [] x h = inl (h.0, h.1)
Half-snoc out active c (b ∷ bs) x (inl h) = inl (h.0, h.1)
Half-snoc out active c (b ∷ bs) x (inr h) = inr h

-- Where the timer is set, there is a head to take, and nothing is being handed on.
pub timer-head :
    (out : Bool) (active : Option ℕ) (c : Bool) (buffer : List ℕ)
    → Phase out active c buffer
    → c ≡ true
    → (b : ℕ) × (bs : List ℕ) × (buffer ≡ b ∷ bs) × (active ≡ none)
timer-head out active c [] h e = absurd (ground (arith, h, e))
timer-head out active c (b ∷ bs) (inl h) e = (b, bs, refl, h.1)
timer-head out active c (b ∷ bs) (inr h) e = absurd (ground (arith, h, e))

pub out-head :
    (out : Bool) (active : Option ℕ) (c : Bool) (buffer : List ℕ)
    → Phase out active c buffer
    → out ≡ true
    → (b : ℕ) × (bs : List ℕ) × (buffer ≡ b ∷ bs) × (active ≡ some b) × (c ≡ false)
out-head out active c [] h e = absurd (ground (arith, h, e))
out-head out active c (b ∷ bs) (inl h) e = absurd (ground (arith, h, e))
out-head out active c (b ∷ bs) (inr h) e = (b, bs, refl, h.1, h.2)

abbrev pub fired : ℕ → Retry → Retry
fired b i = record i {
  active = some b;
  meta = λ x. if x == b then some (counted (i.meta b)) else i.meta x;
  out = true;
  c = false;
  timer = false;
}
