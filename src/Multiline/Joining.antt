-- ===== src/Multiline/Joining.antt =====
-- Joining lines into records, and what that does to their lengths (pkg/source/file/multilines.go).
use mathlib.Core.List.{append_assoc, append-nil}
use loggie.Prelude.{
  ℕ, ◌<◌, ◌≡◌, refl, sym, ap, ◌∙◌, Bool, false, List, [], ◌∷◌, ◌++◌, length, length-append, concat,
  arith, All, All-append,
}
use loggie.Multiline.{MultiHolder, Event}

-- The lines with the line end between them.
abbrev pub join : List ℕ → List (List ℕ) → List ℕ
join sep [] = []
join sep (l ∷ []) = l
join sep (l ∷ k ∷ ls) = (l ++ sep) ++ join sep (k ∷ ls)

abbrev pub joins : List ℕ → List (List (List ℕ)) → List (List ℕ)
joins sep [] = []
joins sep (g ∷ gs) = join sep g ∷ joins sep gs

abbrev pub bodies : List Event → List (List ℕ)
bodies [] = []
bodies (e ∷ es) = e.body ∷ bodies es

-- Only the first line of a record may be one that starts a record.
abbrev pub Continues : (List ℕ → Bool) → List (List ℕ) → Type 0
Continues m [] = Unit
Continues m (l ∷ ls) = All (λ k. m k ≡ false) ls

abbrev pub AllContinue : (List ℕ → Bool) → List (List (List ℕ)) → Type 0
AllContinue m = All (Continues m)

-- The holder has sent the groups `sent`, and holds the lines `open_group`.
pub record Holds (sep : List ℕ) (matcher : List ℕ → Bool) (read : List (List ℕ)) (mh : MultiHolder)
    : Type 0 where
  pub sent : List (List (List ℕ))
  pub open_group : List (List ℕ)
  pub same_end : mh.line_end ≡ sep
  pub same_matcher : mh.task.matcher ≡ matcher
  pub sends : bodies mh.produced ≡ joins sep sent
  pub holds : mh.content ≡ join sep open_group
  pub sized : mh.current_size ≡ length mh.content
  pub filled : All (λ l. 0 < length l) open_group
  pub in_order : concat sent ++ open_group ≡ read
  pub continues : AllContinue matcher sent × Continues matcher open_group

join-snoc :
    (sep l : List ℕ) (k : List ℕ) (ls : List (List ℕ))
    → join sep ((k ∷ ls) ++ l ∷ []) ≡ (join sep (k ∷ ls) ++ sep) ++ l
join-snoc sep l k [] = refl
join-snoc sep l k (m ∷ ls) =
    ap (λ v. (k ++ sep) ++ v) (join-snoc sep l m ls)
    ∙ sym (append_assoc (k ++ sep) (join sep (m ∷ ls) ++ sep) l)
    ∙ ap (λ v. v ++ l) (sym (append_assoc (k ++ sep) (join sep (m ∷ ls)) sep))

pub joins-snoc :
    (sep : List ℕ) (gs : List (List (List ℕ))) (g : List (List ℕ))
    → joins sep (gs ++ g ∷ []) ≡ joins sep gs ++ join sep g ∷ []
joins-snoc sep [] g = refl
joins-snoc sep (h ∷ gs) g = ap (◌∷◌ (join sep h)) (joins-snoc sep gs g)

pub bodies-append : (es fs : List Event) → bodies (es ++ fs) ≡ bodies es ++ bodies fs
bodies-append [] fs = refl
bodies-append (e ∷ es) fs = ap (◌∷◌ e.body) (bodies-append es fs)

pub concat-snoc :
    (gs : List (List (List ℕ))) (g : List (List ℕ)) → concat (gs ++ g ∷ []) ≡ concat gs ++ g
concat-snoc [] g = append-nil g
concat-snoc (h ∷ gs) g = ap (λ v. h ++ v) (concat-snoc gs g) ∙ sym (append_assoc h (concat gs) g)

-- Lines that are not empty make a record that is not empty.
join-length : (sep l : List ℕ) (ls : List (List ℕ)) → 0 < length l → 0 < length (join sep (l ∷ ls))
join-length sep l [] h = h
join-length sep l (k ∷ ls) h =
    omega (arith, length-append {0} (l ++ sep) (join sep (k ∷ ls)), length-append {0} l sep)

pub empty_group :
    (sep : List ℕ) (g : List (List ℕ))
    → All (λ l. 0 < length l) g
    → length (join sep g) ≡ 0
    → g ≡ []
empty_group sep [] f h = refl
empty_group sep (l ∷ ls) f h = absurd (omega (arith, join-length sep l ls f.0))

pub join-snoc_pos :
    (sep l : List ℕ) (g : List (List ℕ))
    → 0 < length (join sep g)
    → join sep (g ++ l ∷ []) ≡ (join sep g ++ sep) ++ l
join-snoc_pos sep l [] h = absurd (omega arith)
join-snoc_pos sep l (k ∷ ls) h = join-snoc sep l k ls

pub Continues-snoc :
    (m : List ℕ → Bool) (l : List ℕ) (g : List (List ℕ))
    → m l ≡ false
    → Continues m g
    → Continues m (g ++ l ∷ [])
Continues-snoc m l [] e c = tt
Continues-snoc m l (k ∷ ls) e c = All-append (λ j. m j ≡ false) ls (l ∷ []) c (e, tt)
