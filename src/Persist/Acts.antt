-- ===== src/Persist/Acts.antt =====
-- What `DbHandler` receives, and what is done to its database
-- (pkg/util/persistence/persistence.go).
use mathlib.Core.List.{append_assoc, append-nil}
use loggie.Prelude.{ℕ, ◌≡◌, sym, ap, ◌∙◌, if◌then◌else◌, List, [], ◌∷◌, ◌++◌}
use loggie.Value.{State}
use loggie.Persist.{DbOpt}
use loggie.Persist.Handler.{Input, state, opt}

-- The states that come, the operations that may be done later, and those to be done at once.
unfoldable pub states_in : List (ℕ × Input) → List State
states_in [] = []
states_in ((now, state s) ∷ is) = s ∷ states_in is
states_in ((now, _) ∷ is) = states_in is

unfoldable pub later_in : List (ℕ × Input) → List DbOpt
later_in [] = []
later_in ((now, opt o) ∷ is) = let more = later_in is in if o.immediately then more else o ∷ more
later_in ((now, _) ∷ is) = later_in is

unfoldable pub urgent_in : List (ℕ × Input) → List DbOpt
urgent_in [] = []
urgent_in ((now, opt o) ∷ is) = let more = urgent_in is in if o.immediately then o ∷ more else more
urgent_in ((now, _) ∷ is) = urgent_in is

-- What is done to the database.
pub data Act : Type 0 where
  writes : List State → Act
  does_late : ℕ → List DbOpt → Act
  does_now : ℕ → DbOpt → Act
  cleans : ℕ → Act

abbrev pub states_by : Act → List State
states_by (writes ss) = ss
states_by _ = []

abbrev pub later_by : Act → List DbOpt
later_by (does_late now os) = os
later_by _ = []

abbrev pub urgent_by : Act → List DbOpt
urgent_by (does_now now o) = o ∷ []
urgent_by _ = []

-- What all the acts of a list take, one after another.
module _ {A : Type 0} (by : Act → List A) where
  abbrev pub all_by : List Act → List A
  all_by [] = []
  all_by (a ∷ acts) = by a ++ all_by acts

  pub all_by-snoc : (acts : List Act) (a : Act) → all_by (acts ++ a ∷ []) ≡ all_by acts ++ by a
  all_by-snoc [] a = append-nil (by a)
  all_by-snoc (b ∷ acts) a =
      ap (◌++◌ (by b)) (all_by-snoc acts a) ∙ sym (append_assoc (by b) (all_by acts) (by a))

  pub all_by-moves :
      (acts : List Act) (a : Act) (before after all : List A)
      → by a ++ after ≡ before
      → all_by acts ++ before ≡ all
      → all_by (acts ++ a ∷ []) ++ after ≡ all
  all_by-moves acts a before after all e f =
      ap (λ v. v ++ after) (all_by-snoc acts a)
      ∙ append_assoc (all_by acts) (by a) after
      ∙ ap (◌++◌ (all_by acts)) e
      ∙ f
