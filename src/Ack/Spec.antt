-- ===== src/Ack/Spec.antt =====
-- What an acknowledgement chain promises: a queue of states in the order of appending, each with
-- a mark, whose marked prefix is released as a whole.
use loggie.Prelude.{
  ◌≡◌, Bool, true, false, ◌||◌, List, [], ◌∷◌, ◌++◌, String, str_eq, if◌then◌else◌,
}
use loggie.Value.{State}

abbrev pub Entry : Type 0
Entry = State × Bool

abbrev pub has : String → List Entry → Bool
has k [] = false
has k ((s, d) ∷ q) = str_eq s.event_uid k || has k q

abbrev pub mark_entry : String → List Entry → List Entry
mark_entry k [] = []
mark_entry k ((s, d) ∷ q) = if str_eq s.event_uid k then (s, true) ∷ q else (s, d) ∷ mark_entry k q

-- The entries behind the marked prefix, and the last state of that prefix.
abbrev pub release : State → List Entry → List Entry × State
release prev [] = ([], prev)
release prev ((s, true) ∷ q) = release s q
release prev ((s, false) ∷ q) = ((s, false) ∷ q, prev)

-- Release what a marked head allows, and report the last state released.
abbrev pub settle : List Entry → List State → List Entry × List State
settle ((s, true) ∷ q) log = let (rest, last) = release s q in (rest, last ∷ log)
settle q log = (q, log)

abbrev pub spec_append : State → List Entry → List Entry
spec_append s q = if has s.event_uid q then q else q ++ (s, false) ∷ []

abbrev pub spec_ack : String → List Entry → List State → List Entry × List State
spec_ack k q log = settle (mark_entry k q) log

-- Between two operations the oldest entry is not marked.
abbrev pub HeadOpen : List Entry → Type 0
HeadOpen [] = Unit
HeadOpen ((s, d) ∷ q) = d ≡ false
