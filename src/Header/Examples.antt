-- ===== src/Header/Examples.antt =====
-- Fields of a concrete header, two of which hold one map.
use loggie.Prelude.{ℕ, ◌≡◌, refl, List, [], ◌∷◌, String, Dict, ◌==◌, if◌then◌else◌, lookup, arith}
use loggie.Header.{Item, null, text, map_at, Event, get, set, del, copy, move, del_keys}
use loggie.Header.Walks.{Acyclic}
use loggie.Header.Moves.{Moved, move-Moved, get-set, get-del, del_keys-stops}

abbrev the_maps : ℕ → Dict Item
the_maps a =
    if a == 0
    then ("a", map_at 1) ∷ ("d", map_at 1) ∷ ("c", text "y") ∷ []
    else if a == 1
    then ("b", text "x") ∷ []
    else []

abbrev the_event : Event
the_event = record { maps = the_maps; fresh = 2; header = 0; body = 104 ∷ [] }

abbrev rank : ℕ → ℕ
rank a = if a == 0 then 1 else 0

the_event-Acyclic : Acyclic the_event rank
unfolding lookup
the_event-Acyclic = record { made = omega arith; falls = λ a k c h. ground (arith, h) }

abbrev text_of : List ℕ → String
text_of b = "h"

move-Moved_example :
    Moved the_event
      (move text_of the_event "a.b" "d.b")
      (copy text_of the_event "a.b" "d.b")
      "a.b"
      "d.b"
move-Moved_example = move-Moved text_of the_event "a.b" "d.b" rank refl refl the_event-Acyclic

get-del_example : (get (del the_event "a.b") "a.b" ≡ null) × ((del the_event "a.b").body ≡ 104 ∷ [])
get-del_example = get-del the_event "a.b" rank refl the_event-Acyclic

del_keys-stops_example :
    del_keys the_event ("a.b" ∷ "body" ∷ "c" ∷ [])
    ≡ record (del_keys the_event ("a.b" ∷ [])) { body = [] }
del_keys-stops_example = del_keys-stops ("a.b" ∷ []) ("c" ∷ []) the_event (refl, tt)

get-set_example : get (set the_event "c.x" (text "z")) "c.x" ≡ text "z"
get-set_example = get-set the_event "c.x" (text "z") rank refl the_event-Acyclic
