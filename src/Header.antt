-- ===== src/Header.antt =====
-- The header of an event, and the operations on its fields by a path (pkg/util/runtime/object.go,
-- pkg/util/runtime/select.go, pkg/util/eventops/event.go). A Go map is changed in place, and two
-- fields may hold the same map, so the maps are cells of a store, and a field holds an address.
-- A header is a map, not nil.
use loggie.Prelude.{
  ℕ, Bool, true, false, not, ◌&&◌, Option, none, some, List, [], ◌∷◌, String, str_eq, ◌==◌, ◌+◌,
  length, if◌then◌else◌, Dict, lookup, insert, delete,
}
use loggie.Header.Query.{get_query_paths}
pub mod Query
pub mod Walks
pub mod Deletions
pub mod Moves
pub mod Examples

-- A value: nothing, a text, bytes, the map at an address, or another one (a number, a bool, a slice).
pub data Item : Type 0 where
  null : Item
  text : String → Item
  raw : List ℕ → Item
  other : ℕ → Item
  map_at : ℕ → Item

pub record Event : Type 0 where
  pub maps : ℕ → Dict Item
  pub fresh : ℕ
  pub header : ℕ
  pub body : List ℕ

-- `Object.Map`
abbrev pub map_of : Option Item → Option ℕ
map_of (some (map_at a)) = some a
map_of _ = none

abbrev pub value_or : Option Item → Item
value_or none = null
value_or (some v) = v

-- `Object.Get`
abbrev pub object_get : (ℕ → Dict Item) → String → Item → Item
object_get maps k (map_at a) = value_or (lookup k (maps a))
object_get maps k _ = null

abbrev pub get_paths : (ℕ → Dict Item) → List String → Item → Item
get_paths maps [] o = o
get_paths maps (p ∷ ps) o = get_paths maps ps (object_get maps p o)

-- `m[key] = val` on the map at an address.
abbrev pub map_set : ℕ → String → Item → Event → Event
map_set a k v e = record e { maps = λ b. if b == a then insert k v (e.maps b) else e.maps b }

abbrev pub map_del : ℕ → String → Event → Event
map_del a k e = record e { maps = λ b. if b == a then delete k (e.maps b) else e.maps b }

-- `make(map[string]interface{})`, set at a key of the map at `a`.
abbrev pub new_child : ℕ → String → Event → Event
new_child a k e =
    map_set a k (map_at e.fresh)
      (record e { maps = λ b. if b == e.fresh then [] else e.maps b; fresh = e.fresh + 1 })

-- `SetPaths` from the key `p` of the map at `a` on: a missing child, or one that is no map, becomes
-- a new map.
unfoldable pub set_from : ℕ → String → List String → Item → Event → Event
set_from a p [] v e = map_set a p v e
set_from a p (q ∷ qs) v e = elim (map_of (lookup p (e.maps a))) [
  | some c ↦ set_from c q qs v e
  | none ↦ set_from e.fresh q qs v (new_child a p e)
]

-- `DelPaths`: nothing is made on the way.
unfoldable pub del_from : ℕ → String → List String → Event → Event
del_from a p [] e = map_del a p e
del_from a p (q ∷ qs) e = elim (map_of (lookup p (e.maps a))) [
  | some c ↦ del_from c q qs e
  | none ↦ e
]

-- Of the object that stands for the header; without a key only that object is changed.
unfoldable pub set_paths : List String → Item → Event → Event
unfolding set_from
set_paths [] v e = e
set_paths (p ∷ ps) v e = set_from e.header p ps v e

unfoldable pub del_paths : List String → Event → Event
unfolding del_from
del_paths [] e = e
del_paths (p ∷ ps) e = del_from e.header p ps e

-- `event.Body`
abbrev pub body_name : String
body_name = "body"

abbrev pub is_body : String → Event → Bool
is_body key e = str_eq key body_name && not (length e.body == 0)

unfoldable pub get : Event → String → Item
get e key =
    if is_body key e then raw e.body else get_paths e.maps (get_query_paths key) (map_at e.header)

unfoldable pub set : Event → String → Item → Event
unfolding set_paths
set e key v = set_paths (get_query_paths key) v e

unfoldable pub del : Event → String → Event
unfolding del_paths
del e key =
    if str_eq key body_name then record e { body = [] } else del_paths (get_query_paths key) e

-- The keys behind the body's name are left.
unfoldable pub del_keys : Event → List String → Event
unfolding del_paths
del_keys e [] = e
del_keys e (key ∷ keys) =
    let rest = del_keys (del_paths (get_query_paths key) e) keys in
    if str_eq key body_name then record e { body = [] } else rest

-- `string(body)` is an argument.
module _ (string : List ℕ → String) where
  unfoldable pub copy : Event → String → String → Event
  unfolding set_paths
  copy e from to =
      let paths = get_query_paths to in
      if is_body from e
      then set_paths paths (text (string e.body)) e
      else set_paths paths (get_paths e.maps (get_query_paths from) (map_at e.header)) e

  unfoldable pub move : Event → String → String → Event
  unfolding set_paths del_paths
  move e from to =
      let paths = get_query_paths to in
      let sent = set_paths paths (text (string e.body)) e in
      if is_body from e
      then record sent { body = [] }
      else set_paths paths (get_paths e.maps (get_query_paths from) (map_at e.header))
          (del_paths (get_query_paths from) e)
