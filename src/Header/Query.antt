-- ===== src/Header/Query.antt =====
-- How a query names a path (pkg/util/runtime/select.go): keys between dots, where a dot between
-- brackets belongs to the key.
use Prim.Native.Char.{code}
use Prim.Native.String.{String}
use Prim.Native.String.{◌++◌}
use loggie.Prelude.{
  ◌≡◌, refl, Bool, true, false, not, ◌&&◌, List, [], ◌∷◌, ◌==◌, if◌then◌else◌, Bool-cases, inl, inr,
}

-- `sb` is what the builder holds, `connector` the connector mode.
query_paths : String → String → Bool → List String
query_paths String.[] sb connector = sb ∷ []
query_paths (String.◌∷◌ s rest) sb connector =
    let cut = query_paths rest "" connector in
    let on = query_paths rest sb true in
    let off = query_paths rest sb false in
    let more = query_paths rest (sb ++ String.◌∷◌ s String.[]) connector in
    if code s == b'.' && not connector
    then sb ∷ cut
    else if code s == b'['
    then on
    else if code s == b']'
    then off
    else more

unfoldable pub get_query_paths : String → List String
unfolding query_paths
get_query_paths query = query_paths query "" false

-- A path has a first key.
pub record HasKey (ps : List String) : Type 0 where
  pub key : String
  pub more : List String
  pub shape : ps ≡ key ∷ more

query-HasKey : (q sb : String) (c : Bool) → HasKey (query_paths q sb c)
unfolding query_paths
query-HasKey String.[] sb c = record { key = sb; more = []; shape = refl }
query-HasKey (String.◌∷◌ s q) sb c = elim (Bool-cases (code s == b'.' && not c)) [
  | inl e ↦ rw e (record { key = sb; more = query_paths q "" c; shape = refl })
  | inr e ↦ elim (Bool-cases (code s == b'[')) [
    | inl f ↦ rw (e, f) (query-HasKey q sb true)
    | inr f ↦ elim (Bool-cases (code s == b']')) [
      | inl g ↦ rw (e, f, g) (query-HasKey q sb false)
      | inr g ↦ rw (e, f, g) (query-HasKey q (sb ++ String.◌∷◌ s String.[]) c)
    ]
  ]
]

pub paths-HasKey : (q : String) → HasKey (get_query_paths q)
unfolding get_query_paths
paths-HasKey q = query-HasKey q "" false
