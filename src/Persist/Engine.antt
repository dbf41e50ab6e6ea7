-- ===== src/Persist/Engine.antt =====
-- The badger engine (pkg/util/persistence/driver/badger.go). The key-value store below it is a
-- parameter, and so is that decoding a stored registry gives it back: a value is a registry here.
use mathlib.Core.List.{append-nil}
use loggie.Prelude.{
  take-append-drop, ℕ, zero, suc, ◌+◌, ◌-◌, ◌*◌, ◌/◌, ◌≤◌, ◌≡◌, refl, ap, ◌∙◌, if◌then◌else◌,
  Option, none, some, List, [], ◌∷◌, ◌++◌, String, str_eq, leb, length, take, drop, concat, arith,
  Bool-cases, inl, inr,
}
use loggie.Persist.{Registry, no_registry, gen_key, registry_key, check_integrity, merge, DbEngine}

pub record Kv : Type 1 where
  pub Db : Type 0
  pub get : String → Db → Option Registry
  pub set : String → Registry → Db → Db
  pub remove : String → Db → Db
  pub iterate : Db → List Registry

-- What a transaction of the store promises.
pub record KvLaws (kv : Kv) : Type 0 where
  pub get-set :
      (k j : String) (r : Registry) (db : kv.Db)
      → kv.get j (kv.set k r db) ≡ (if str_eq k j then some r else kv.get j db)
  pub get-remove :
      (k j : String) (db : kv.Db)
      → kv.get j (kv.remove k db) ≡ (if str_eq k j then none else kv.get j db)

-- The slices of `Group`: so many, each of the size but the last.
unfoldable pub slices {ℓ} : {A : Type ℓ} → ℕ → ℕ → List A → List (List A)
slices zero size rs = []
slices (suc n) size rs = take size rs ∷ slices n size (drop size rs)

unfoldable pub group {ℓ} : {A : Type ℓ} → List A → List (List A)
unfolding slices
group rs = if leb (length rs) 100 then rs ∷ [] else slices ((length rs + 99) / 100) 100 rs

module _ (kv : Kv) where
  unfoldable pub insert_all : List Registry → kv.Db → kv.Db
  insert_all [] db = db
  insert_all (r ∷ rs) db = insert_all rs (kv.set (registry_key r) r db)

  unfoldable pub update_one : Registry → kv.Db → kv.Db
  update_one r db =
      if check_integrity r
      then kv.set (registry_key r) r db
      else elim (kv.get (registry_key r) db) [
        | none ↦ db
        | some old ↦ kv.set (registry_key r) (merge old r) db
      ]

  unfoldable pub update_all : List Registry → kv.Db → kv.Db
  unfolding update_one
  update_all [] db = db
  update_all (r ∷ rs) db = update_all rs (update_one r db)

  unfoldable pub insert_groups : List (List Registry) → kv.Db → kv.Db
  unfolding insert_all
  insert_groups [] db = db
  insert_groups (g ∷ gs) db = insert_groups gs (insert_all g db)

  unfoldable pub update_groups : List (List Registry) → kv.Db → kv.Db
  unfolding update_all
  update_groups [] db = db
  update_groups (g ∷ gs) db = update_groups gs (update_all g db)

  unfoldable pub found_or_empty : Option Registry → Registry
  found_or_empty none = no_registry
  found_or_empty (some r) = r

  abbrev pub badger : DbEngine
  badger = record {
    Db = kv.Db;
    find_all = kv.iterate;
    find_by = λ uid source pipeline db. found_or_empty (kv.get (gen_key uid source pipeline) db);
    inserts = λ rs. insert_groups (group rs);
    updates = λ rs. update_groups (group rs);
    update_file_name = λ rs. update_groups (group rs);
    deletes = λ r. kv.remove (registry_key r);
    delete_by = λ uid source pipeline. kv.remove (gen_key uid source pipeline);
  }

take_drop {ℓ} : {A : Type ℓ} (n : ℕ) (xs : List A) → length (drop n xs) ≡ length xs - n
take_drop zero xs = omega arith
take_drop (suc n) [] = omega arith
take_drop (suc n) (x ∷ xs) = omega (arith, take_drop n xs)

slices-all {ℓ} :
    {A : Type ℓ} (n : ℕ) (rs : List A) → length rs ≤ n * 100 → concat (slices n 100 rs) ≡ rs
unfolding slices
slices-all zero [] h = refl
slices-all zero (r ∷ rs) h = absurd (omega (arith, h))
slices-all (suc n) rs h =
    ap (◌++◌ (take 100 rs)) (slices-all n (drop 100 rs) (omega (arith, h, take_drop 100 rs)))
    ∙ take-append-drop 100 rs

-- The groups that an engine writes in transactions of their own are the registries, each once and
-- in order.
pub group-all {ℓ} : {A : Type ℓ} (rs : List A) → concat (group rs) ≡ rs
unfolding group
group-all rs = elim (Bool-cases (leb (length rs) 100)) [
  | inl e ↦ simp (group, e) (append-nil rs)
  | inr e ↦ simp (group, e) (slices-all ((length rs + 99) / 100) rs (omega arith))
]
