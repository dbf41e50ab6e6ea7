-- ===== src/Prelude/Maps.antt =====
-- Go's `map[string]V` as an association list: a missing key reads as `none`, a write replaces.
use Prim.Native.String.{String}
use mathlib.Core.Path.{◌≡◌, refl, subst}
use mathlib.Core.Bool.{true, false}
use mathlib.Core.Logic.{inl, inr}
use mathlib.Core.Option.{Option, none, some, some-injective}
use mathlib.Core.List.{List, [], ◌∷◌}
use native.Mathlib.Omega.{arith}
use text.Mathlib.Text.{◌==◌ as str_eq}
use text.Mathlib.TextEquality.{eq_iff}
use loggie.Prelude.Tests.{if◌then◌else◌, Bool-cases}
use loggie.Prelude.Lists.{All}

abbrev pub Dict {ℓ} : Type ℓ → Type ℓ
Dict V = List (String × V)

module _ {ℓ} {A : Type ℓ} where
  unfoldable pub delete : String → Dict A → Dict A
  delete key [] = []
  delete key ((at, x) ∷ dict) =
      let left = delete key dict in if str_eq at key then left else (at, x) ∷ left

  unfoldable pub lookup : String → Dict A → Option A
  lookup key [] = none
  lookup key ((at, x) ∷ dict) =
      let deeper = lookup key dict in if str_eq at key then some x else deeper

  pub lookup-delete :
      (k j : String) (dict : Dict A)
      → lookup j (delete k dict) ≡ (if str_eq k j then none else lookup j dict)
  unfolding lookup delete
  lookup-delete k j [] = ground arith
  lookup-delete k j ((at, x) ∷ dict) =
      ground (arith, lookup-delete k j dict, eq_iff k j, eq_iff at k, eq_iff at j)

  unfoldable pub insert : String → A → Dict A → Dict A
  insert key y [] = (key, y) ∷ []
  insert key y ((at, x) ∷ dict) =
      let deeper = insert key y dict in if str_eq at key then (key, y) ∷ dict else (at, x) ∷ deeper

  pub lookup-insert :
      (k j : String) (y : A) (dict : Dict A)
      → lookup j (insert k y dict) ≡ (if str_eq k j then some y else lookup j dict)
  unfolding lookup insert
  lookup-insert k j y [] = refl
  lookup-insert k j y ((at, x) ∷ dict) =
      ground (arith, lookup-insert k j y dict, eq_iff k j, eq_iff at k, eq_iff at j)

  -- The two lookups behind a write or a delete, once the test on the keys is settled.
  module _ (k j : String) (dict : Dict A) where
    pub lookup-insert_hit : (y : A) → str_eq k j ≡ true → lookup j (insert k y dict) ≡ some y
    lookup-insert_hit y e = rw (lookup-insert k j y dict, e) refl

    pub lookup-insert_miss :
        (y : A) → str_eq k j ≡ false → lookup j (insert k y dict) ≡ lookup j dict
    lookup-insert_miss y e = rw (lookup-insert k j y dict, e) refl

    pub lookup-delete_hit : str_eq k j ≡ true → lookup j (delete k dict) ≡ none
    lookup-delete_hit e = rw (lookup-delete k j dict, e) refl

    pub lookup-delete_miss : str_eq k j ≡ false → lookup j (delete k dict) ≡ lookup j dict
    lookup-delete_miss e = rw (lookup-delete k j dict, e) refl

-- What holds of all the values of a map still does when one goes or one comes.
module _ {ℓ κ} {A : Type ℓ} (P : A → Type κ) where
  abbrev pub Each : Dict A → Type κ
  Each = All (λ (k, x). P x)

  pub Each-delete : (k : String) (dict : Dict A) → Each dict → Each (delete k dict)
  unfolding delete
  Each-delete k [] h = h
  Each-delete k ((at, x) ∷ dict) h = elim (Bool-cases (str_eq at k)) [
    | inl e ↦ simp e (Each-delete k dict h.1)
    | inr e ↦ simp e (h.0, Each-delete k dict h.1)
  ]

  pub Each-insert : (k : String) (y : A) (dict : Dict A) → P y → Each dict → Each (insert k y dict)
  unfolding insert
  Each-insert k y [] p h = (p, tt)
  Each-insert k y ((at, x) ∷ dict) p h = elim (Bool-cases (str_eq at k)) [
    | inl e ↦ simp e (p, h.1)
    | inr e ↦ simp e (h.0, Each-insert k y dict p h.1)
  ]

  pub Each-lookup : (k : String) (y : A) (dict : Dict A) → Each dict → lookup k dict ≡ some y → P y
  unfolding lookup
  Each-lookup k y [] h e = absurd (ground (arith, e))
  Each-lookup k y ((at, x) ∷ dict) h e = elim (Bool-cases (str_eq at k)) [
    | inl c ↦ subst P (some-injective _ _ (simp c at e)) h.0
    | inr c ↦ Each-lookup k y dict h.1 (simp c at e)
  ]

pub str_eq_sym : (a b : String) → str_eq a b ≡ str_eq b a
str_eq_sym a b = ground (arith, eq_iff a b, eq_iff b a)
