-- ===== src/Transformer/Conditions.antt =====
-- What the connectors AND and OR mean.
use loggie.Prelude.{
  ◌≡◌, ◌↔◌, ◌⊎◌, refl, sym, ◌∙◌, Bool, true, false, List, [], ◌∷◌, if◌then◌else◌, All, arith,
  Bool-cases, inl, inr,
}
use loggie.Header.{Event}
use loggie.Transformer.{
  Condition, ConditionActionStep, check_with_negative, all_hold, one_holds, satisfied,
}

-- Some condition of the list holds.
abbrev Some : Event → List Condition → Type 0
Some e [] = true ≡ false
Some e (c ∷ cs) = (check_with_negative e c ≡ true) ⊎ Some e cs

pick : (b x y c : Bool) → b ≡ c → (if b then x else y) ≡ (if c then x else y)
pick b x y c e = rw e refl

-- The conditions of a step are satisfied, with AND, exactly when every one of them holds, and with
-- OR exactly when some one does, where a condition under NOT holds when its check fails.
satisfied-holds :
    (ca : ConditionActionStep) (e : Event)
    → (satisfied ca e ≡ true) ↔ (
        if ca.is_and
        then All (λ c. check_with_negative e c ≡ true) ca.conditions
        else Some e ca.conditions)
unfolding satisfied
satisfied-holds ca e = elim (Bool-cases ca.is_and) [
  | inl t ↦ rw t (every ca.conditions)
  | inr f ↦ rw f (some_one ca.conditions)
]
  where
    every :
        (cs : List Condition)
        → (all_hold e cs ≡ true) ↔ All (λ c. check_with_negative e c ≡ true) cs
    every [] = (λ h. tt, λ h. refl)
    every (c ∷ cs) = elim (Bool-cases (check_with_negative e c)) [
      | inl t ↦ (
        λ h. (
          t,
          (every cs).0 (sym (pick (check_with_negative e c) (all_hold e cs) false true t) ∙ h),
        ),
        λ h. pick (check_with_negative e c) (all_hold e cs) false true t ∙ (every cs).1 h.1,
      )
      | inr f ↦ (
        λ h.
            absurd
              (ground (arith, f, h, pick (check_with_negative e c) (all_hold e cs) false false f)),
        λ h. absurd (ground (arith, f, h.0)),
      )
    ]

    some_one : (cs : List Condition) → (one_holds e cs ≡ true) ↔ Some e cs
    some_one [] = (λ h. sym h, λ h. sym h)
    some_one (c ∷ cs) = elim (Bool-cases (check_with_negative e c)) [
      | inl t ↦ (λ h. inl t, λ h. pick (check_with_negative e c) true (one_holds e cs) true t)
      | inr f ↦ (
        λ h. inr (
            (some_one cs).0
              (sym (pick (check_with_negative e c) true (one_holds e cs) false f) ∙ h)),
        λ h.
            pick (check_with_negative e c) true (one_holds e cs) false f
            ∙ elim h [ inl t ↦ absurd (ground (arith, f, t)) | inr k ↦ (some_one cs).1 k ],
      )
    ]
