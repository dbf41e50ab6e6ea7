-- ===== src/Transformer.antt =====
-- The steps of the transformer interceptor (pkg/interceptor/transformer/transformer.go, actions.go,
-- action/action.go, condition/conditions.go). What a condition checks and what an action does are
-- functions of the event; an action changes the event also where it answers an error. An error is
-- known by what `errors.Is` finds in it.
use loggie.Prelude.{ℕ, Bool, true, false, not, Option, none, some, List, [], ◌∷◌, if◌then◌else◌}
use loggie.Header.{Event}
pub mod Conditions
pub mod Errors
pub mod Examples

pub data Error : Type 0 where
  return_error drop_event failure : Error

pub record Instance : Type 0 where
  pub act : Event → Event × Option Error
  pub ignore_error : Bool
  pub drop_if_error : Bool

-- The end of `Instance.Exec`, at what the action answered.
unfoldable pub judge : Instance → Event × Option Error → Event × Option Error
judge a (e, none) = (e, none)
judge a (e, some err) =
    if a.ignore_error
    then (e, none)
    else if a.drop_if_error
    then (e, some drop_event)
    else (e, some err)

pub instance_exec : Instance → Event → Event × Option Error
unfolding judge
instance_exec a e = judge a (a.act e)

pub multiple_action_exec : List Instance → Event → Event × Option Error
multiple_action_exec [] e = (e, none)
multiple_action_exec (a ∷ acts) e =
    let (e', err) = instance_exec a e in
    elim err [ none ↦ multiple_action_exec acts e' | some r ↦ (e', some r) ]

pub record Condition : Type 0 where
  pub check : Event → Bool
  pub negative : Bool

pub check_with_negative : Event → Condition → Bool
check_with_negative e c = if c.negative then not (c.check e) else c.check e

pub record ConditionActionStep : Type 0 where
  pub conditions : List Condition
  pub is_and : Bool
  pub thens : List Instance
  pub elses : List Instance

pub all_hold : Event → List Condition → Bool
all_hold e [] = true
all_hold e (c ∷ cs) = let rest = all_hold e cs in if check_with_negative e c then rest else false

pub one_holds : Event → List Condition → Bool
one_holds e [] = false
one_holds e (c ∷ cs) = let rest = one_holds e cs in if check_with_negative e c then true else rest

pub satisfied : ConditionActionStep → Event → Bool
unfolding all_hold one_holds
satisfied ca e = if ca.is_and then all_hold e ca.conditions else one_holds e ca.conditions

pub data ActionStep : Type 0 where
  condition_step : ConditionActionStep → ActionStep
  simple_action : Instance → ActionStep

pub step_exec : ActionStep → Event → Event × Option Error
unfolding satisfied multiple_action_exec
step_exec (condition_step ca) e =
    if satisfied ca e then multiple_action_exec ca.thens e else multiple_action_exec ca.elses e
step_exec (simple_action a) e = instance_exec a e

-- `ErrorReturn` ends the steps, and is no error of theirs.
abbrev pub passed_on : Error → Option Error
passed_on return_error = none
passed_on r = some r

pub actions_exec : List ActionStep → Event → Event × Option Error
unfolding step_exec
actions_exec [] e = (e, none)
actions_exec (s ∷ steps) e =
    let (e', err) = step_exec s e in
    elim err [ none ↦ actions_exec steps e' | some r ↦ (e', passed_on r) ]

-- What `Intercept` does with the event.
pub data Verdict : Type 0 where
  drop : Verdict
  invoke : Event → Verdict

pub verdict : Event × Option Error → Verdict
verdict (e, some drop_event) = drop
verdict (e, _) = invoke e

pub intercept : List ActionStep → Event → Verdict
unfolding actions_exec verdict
intercept steps e = verdict (actions_exec steps e)
