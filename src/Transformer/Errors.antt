-- ===== src/Transformer/Errors.antt =====
-- Which errors end the steps, and which drop the event.
use loggie.Prelude.{
  ◌≡◌, ◌≢◌, refl, ap, ◌∙◌, true, false, Option, none, some, List, [], ◌∷◌, All, Bool-cases, inl,
  inr,
}
use loggie.Header.{Event}
use loggie.Transformer.{
  Error, return_error, drop_event, failure, Instance, judge, instance_exec, multiple_action_exec,
  satisfied, ActionStep, condition_step, simple_action, step_exec, passed_on, actions_exec, invoke,
  verdict, intercept,
}

-- The actions done one after another.
abbrev pub acted : List Instance → Event → Event
acted [] e = e
acted (a ∷ acts) e = acted acts (a.act e).0

judge-ignored :
    (a : Instance) (r : Event × Option Error) → a.ignore_error ≡ true → judge a r ≡ (r.0, none)
unfolding judge
judge-ignored a (e, none) h = refl
judge-ignored a (e, some r) h = rw h refl

-- Where every action of a list ignores errors, all of them are done, in order, whatever they
-- answer: also one that returns or drops the event.
pub multiple_action_exec-ignoring :
    (acts : List Instance) (e : Event)
    → All (λ a. a.ignore_error ≡ true) acts
    → multiple_action_exec acts e ≡ (acted acts e, none)
unfolding multiple_action_exec instance_exec
multiple_action_exec-ignoring [] e h = refl
multiple_action_exec-ignoring (a ∷ acts) e h =
    ap
      (λ r. elim r.1 as (λ _. Event × Option Error) [
        | none ↦ multiple_action_exec acts r.0
        | some x ↦ (r.0, some x)
      ])
      (judge-ignored a (a.act e) h.0)
    ∙ multiple_action_exec-ignoring acts (a.act e).0 h.1

-- No answer of the action drops an event.
abbrev pub Mild : Instance → Type 0
Mild a = (a.drop_if_error ≡ false) × ((e : Event) → (a.act e).1 ≢ some drop_event)

abbrev pub MildStep : ActionStep → Type 0
MildStep (condition_step ca) = All Mild ca.thens × All Mild ca.elses
MildStep (simple_action a) = Mild a

judge-Mild :
    (a : Instance) (r : Event × Option Error)
    → a.drop_if_error ≡ false
    → r.1 ≢ some drop_event
    → (judge a r).1 ≢ some drop_event
unfolding judge
judge-Mild a (e, none) h k = k
judge-Mild a (e, some r) h k = elim (Bool-cases a.ignore_error) [
  | inl t ↦ rw t (λ x. cc x)
  | inr f ↦ rw (f, h) k
]

multiple-Mild :
    (acts : List Instance) (e : Event)
    → All Mild acts
    → (multiple_action_exec acts e).1 ≢ some drop_event
unfolding multiple_action_exec instance_exec
multiple-Mild [] e h = λ x. cc x
multiple-Mild (a ∷ acts) e h =
    go (judge a (a.act e)) (judge-Mild a (a.act e) h.0.0 (h.0.1 e)) (λ f. multiple-Mild acts f h.1)
  where
    go :
        (r : Event × Option Error)
        → r.1 ≢ some drop_event
        → ((f : Event) → (multiple_action_exec acts f).1 ≢ some drop_event)
        → (elim r.1 as (λ _. Event × Option Error) [
          | none ↦ multiple_action_exec acts r.0
          | some x ↦ (r.0, some x)
        ]).1
          ≢ some drop_event
    go (f, none) k later = later f
    go (f, some x) k later = k

step-Mild : (s : ActionStep) (e : Event) → MildStep s → (step_exec s e).1 ≢ some drop_event
unfolding step_exec instance_exec
step-Mild (simple_action a) e h = judge-Mild a (a.act e) h.0 (h.1 e)
step-Mild (condition_step ca) e h = elim (Bool-cases (satisfied ca e)) [
  | inl t ↦ rw t (multiple-Mild ca.thens e h.0)
  | inr f ↦ rw f (multiple-Mild ca.elses e h.1)
]

passed_on-Mild : (r : Error) → some r ≢ some drop_event → passed_on r ≢ some drop_event
passed_on-Mild return_error h = λ x. cc x
passed_on-Mild drop_event h = h
passed_on-Mild failure h = h

actions-Mild :
    (steps : List ActionStep) (e : Event)
    → All MildStep steps
    → (actions_exec steps e).1 ≢ some drop_event
unfolding actions_exec
actions-Mild [] e h = λ x. cc x
actions-Mild (s ∷ steps) e h =
    go (step_exec s e) (step-Mild s e h.0) (λ f. actions-Mild steps f h.1)
  where
    go :
        (r : Event × Option Error)
        → r.1 ≢ some drop_event
        → ((f : Event) → (actions_exec steps f).1 ≢ some drop_event)
        → (elim r.1 as (λ _. Event × Option Error) [
          | none ↦ actions_exec steps r.0
          | some x ↦ (r.0, passed_on x)
        ]).1
          ≢ some drop_event
    go (f, none) k later = later f
    go (f, some x) k later = passed_on-Mild x k

-- An event is dropped only if some action can drop it: where none answers ErrorDropEvent, and none
-- is set to drop on an error, the event goes on to the next invoker, whatever fails on the way.
pub intercept-keeps :
    (steps : List ActionStep) (e : Event)
    → All MildStep steps
    → intercept steps e ≡ invoke (actions_exec steps e).0
unfolding intercept verdict
intercept-keeps steps e h = kept (actions_exec steps e) (actions-Mild steps e h)
  where
    kept : (r : Event × Option Error) → r.1 ≢ some drop_event → verdict r ≡ invoke r.0
    kept (f, none) k = refl
    kept (f, some return_error) k = refl
    kept (f, some failure) k = refl
    kept (f, some drop_event) k = absurd (k refl)
