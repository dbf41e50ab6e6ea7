-- ===== src/Transformer/Examples.antt =====
-- Steps with a condition on an event.
use loggie.Prelude.{◌≡◌, refl, Bool, true, false, none, some, [], ◌∷◌, ◌==◌, length}
use loggie.Header.{Event}
use loggie.Transformer.{
  return_error, failure, Instance, ConditionActionStep, condition_step, simple_action,
  multiple_action_exec, actions_exec, intercept, invoke,
}
use loggie.Transformer.Errors.{multiple_action_exec-ignoring, intercept-keeps}

abbrev the_event : Event
the_event = record { maps = λ _. []; fresh = 1; header = 0; body = 104 ∷ [] }

-- Clears the body, and fails.
abbrev clear : Bool → Instance
clear ignore = record {
  act = λ e. (record e { body = [] }, some failure);
  ignore_error = ignore;
  drop_if_error = false;
}

abbrev go_back : Instance
go_back = record { act = λ e. (e, some return_error); ignore_error = true; drop_if_error = false }

abbrev the_step : ConditionActionStep
the_step = record {
  conditions = record { check = λ e. length e.body == 0; negative = true } ∷ [];
  is_and = true;
  thens = go_back ∷ clear false ∷ [];
  elses = [];
}

multiple_action_exec-ignoring_example :
    multiple_action_exec (go_back ∷ clear true ∷ []) the_event
    ≡ (record the_event { body = [] }, none)
multiple_action_exec-ignoring_example =
    multiple_action_exec-ignoring (go_back ∷ clear true ∷ []) the_event (refl, (refl, tt))

intercept-keeps_example :
    intercept (condition_step the_step ∷ simple_action (clear false) ∷ []) the_event
    ≡ invoke (actions_exec (condition_step the_step ∷ simple_action (clear false) ∷ []) the_event).0
intercept-keeps_example =
    intercept-keeps (condition_step the_step ∷ simple_action (clear false) ∷ []) the_event
      ((((refl, λ e h. cc h), ((refl, λ e h. cc h), tt)), tt), ((refl, λ e h. cc h), tt))
