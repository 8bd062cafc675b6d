-- ===== src/Asrtm/Run.antt =====
-- margot/include/margot/asrtm.hpp: the methods that an application calls around its region of interest,
-- those that act on the active state, and the sibling of a manager.
use margot_project.Base.{
  ℕ, ◌==◌, if◌then◌else◌, Bool, true, false, List, [], ◌∷◌, ◌++◌, Option, none, some, OpPtr, Value,
}
use margot_project.Enums.{RankObjective}
use margot_project.Goal.{Goal, Environment}
use margot_project.Constraint.{FieldAdaptors}
use margot_project.Knowledge
use margot_project.State.{State}
use margot_project.State
use margot_project.State.Solve
use margot_project.Asrtm.{
  Asrtm, ApplicationStatus, undefined, tuned, design_space_exploration, in_exploration, default,
}
use margot_project.Asrtm.States.{StateId, StateMap, find_state, set_state, map_states, same_point}

-- `which_active_state()`; `none` is the failed assertion.
unfoldable pub which_active_state : Asrtm → Option StateId
which_active_state m = m.current_optimizer

-- The state behind `current_optimizer`.
unfoldable pub active_state : Asrtm → Option (StateId × State)
active_state m = elim m.current_optimizer [
  | none ↦ none
  | some id ↦ elim (find_state id m.application_optimizers) [
    | some st ↦ some (id, st)
    | none ↦ none
  ]
]

-- The methods that assert that there is an active state and call one method of it.
unfoldable pub on_active_state : (State → State) → Asrtm → Option Asrtm
on_active_state f m = elim (active_state m) [
  | none ↦ none
  | some (id, st) ↦
      some (record m { application_optimizers = set_state id (f st) m.application_optimizers })
]

-- `add_constraint(goal_value, priority)`, `remove_constraint(priority)`, `set_rank(values...)`
unfoldable pub add_constraint : Environment → Goal → ℕ → (OpPtr → Value) → ℕ → Asrtm → Option Asrtm
add_constraint env goal field evaluate priority m =
    on_active_state
      (State.add_constraint env goal field evaluate priority (Knowledge.to_stream m.knowledge)
        m.runtime_information)
      m

unfoldable pub remove_constraint : ℕ → Asrtm → Option Asrtm
remove_constraint priority m = on_active_state (State.remove_constraint priority) m

unfoldable pub set_rank : RankObjective → (OpPtr → Value) → Asrtm → Option Asrtm
set_rank objective evaluate m = on_active_state (State.set_rank objective evaluate) m

abbrev pub is_tuned : ApplicationStatus → Bool
is_tuned tuned = true
is_tuned _ = false

-- The environment once `find_best_configuration` has updated the error coefficients: `evaluate_error` is what `runtime_information.evaluate_error` makes of the
-- error coefficients, for the applied configuration.
unfoldable pub observe :
    (Option OpPtr → Environment → Environment) → Environment → Asrtm → Environment
observe evaluate_error env m =
    if is_tuned m.status then evaluate_error m.application_configuration env else env

-- `find_best_configuration()`
unfoldable pub find_best_configuration :
    (Option OpPtr → Environment → Environment) → Environment → Asrtm → Asrtm × Environment
find_best_configuration evaluate_error env m =
    let env' = observe evaluate_error env m in
    elim (active_state m) [
      | none ↦ (m, env')
      | some (id, st) ↦
          let (st', found) = State.Solve.get_best_operating_point env' st in
          (
            record m {
              application_optimizers = set_state id st' m.application_optimizers;
              proposed_best_configuration = found;
            },
            env',
          )
    ]

-- `add_runtime_knowledge(monitor)`: the field, the address of the new adaptor's error coefficient, and
-- that of the monitor's buffer.
unfoldable pub add_runtime_knowledge : ℕ → ℕ → ℕ → Asrtm → Asrtm
add_runtime_knowledge field coefficient buffer m =
    let adaptors : FieldAdaptors =
      λ f. elim (f == field) [ true ↦ some coefficient | false ↦ m.runtime_information f ] in
    record m {
      runtime_information = adaptors;
      monitor_handlers = m.monitor_handlers ++ (buffer ∷ []);
      application_optimizers =
          map_states (State.set_knowledge_adaptor adaptors) m.application_optimizers;
    }

-- The status after `configuration_applied`, and after `restore_from_data_feature_switch`.
abbrev unless_exploring : ApplicationStatus → ApplicationStatus → ApplicationStatus
unless_exploring next status = if in_exploration status then design_space_exploration else next

-- `configuration_applied()`, with the buffers that it clears.
unfoldable pub configuration_applied : Asrtm → Asrtm × List ℕ
configuration_applied m = (
  record m {
    application_configuration = m.proposed_best_configuration;
    status = unless_exploring tuned m.status;
  },
  if same_point m.application_configuration m.proposed_best_configuration
      then []
      else if in_exploration m.status
      then []
      else m.monitor_handlers,
)

-- `restore_from_data_feature_switch()`
unfoldable pub restore_from_data_feature_switch : Asrtm → Asrtm
restore_from_data_feature_switch m = record m {
  status = unless_exploring undefined m.status;
  application_configuration = none;
}

-- `set_autotuner_in_dse()`
unfoldable pub set_autotuner_in_dse : Asrtm → Asrtm
set_autotuner_in_dse m = record m { status = design_space_exploration }

-- The loop of `create_sibling()`: each state is inserted, and becomes the current one.
unfoldable pub sibling_states : Environment → StateMap → Asrtm → Asrtm
sibling_states env [] cloned = cloned
sibling_states env ((id, st) ∷ l) cloned = sibling_states env l (record cloned {
  application_optimizers = (id, State.create_sibling env st) ∷ cloned.application_optimizers;
  current_optimizer = some id;
})

-- `create_sibling()`. The reset of the copied adaptors clears their error windows.
unfoldable pub create_sibling : Environment → Asrtm → Asrtm
create_sibling env m = record (sibling_states env m.application_optimizers default) {
  runtime_information = m.runtime_information;
  monitor_handlers = m.monitor_handlers;
}
