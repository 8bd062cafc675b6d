-- ===== src/Asrtm.antt =====
-- margot/include/margot/asrtm.hpp: class Asrtm, the manager of an application: its knowledge, its states
-- and the configuration that it proposes. The mutex makes each method atomic and is left out.
pub mod States
pub mod Run
pub mod Handler
pub mod Validity
pub mod Laws
pub mod Methods
pub mod Reachable
pub mod Removal
pub mod Addition
pub mod Goals
pub mod Invariant
mod Tests
use margot_project.Base.{
  ℕ, ◌==◌, if◌then◌else◌, Bool, true, false, ◌||◌, List, [], ◌∷◌, ◌++◌, Option, none, some, OpPtr,
  OpStream, length, Value,
}
use margot_project.Enums.{RankObjective}
use margot_project.Goal.{Goal, Environment}
use margot_project.Constraint.{FieldAdaptors}
use margot_project.Knowledge.{Configuration, Knowledge}
use margot_project.Knowledge
use margot_project.State.{State}
use margot_project.State
use margot_project.State.Solve
use States.{StateId, StateMap, find_state, set_state, erase_state, map_states, same_point}

-- `enum class ApplicationStatus`
pub data ApplicationStatus : Type 0 where
  undefined tuned design_space_exploration with_prediction : ApplicationStatus

abbrev pub in_exploration : ApplicationStatus → Bool
in_exploration design_space_exploration = true
in_exploration _ = false

-- `current_optimizer` is the id of the state that the iterator refers to, `none` the end iterator. The
-- monitor handlers are the addresses of the buffers that they clear.
pub record Asrtm : Type 0 where
  pub knowledge : Knowledge
  pub runtime_information : FieldAdaptors
  pub monitor_handlers : List ℕ
  pub application_optimizers : StateMap
  pub current_optimizer : Option StateId
  pub application_configuration : Option OpPtr
  pub proposed_best_configuration : Option OpPtr
  pub status : ApplicationStatus

-- The constructor `Asrtm(void)`
unfoldable pub default : Asrtm
unfolding Knowledge.empty_knowledge
default = record {
  knowledge = Knowledge.empty_knowledge;
  runtime_information = λ _. none;
  monitor_handlers = [];
  application_optimizers = [];
  current_optimizer = none;
  application_configuration = none;
  proposed_best_configuration = none;
  status = undefined;
}

module _ (get_knobs : OpPtr → Configuration) where
  -- The loop of `add_operating_points` over the knowledge.
  unfoldable pub add_to_knowledge : Knowledge → OpStream → Knowledge × OpStream
  add_to_knowledge k [] = (k, [])
  add_to_knowledge k (op ∷ ops) =
      let (k', op_ptr) = Knowledge.add get_knobs k op in
      let (k'', new_ops) = add_to_knowledge k' ops in
      (k'', elim op_ptr [ some p ↦ p ∷ new_ops | none ↦ new_ops ])

  -- `add_operating_points(op_list)`; the list holds pointers to the copies that `add` makes.
  unfoldable pub add_operating_points : List OpPtr → Asrtm → Asrtm × ℕ
  add_operating_points op_list m =
      let (k, new_ops) = add_to_knowledge m.knowledge op_list in
      (
        record m {
          knowledge = k;
          application_optimizers =
              map_states (State.add_operating_points new_ops) m.application_optimizers;
        },
        length new_ops,
      )

  -- `set_single_point(point)`
  unfoldable pub set_single_point : OpPtr → Asrtm → Asrtm
  set_single_point point m =
      let k = (Knowledge.add get_knobs (Knowledge.clear m.knowledge) point).0 in
      record m {
        knowledge = k;
        application_optimizers =
            map_states (State.set_knowledge_base (Knowledge.to_stream k)) m.application_optimizers;
        status = design_space_exploration;
        proposed_best_configuration = none;
      }

  -- `set_model(model)`. The reset of the runtime information clears error windows that later evaluations
  -- read; the coefficients themselves stay as they are, so no state sees it.
  unfoldable pub set_model : List OpPtr → Asrtm → Asrtm
  set_model model m =
      let k = (add_to_knowledge (Knowledge.clear m.knowledge) model).0 in
      record m {
        knowledge = k;
        application_optimizers =
            map_states (State.set_knowledge_base (Knowledge.to_stream k)) m.application_optimizers;
        status = with_prediction;
        proposed_best_configuration = none;
      }

  -- `get_best_configuration(configuration_changed)`: the new manager, what goes through the pointer, and
  -- the knobs. The code asserts that something is proposed; `none` is the failed assertion.
  unfoldable pub get_best_configuration : Asrtm → Option (Asrtm × Bool × Configuration)
  get_best_configuration m = elim m.proposed_best_configuration [
    | none ↦ none
    | some proposed ↦
        if same_point (some proposed) m.application_configuration
        then some (m, false, get_knobs proposed)
        else some (
          record m { status = if in_exploration m.status then m.status else undefined },
          true,
          get_knobs proposed,
        )
  ]

-- The loop of `remove_operating_points` over the knowledge.
unfoldable pub remove_from_knowledge : Knowledge → List Configuration → Knowledge × OpStream
remove_from_knowledge k [] = (k, [])
remove_from_knowledge k (configuration ∷ l) =
    let (k', op_ptr) = Knowledge.remove k configuration in
    let (k'', removed_ops) = remove_from_knowledge k' l in
    (k'', elim op_ptr [ some p ↦ p ∷ removed_ops | none ↦ removed_ops ])

-- `remove_operating_points(configuration_list)`
unfoldable pub remove_operating_points : List Configuration → Asrtm → Asrtm × ℕ
remove_operating_points configuration_list m =
    let (k, removed_ops) = remove_from_knowledge m.knowledge configuration_list in
    (
      record m {
        knowledge = k;
        application_optimizers =
            map_states (State.remove_operating_points removed_ops) m.application_optimizers;
      },
      length removed_ops,
    )

-- `get_number_operating_points()`, `is_application_knowledge_empty()`, `in_design_space_exploration()`
unfoldable pub get_number_operating_points : Asrtm → ℕ
get_number_operating_points m = Knowledge.size m.knowledge

unfoldable pub is_application_knowledge_empty : Asrtm → Bool
is_application_knowledge_empty m = Knowledge.empty m.knowledge

unfoldable pub in_design_space_exploration : Asrtm → Bool
in_design_space_exploration m = elim m.status [
  | design_space_exploration ↦ true
  | with_prediction ↦ true
  | _ ↦ false
]

-- `create_new_state(new_state_id)`; the evaluator is that of the default rank.
unfoldable pub create_new_state : (OpPtr → Value) → StateId → Asrtm → Asrtm
create_new_state dummy_field id m = elim (find_state id m.application_optimizers) [
  | some _ ↦ m
  | none ↦ record m {
    application_optimizers =
        (
          id,
          State.set_knowledge_adaptor m.runtime_information (
              State.set_knowledge_base (Knowledge.to_stream m.knowledge)
                (State.default dummy_field)),
        )
        ∷ m.application_optimizers;
  }
]

-- `remove_state(state_id)`. The assertion that it is not the active state is `none`.
unfoldable pub remove_state : StateId → Asrtm → Option Asrtm
remove_state id m = elim (find_state id m.application_optimizers) [
  | none ↦ elim m.current_optimizer [ some _ ↦ some m | none ↦ none ]
  | some _ ↦
      if same_point (some id) m.current_optimizer
      then none
      else some (record m { application_optimizers = erase_state id m.application_optimizers })
]

-- `change_active_state(state_id)`; `none` is the assertion that the state exists.
unfoldable pub change_active_state : StateId → Asrtm → Option Asrtm
change_active_state id m = elim (find_state id m.application_optimizers) [
  | some _ ↦ some (record m { current_optimizer = some id })
  | none ↦ none
]
