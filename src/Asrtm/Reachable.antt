-- ===== src/Asrtm/Reachable.antt =====
-- What an application and the server can make of a manager: the calls of its methods as steps, the
-- invariant of all that is reached, and what is proposed there.
use margot_project.Base.{ℕ, Bool, List, Option, some, OpPtr, Value, ◌≡◌, not}
use margot_project.Enums.{RankObjective}
use margot_project.Goal.{Goal, Environment}
use margot_project.Knowledge.{Configuration, to_stream}
use margot_project.Constraint.Filters.{passes}
use margot_project.State.{State, new_constraint}
use margot_project.State.Stack.{upper_bound}
use margot_project.State.Insertion.{HasNot, FirstAlone}
use margot_project.Asrtm.{
  Asrtm, default, add_operating_points, remove_operating_points, get_best_configuration,
  create_new_state, remove_state, change_active_state,
}
use margot_project.Asrtm.States.{StateId}
use margot_project.Asrtm.Run.{
  active_state, add_constraint, remove_constraint, set_rank, find_best_configuration,
  configuration_applied, add_runtime_knowledge, restore_from_data_feature_switch,
  set_autotuner_in_dse, create_sibling,
}
use margot_project.Asrtm.Handler.{Message, handle_message}

-- The restriction under which `add_constraint` keeps the split: no constraint of the active state has
-- the priority, and only the first lower one blocks what the new one rejects.
abbrev pub IsSeparate : Environment → Goal → ℕ → (OpPtr → Value) → ℕ → Asrtm → Type 0
IsSeparate env goal field evaluate priority m =
    (id : StateId) (st : State)
    → active_state m ≡ some (id, st)
    → HasNot priority st.constraints
      × FirstAlone
          (λ p. not (
            passes
              (new_constraint env goal field evaluate (to_stream m.knowledge) m.runtime_information)
              p))
          (upper_bound priority st.constraints)

-- A call that returns. The environment may differ from call to call.
pub data Step (get_knobs : OpPtr → Configuration) (get_op : ℕ → List OpPtr) (m : Asrtm)
    : Asrtm → Type 0 where
  adds : (l : List OpPtr) → Step get_knobs get_op m (add_operating_points get_knobs l m).0
  removes : (l : List Configuration) → Step get_knobs get_op m (remove_operating_points l m).0
  creates_state :
      (dummy_field : OpPtr → Value) (id : StateId)
      → Step get_knobs get_op m (create_new_state dummy_field id m)
  removes_state :
      (id : StateId) {m' : Asrtm} → remove_state id m ≡ some m' → Step get_knobs get_op m m'
  activates :
      (id : StateId) {m' : Asrtm} → change_active_state id m ≡ some m' → Step get_knobs get_op m m'
  monitors :
      (field coefficient buffer : ℕ)
      → Step get_knobs get_op m (add_runtime_knowledge field coefficient buffer m)
  constrains :
      (env : Environment) (goal : Goal) (field : ℕ) (evaluate : OpPtr → Value) (priority : ℕ)
      {m' : Asrtm}
      → IsSeparate env goal field evaluate priority m
      → add_constraint env goal field evaluate priority m ≡ some m'
      → Step get_knobs get_op m m'
  releases :
      (priority : ℕ) {m' : Asrtm}
      → remove_constraint priority m ≡ some m'
      → Step get_knobs get_op m m'
  ranks :
      (objective : RankObjective) (evaluate : OpPtr → Value) {m' : Asrtm}
      → set_rank objective evaluate m ≡ some m'
      → Step get_knobs get_op m m'
  finds :
      (evaluate_error : Option OpPtr → Environment → Environment) (env : Environment)
      → Step get_knobs get_op m (find_best_configuration evaluate_error env m).0
  gets :
      {m' : Asrtm} {changed : Bool} {conf : Configuration}
      → get_best_configuration get_knobs m ≡ some (m', changed, conf)
      → Step get_knobs get_op m m'
  applies : Step get_knobs get_op m (configuration_applied m).0
  restores : Step get_knobs get_op m (restore_from_data_feature_switch m)
  explores : Step get_knobs get_op m (set_autotuner_in_dse m)
  clones : (env : Environment) → Step get_knobs get_op m (create_sibling env m)
  receives :
      (msg : Message) {m' : Asrtm} {sent : ℕ}
      → handle_message get_knobs get_op msg m ≡ some (m', sent)
      → Step get_knobs get_op m m'

pub data Reachable (get_knobs : OpPtr → Configuration) (get_op : ℕ → List OpPtr)
    : Asrtm → Type 0 where
  fresh : Reachable get_knobs get_op default
  later :
      {m m' : Asrtm}
      → Reachable get_knobs get_op m
      → Step get_knobs get_op m m'
      → Reachable get_knobs get_op m'
