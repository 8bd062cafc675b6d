-- ===== src/DaAsrtm/Reachable.antt =====
-- What an application and the server can make of the managers: the calls of the methods as steps.
pub mod Messages
pub mod Invariant
pub mod Optimum
use margot_project.Base.{ℕ, Bool, List, some, OpPtr, Value, Option, ◌≡◌}
use margot_project.Enums.{RankObjective, FeatureComparison, FeatureDistanceType}
use margot_project.Goal.{Goal, Environment}
use margot_project.Knowledge.{Configuration}
use margot_project.Features.{Feature, Arithmetic}
use margot_project.Asrtm.{Asrtm}
use margot_project.Asrtm.States.{StateId}
use margot_project.Asrtm.Reachable.{IsSeparate}
use margot_project.DaAsrtm.{DataAwareAsrtm}
use margot_project.DaAsrtm
use margot_project.Asrtm.Handler.{MessageType}
use margot_project.DaAsrtm.Handler.{handle}
use margot_project.DaAsrtm.Validity.{AllManagers}

-- A call that returns, with no failed assertion and no undefined behaviour. The environment may differ from
-- call to call.
pub data Step (get_knobs : OpPtr → Configuration) (d d' : DataAwareAsrtm) : Type 0 where
  adds_cluster :
      (env : Environment) (key : Feature)
      → DaAsrtm.add_feature_cluster env key d ≡ some d'
      → Step get_knobs d d'
  selects_cluster :
      (ops : Arithmetic) (kind : FeatureDistanceType) (cfs : List FeatureComparison) (key : Feature)
      → DaAsrtm.select_feature_cluster ops kind cfs key d ≡ some d'
      → Step get_knobs d d'
  removes_cluster :
      (key : Feature) → DaAsrtm.remove_feature_cluster key d ≡ some d' → Step get_knobs d d'
  adds :
      (l : List OpPtr) → DaAsrtm.add_operating_points get_knobs l d ≡ some d' → Step get_knobs d d'
  removes :
      (l : List Configuration) → DaAsrtm.remove_operating_points l d ≡ some d' → Step get_knobs d d'
  creates_state :
      (dummy_field : OpPtr → Value) (id : StateId)
      → DaAsrtm.create_new_state dummy_field id d ≡ some d'
      → Step get_knobs d d'
  removes_state : (id : StateId) → DaAsrtm.remove_state id d ≡ some d' → Step get_knobs d d'
  activates : (id : StateId) → DaAsrtm.change_active_state id d ≡ some d' → Step get_knobs d d'
  monitors :
      (field : ℕ) (coefficient_of : Asrtm → ℕ) (buffer : ℕ)
      → DaAsrtm.add_runtime_knowledge field coefficient_of buffer d ≡ some d'
      → Step get_knobs d d'
  constrains :
      (env : Environment) (goal : Goal) (field : ℕ) (evaluate : OpPtr → Value) (priority : ℕ)
      → AllManagers (IsSeparate env goal field evaluate priority) d.managers
      → DaAsrtm.add_constraint env goal field evaluate priority d ≡ some d'
      → Step get_knobs d d'
  releases : (priority : ℕ) → DaAsrtm.remove_constraint priority d ≡ some d' → Step get_knobs d d'
  ranks :
      (objective : RankObjective) (evaluate : OpPtr → Value)
      → DaAsrtm.set_rank objective evaluate d ≡ some d'
      → Step get_knobs d d'
  finds :
      (evaluate_error : Option OpPtr → Environment → Environment) (env : Environment)
      → DaAsrtm.find_best_configuration evaluate_error env d ≡ some d'
      → Step get_knobs d d'
  gets :
      (changed : Bool) (conf : Configuration)
      → DaAsrtm.get_best_configuration get_knobs d ≡ some (d', changed, conf)
      → Step get_knobs d d'
  applies : DaAsrtm.configuration_applied d ≡ some d' → Step get_knobs d d'
  starts : DaAsrtm.start_support_thread d ≡ some d' → Step get_knobs d d'
  receives :
      (get_op : ℕ → List (Feature × List OpPtr)) (env : Environment) (kind : MessageType)
      (payload sent : ℕ)
      → handle get_knobs get_op env kind payload d ≡ some (d', sent)
      → Step get_knobs d d'

pub data Reachable (get_knobs : OpPtr → Configuration) : DataAwareAsrtm → Type 0 where
  fresh : Reachable get_knobs DaAsrtm.default
  later :
      {d d' : DataAwareAsrtm} → Reachable get_knobs d → Step get_knobs d d' → Reachable get_knobs d'
