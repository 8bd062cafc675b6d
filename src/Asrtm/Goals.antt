-- ===== src/Asrtm/Goals.antt =====
-- The methods of the manager on the goals of its active state keep it valid.
use margot_project.Base.{ℕ, true, Option, some, OpPtr, Value, ◌≡◌}
use margot_project.Enums.{RankObjective}
use margot_project.Goal.{Goal, Environment}
use margot_project.Knowledge.{Configuration, to_stream}
use margot_project.Knowledge.Laws.{holds, to_stream-Enumerates}
use margot_project.Rank.Laws.{IsBetter}
use margot_project.State.{State}
use margot_project.State.Insertion.{add_constraint-Splits}
use margot_project.State.Priorities.{remove_constraint-Splits}
use margot_project.State.Problem.{achieves_all}
use margot_project.State.Optimum.{get_best_operating_point_optimal}
use margot_project.State.Settings.{set_rank-Splits}
use margot_project.State.Memory.{
  add_constraint-Remembers, remove_constraint-Remembers, set_rank-Remembers,
}
use margot_project.Asrtm.{Asrtm}
use margot_project.Asrtm.States.{StateId}
use margot_project.Asrtm.Run.{
  active_state, add_constraint, remove_constraint, set_rank, find_best_configuration, observe,
}
use margot_project.Asrtm.Validity.{IsValid}
use margot_project.Asrtm.Methods.{of_After, on_active_state-After, active_state-IsSound}
use margot_project.Asrtm.Reachable.{IsSeparate}

module _ (get_knobs : OpPtr → Configuration) where
  pub add_constraint-After :
      (env : Environment) (goal : Goal) (field : ℕ) (evaluate : OpPtr → Value) (priority : ℕ)
      (m m' : Asrtm)
      → IsSeparate env goal field evaluate priority m
      → IsValid get_knobs m
      → add_constraint env goal field evaluate priority m ≡ some m'
      → IsValid get_knobs m'
  unfolding add_constraint
  add_constraint-After env goal field evaluate priority m m' separate h e =
      of_After (IsValid get_knobs) _ m'
        (on_active_state-After get_knobs _ m
          (λ id st active s. (
            add_constraint-Splits (holds get_knobs m.knowledge) env goal field evaluate priority
                (to_stream m.knowledge) m.runtime_information st
                (to_stream-Enumerates get_knobs m.knowledge h.0) (separate id st active).0
                (separate id st active).1 s.0,
            add_constraint-Remembers env goal field evaluate priority (to_stream m.knowledge)
                m.runtime_information st s.1,
          ))
          h)
        e

  pub remove_constraint-After :
      (priority : ℕ) (m m' : Asrtm)
      → IsValid get_knobs m
      → remove_constraint priority m ≡ some m'
      → IsValid get_knobs m'
  unfolding remove_constraint
  remove_constraint-After priority m m' h e =
      of_After (IsValid get_knobs) _ m'
        (on_active_state-After get_knobs _ m
          (λ id st active s. (
            remove_constraint-Splits (holds get_knobs m.knowledge) priority st s.0,
            remove_constraint-Remembers priority st s.1,
          ))
          h)
        e

  pub set_rank-After :
      (objective : RankObjective) (evaluate : OpPtr → Value) (m m' : Asrtm)
      → IsValid get_knobs m
      → set_rank objective evaluate m ≡ some m'
      → IsValid get_knobs m'
  unfolding set_rank
  set_rank-After objective evaluate m m' h e =
      of_After (IsValid get_knobs) _ m'
        (on_active_state-After get_knobs _ m
          (λ id st active s. (
            set_rank-Splits (holds get_knobs m.knowledge) objective evaluate st s.0,
            set_rank-Remembers objective evaluate st s.1,
          ))
          h)
        e

  -- In a valid manager that has an Operating Point which achieves all goals of the active state,
  -- `find_best_configuration` proposes a best one of those that do.
  pub find_best_configuration-IsOptimal :
      (evaluate_error : Option OpPtr → Environment → Environment) (env : Environment) (m : Asrtm)
      (id : StateId) (st : State) (p : OpPtr)
      → IsValid get_knobs m
      → active_state m ≡ some (id, st)
      → holds get_knobs m.knowledge p ≡ true
      → achieves_all (observe evaluate_error env m) st.constraints p ≡ true
      → (q : OpPtr) × ((find_best_configuration evaluate_error env m).0.proposed_best_configuration
          ≡ some q)
        × (holds get_knobs m.knowledge q ≡ true)
        × (achieves_all (observe evaluate_error env m) st.constraints q ≡ true)
        × ((o : OpPtr)
            → holds get_knobs m.knowledge o ≡ true
            → achieves_all (observe evaluate_error env m) st.constraints o ≡ true
            → ¬ IsBetter st.rank o q)
  unfolding find_best_configuration
  find_best_configuration-IsOptimal evaluate_error env m id st p h active known valid =
      let s = active_state-IsSound get_knobs m id st h active in
      let best =
        get_best_operating_point_optimal (holds get_knobs m.knowledge)
          (observe evaluate_error env m) st p s.0 s.1 known valid in
      (best.0, rw (active, find_best_configuration) best.1, best.2, best.3, best.4)
