-- ===== src/DaAsrtm/Reachable/Optimum.antt =====
-- What the active manager of the clusters proposes.
use margot_project.Base.{ℕ, true, Option, some, OpPtr, ◌≡◌, refl}
use margot_project.Goal.{Environment}
use margot_project.Knowledge.{Configuration}
use margot_project.Knowledge.Laws.{holds}
use margot_project.Rank.Laws.{IsBetter}
use margot_project.State.{State}
use margot_project.State.Problem.{achieves_all}
use margot_project.Features.{Feature}
use margot_project.Asrtm.{Asrtm}
use margot_project.Asrtm.Run
use margot_project.Asrtm.Run.{active_state, observe}
use margot_project.Asrtm.States.{StateId}
use margot_project.Asrtm.Validity.{IsValid}
use margot_project.Asrtm.Goals.{find_best_configuration-IsOptimal}
use margot_project.DaAsrtm.{DataAwareAsrtm, active, on_active, find_best_configuration, change_at}
use margot_project.DaAsrtm.Validity.{active-AllManagers, active-change_at}
use margot_project.DaAsrtm.Reachable.{Reachable}
use margot_project.DaAsrtm.Reachable.Invariant.{Reachable-AreValid}

module _ (get_knobs : OpPtr → Configuration) where
  -- In every clustered manager that is reached by calls of the application and messages of the server,
  -- where `add_constraint` is called with a free priority and only the first constraint of lower
  -- priority blocks what the new one rejects: if a manager is active and some Operating Point of its
  -- knowledge achieves all goals of its active state, with the error coefficients that
  -- `find_best_configuration` has just updated, then the method returns, the cluster stays active, and
  -- its manager proposes an Operating Point that achieves them all and that none that does so betters.
  pub active_proposal_optimal :
      (evaluate_error : Option OpPtr → Environment → Environment) (env : Environment)
      (d : DataAwareAsrtm) (i : ℕ) (k : Feature) (m : Asrtm) (id : StateId) (st : State) (p : OpPtr)
      → Reachable get_knobs d
      → active d ≡ some (i, k, m)
      → active_state m ≡ some (id, st)
      → holds get_knobs m.knowledge p ≡ true
      → achieves_all (observe evaluate_error env m) st.constraints p ≡ true
      → (d' : DataAwareAsrtm) × (m' : Asrtm) × (find_best_configuration evaluate_error env d
          ≡ some d')
        × (active d' ≡ some (i, k, m'))
        × ((q : OpPtr) × (m'.proposed_best_configuration ≡ some q)
            × (holds get_knobs m.knowledge q ≡ true)
            × (achieves_all (observe evaluate_error env m) st.constraints q ≡ true)
            × ((o : OpPtr)
                → holds get_knobs m.knowledge o ≡ true
                → achieves_all (observe evaluate_error env m) st.constraints o ≡ true
                → ¬ IsBetter st.rank o q))
  unfolding find_best_configuration on_active
  active_proposal_optimal evaluate_error env d i k m id st p r found current known valid =
      let propose : Asrtm → Asrtm = λ m'. (Run.find_best_configuration evaluate_error env m').0 in
      let sound =
        active-AllManagers (IsValid get_knobs) d i k m (Reachable-AreValid get_knobs r).0 found in
      (
        record d { managers = change_at propose d.managers i },
        propose m,
        rw (found, find_best_configuration, on_active) refl,
        active-change_at propose d i k m found,
        find_best_configuration-IsOptimal get_knobs evaluate_error env m id st p sound current known
            valid,
      )
