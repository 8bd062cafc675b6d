-- ===== src/Asrtm/Laws.antt =====
-- The methods of the manager keep its invariant.
use margot_project.Base.{not, ◌&&◌, List, OpPtr, arith}
use margot_project.Knowledge.{Configuration, Knowledge, add, clear, to_stream}
use margot_project.Knowledge.Laws.{Keyed, holds, to_stream-Enumerates, add_lem}
use margot_project.State.{State}
use margot_project.State
use margot_project.State.Knowledge.{
  set_knowledge_base-Splits, add_operating_points-Splits, remove_operating_points-Splits,
}
use margot_project.State.Memory.{
  set_knowledge_base-Remembers, add_operating_points-Remembers, remove_operating_points-Remembers,
}
use margot_project.Asrtm.{
  Asrtm, add_to_knowledge, add_operating_points, remove_from_knowledge, remove_operating_points,
  set_single_point, set_model,
}
use margot_project.Asrtm.States.{StateMap, map_states}
use margot_project.Asrtm.Validity.{
  AllSound, IsValid, Splits-cong, map_states-AllSound, renew_states-AllSound, add_to_knowledge_lem,
  remove_from_knowledge_lem,
}

module _ (get_knobs : OpPtr → Configuration) where
  pub add_operating_points-IsValid :
      (op_list : List OpPtr) (m : Asrtm)
      → IsValid get_knobs m
      → IsValid get_knobs (add_operating_points get_knobs op_list m).0
  unfolding add_operating_points
  add_operating_points-IsValid op_list m h =
      let (k, new_ops) = add_to_knowledge get_knobs m.knowledge op_list in
      let a = add_to_knowledge_lem get_knobs m.knowledge op_list h.0 in
      (
        a.0,
        map_states-AllSound (holds get_knobs m.knowledge) (holds get_knobs k)
            (State.add_operating_points new_ops) m.application_optimizers
            (λ st s. (
              Splits-cong (State.add_operating_points new_ops st) (λ p. ground (arith, a.2 p))
                  (add_operating_points-Splits (holds get_knobs m.knowledge)
                    (λ p. holds get_knobs k p && not (holds get_knobs m.knowledge p)) new_ops st
                    (λ p e. ground arith) a.1 s.0),
              add_operating_points-Remembers new_ops st,
            ))
            h.1,
      )

  pub remove_operating_points-IsValid :
      (configuration_list : List Configuration) (m : Asrtm)
      → IsValid get_knobs m
      → IsValid get_knobs (remove_operating_points configuration_list m).0
  unfolding remove_operating_points
  remove_operating_points-IsValid configuration_list m h =
      let (k, removed_ops) = remove_from_knowledge m.knowledge configuration_list in
      let a = remove_from_knowledge_lem get_knobs m.knowledge configuration_list h.0 in
      (
        a.0,
        map_states-AllSound (holds get_knobs m.knowledge) (holds get_knobs k)
            (State.remove_operating_points removed_ops) m.application_optimizers
            (λ st s. (
              Splits-cong (State.remove_operating_points removed_ops st)
                  (λ p. ground (arith, a.2 p))
                  (remove_operating_points-Splits (holds get_knobs m.knowledge)
                    (λ p. holds get_knobs m.knowledge p && not (holds get_knobs k p)) removed_ops st
                    a.1 s.0),
              remove_operating_points-Remembers removed_ops st,
            ))
            h.1,
      )

  set_knowledge_base-AllSound :
      (k : Knowledge) (l : StateMap)
      → Keyed get_knobs k.knowledge
      → AllSound (holds get_knobs k) (map_states (State.set_knowledge_base (to_stream k)) l)
  set_knowledge_base-AllSound k l h =
      renew_states-AllSound (holds get_knobs k) (State.set_knowledge_base (to_stream k)) l (λ st. (
        set_knowledge_base-Splits (holds get_knobs k) (to_stream k) st
            (to_stream-Enumerates get_knobs k h),
        set_knowledge_base-Remembers (to_stream k) st,
      ))

  clear-Keyed : (k : Knowledge) → Keyed get_knobs (clear k).knowledge
  unfolding clear
  clear-Keyed k = tt

  -- Whatever the manager was before, `set_single_point` makes it valid.
  pub set_single_point-IsValid :
      (point : OpPtr) (m : Asrtm) → IsValid get_knobs (set_single_point get_knobs point m)
  unfolding set_single_point
  set_single_point-IsValid point m =
      let keyed = (add_lem get_knobs (clear m.knowledge) point (clear-Keyed m.knowledge)).0 in
      (
        keyed,
        set_knowledge_base-AllSound (add get_knobs (clear m.knowledge) point).0
            m.application_optimizers keyed,
      )

  -- Whatever the manager was before, after `set_model` the configurations of its knowledge differ, each
  -- state splits the knowledge, and what it remembers is not stale.
  pub set_model-IsValid :
      (model : List OpPtr) (m : Asrtm) → IsValid get_knobs (set_model get_knobs model m)
  unfolding set_model
  set_model-IsValid model m =
      let keyed =
        (add_to_knowledge_lem get_knobs (clear m.knowledge) model (clear-Keyed m.knowledge)).0 in
      (
        keyed,
        set_knowledge_base-AllSound (add_to_knowledge get_knobs (clear m.knowledge) model).0
            m.application_optimizers keyed,
      )
