-- ===== src/Asrtm/Invariant.antt =====
-- Every manager that is reached is valid, and what it proposes is an optimum.
use margot_project.Base.{
  ℕ, true, false, List, [], ◌∷◌, Option, none, some, OpPtr, ◌≡◌, refl, arith, is_empty, ap, ◌∙◌,
}
use margot_project.Goal.{Environment}
use margot_project.Knowledge.{Configuration, empty_knowledge}
use margot_project.Knowledge.Laws.{holds}
use margot_project.Rank.Laws.{IsBetter}
use margot_project.State.{State}
use margot_project.State.Problem.{achieves_all}
use margot_project.Asrtm.{Asrtm, default}
use margot_project.Asrtm.States.{StateId}
use margot_project.Asrtm.Run.{
  active_state, find_best_configuration, configuration_applied, restore_from_data_feature_switch,
  set_autotuner_in_dse, observe,
}
use margot_project.Asrtm.Handler.{
  MessageType, explore, prediction, welcome, abort, unknown, Message, explore_front, handle,
  handle_message, handle_messages,
}
use margot_project.Asrtm.Validity.{IsValid}
use margot_project.Asrtm.Laws.{add_operating_points-IsValid, remove_operating_points-IsValid}
use margot_project.Asrtm.Methods.{
  of_After, create_new_state-IsValid, remove_state-After, change_active_state-After,
  find_best_configuration-IsValid, get_best_configuration-After, add_runtime_knowledge-IsValid,
  create_sibling-IsValid, handle_message-After,
}
use margot_project.Asrtm.Goals.{
  find_best_configuration-IsOptimal, add_constraint-After, remove_constraint-After, set_rank-After,
}
use margot_project.Asrtm.Reachable.{
  Step, adds, removes, creates_state, removes_state, activates, monitors, constrains, releases,
  ranks, finds, gets, applies, restores, explores, clones, receives, Reachable, fresh, later,
}

module _ (get_knobs : OpPtr → Configuration) (get_op : ℕ → List OpPtr) where
  -- Each call keeps the manager valid.
  Step-IsValid :
      {m m' : Asrtm} → IsValid get_knobs m → Step get_knobs get_op m m' → IsValid get_knobs m'
  unfolding configuration_applied restore_from_data_feature_switch set_autotuner_in_dse
  Step-IsValid {m} {m'} h (adds l) = add_operating_points-IsValid get_knobs l m h
  Step-IsValid {m} {m'} h (removes l) = remove_operating_points-IsValid get_knobs l m h
  Step-IsValid {m} {m'} h (creates_state dummy_field id) =
      create_new_state-IsValid get_knobs dummy_field id m h
  Step-IsValid {m} {m'} h (removes_state id e) =
      of_After (IsValid get_knobs) _ m' (remove_state-After get_knobs id m h) e
  Step-IsValid {m} {m'} h (activates id e) =
      of_After (IsValid get_knobs) _ m' (change_active_state-After get_knobs id m h) e
  Step-IsValid {m} {m'} h (monitors field coefficient buffer) =
      add_runtime_knowledge-IsValid get_knobs field coefficient buffer m h
  Step-IsValid {m} {m'} h (constrains env goal field evaluate priority separate e) =
      add_constraint-After get_knobs env goal field evaluate priority m m' separate h e
  Step-IsValid {m} {m'} h (releases priority e) =
      remove_constraint-After get_knobs priority m m' h e
  Step-IsValid {m} {m'} h (ranks objective evaluate e) =
      set_rank-After get_knobs objective evaluate m m' h e
  Step-IsValid {m} {m'} h (finds evaluate_error env) =
      find_best_configuration-IsValid get_knobs evaluate_error env m h
  Step-IsValid {m} {m'} h (gets {changed} {conf} e) =
      of_After (λ r. IsValid get_knobs r.0) _ (m', changed, conf)
        (get_best_configuration-After get_knobs m h) e
  Step-IsValid {m} {m'} h applies = h
  Step-IsValid {m} {m'} h restores = h
  Step-IsValid {m} {m'} h explores = h
  Step-IsValid {m} {m'} h (clones env) = create_sibling-IsValid get_knobs env m
  Step-IsValid {m} {m'} h (receives msg {sent} e) =
      of_After (λ r. IsValid get_knobs r.0) _ (m', sent)
        (handle_message-After get_knobs get_op msg m h) e

  -- In every manager that is reached by calls of the application and messages of the server, where
  -- `add_constraint` is called with a free priority and only the first constraint of lower priority
  -- blocks what the new one rejects, the configurations of the knowledge differ, each state splits the
  -- knowledge among its constraints and its rank, and what it remembers is not stale.
  pub Reachable-IsValid : {m : Asrtm} → Reachable get_knobs get_op m → IsValid get_knobs m
  unfolding default empty_knowledge
  Reachable-IsValid fresh = (tt, tt)
  Reachable-IsValid (later r s) = Step-IsValid (Reachable-IsValid r) s

  -- In every manager that is reached by calls of the application and messages of the server, where
  -- `add_constraint` is called with a free priority and only the first constraint of lower priority
  -- blocks what the new one rejects: if some Operating Point of the knowledge achieves all goals of the
  -- active state, with the error coefficients that `find_best_configuration` has just updated, then the
  -- method proposes one that does so, and none that does so is better for the rank.
  pub find_best_configuration_optimal :
      (evaluate_error : Option OpPtr → Environment → Environment) (env : Environment) (m : Asrtm)
      (id : StateId) (st : State) (p : OpPtr)
      → Reachable get_knobs get_op m
      → active_state m ≡ some (id, st)
      → holds get_knobs m.knowledge p ≡ true
      → achieves_all (observe evaluate_error env m) st.constraints p ≡ true
      → (q : OpPtr) × ((find_best_configuration evaluate_error env m).0.proposed_best_configuration
          ≡ some q)
        × (holds get_knobs m.knowledge q ≡ true)
        × (achieves_all (observe evaluate_error env m) st.constraints q ≡ true)
        × ((o : OpPtr)
            → holds get_knobs m.knowledge o ≡ true
            → achieves_all (observe evaluate_error env m) st.constraints o ≡ true
            → ¬ IsBetter st.rank o q)
  find_best_configuration_optimal evaluate_error env m id st p r =
      find_best_configuration-IsOptimal get_knobs evaluate_error env m id st p (Reachable-IsValid r)

  explore_front-some :
      (ops : List OpPtr) (m : Asrtm)
      → is_empty ops ≡ false
      → (r : Asrtm × ℕ) × (explore_front get_knobs get_op ops m ≡ some r)
  unfolding explore_front
  explore_front-some [] m e = absurd (ground arith)
  explore_front-some (op ∷ ops) m e = (_, refl)

  handle-some :
      (kind : MessageType) (payload : ℕ) (m : Asrtm)
      → ((a : ℕ) → is_empty (get_op a) ≡ false)
      → (r : Asrtm × ℕ) × (handle get_knobs get_op kind payload m ≡ some r)
  unfolding handle
  handle-some explore payload m some_op = explore_front-some (get_op payload) m (some_op payload)
  handle-some prediction payload m some_op = (_, refl)
  handle-some welcome payload m some_op = (_, refl)
  handle-some abort payload m some_op = (_, refl)
  handle-some unknown payload m some_op = (_, refl)

  -- With a converter that never yields an empty list and a valid manager, the support thread takes every
  -- message without a failed assertion and leaves a valid manager.
  pub handle_messages-IsValid :
      (msgs : List Message) (m : Asrtm)
      → ((payload : ℕ) → is_empty (get_op payload) ≡ false)
      → IsValid get_knobs m
      → (m' : Asrtm) × (handle_messages get_knobs get_op msgs m ≡ some m') × IsValid get_knobs m'
  unfolding handle_messages handle_message
  handle_messages-IsValid [] m some_op h = (m, refl, h)
  handle_messages-IsValid (msg ∷ msgs) m some_op h =
      let next = handle-some msg.message_type msg.payload m some_op in
      let rest = handle_messages-IsValid msgs next.0.0 some_op (
        of_After (λ r. IsValid get_knobs r.0) _ next.0
          (handle_message-After get_knobs get_op msg m h) next.1) in
      (
        rest.0,
        ap
              (λ r. elim r as (λ x. Option Asrtm) [
                | none ↦ none
                | some taken ↦ handle_messages get_knobs get_op msgs taken.0
              ])
              next.1
            ∙ rest.1,
        rest.2,
      )
