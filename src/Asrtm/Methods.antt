-- ===== src/Asrtm/Methods.antt =====
-- The methods on one state of the manager, on the set of its states, and the support thread keep the
-- invariant.
use margot_project.Base.{
  ℕ, false, List, [], ◌∷◌, Option, none, some, OpPtr, Value, ◌≡◌, refl, arith, Option-cases, inl,
  inr, subst, Bool-cases,
}
use margot_project.Goal.{Environment}
use margot_project.Knowledge.{Configuration, to_stream, empty_knowledge, find_in}
use margot_project.Knowledge.Laws.{holds, to_stream-Enumerates}
use margot_project.State.{State}
use margot_project.State
use margot_project.State.Knowledge.{set_knowledge_base-Splits}
use margot_project.State.Settings.{
  set_knowledge_adaptor-Splits, create_sibling-Splits, get_best_operating_point-Splits,
}
use margot_project.State.Memory.{
  set_knowledge_base-Remembers, set_knowledge_adaptor-Remembers, create_sibling-Remembers,
  get_best_operating_point-Remembers,
}
use margot_project.Asrtm.{
  Asrtm, create_new_state, remove_state, default, change_active_state, get_best_configuration,
}
use margot_project.Asrtm.States.{StateId, StateMap, find_state, same_point}
use margot_project.Asrtm.Run.{
  active_state, on_active_state, find_best_configuration, add_runtime_knowledge, create_sibling,
  sibling_states,
}
use margot_project.Asrtm.Handler.{
  MessageType, Message, handle, explore_front, explore, prediction, welcome, abort, unknown,
  handle_message,
}
use margot_project.Asrtm.Validity.{
  IsSound, IsValid, map_states-AllSound, find_state-AllSound, set_state-AllSound,
  erase_state-AllSound,
}
use margot_project.Asrtm.Laws.{set_single_point-IsValid, set_model-IsValid}

-- What holds of a result if no assertion fails.
abbrev pub After {ℓ κ} : {A : Type ℓ} → (A → Type κ) → Option A → Type κ
After P none = Unit
After P (some a) = P a

pub of_After {ℓ κ} :
    {A : Type ℓ} (P : A → Type κ) (r : Option A) (a : A) → After P r → r ≡ some a → P a
of_After P r a h e = subst (After P) e h

module _ (get_knobs : OpPtr → Configuration) where
  -- A new state takes over the knowledge of the manager.
  pub create_new_state-IsValid :
      (dummy_field : OpPtr → Value) (id : StateId) (m : Asrtm)
      → IsValid get_knobs m
      → IsValid get_knobs (create_new_state dummy_field id m)
  unfolding create_new_state
  create_new_state-IsValid dummy_field id m h =
      elim (Option-cases (find_state id m.application_optimizers)) [
        | inl new ↦
            rw (new, create_new_state)
              (
                h.0,
                (
                  (
                    set_knowledge_adaptor-Splits (holds get_knobs m.knowledge) m.runtime_information
                        (State.set_knowledge_base (to_stream m.knowledge)
                          (State.default dummy_field))
                        (set_knowledge_base-Splits (holds get_knobs m.knowledge)
                          (to_stream m.knowledge) (State.default dummy_field)
                          (to_stream-Enumerates get_knobs m.knowledge h.0)),
                    set_knowledge_adaptor-Remembers m.runtime_information
                        (State.set_knowledge_base (to_stream m.knowledge)
                          (State.default dummy_field))
                        (set_knowledge_base-Remembers (to_stream m.knowledge)
                          (State.default dummy_field)),
                  ),
                  h.1,
                ),
              )
        | inr (st, found) ↦ rw (found, create_new_state) h
      ]

  pub remove_state-After :
      (id : StateId) (m : Asrtm)
      → IsValid get_knobs m
      → After (IsValid get_knobs) (remove_state id m)
  unfolding remove_state
  remove_state-After id m h = elim (Option-cases (find_state id m.application_optimizers)) [
    | inl missing ↦
        rw (missing, After, remove_state)
          (elim (Option-cases m.current_optimizer) [
            | inl inactive ↦ rw (inactive, After, remove_state) tt
            | inr (active, current) ↦ rw (current, After, remove_state) h
          ])
    | inr (st, found) ↦
        rw (found, After, remove_state)
          (elim (Bool-cases (same_point (some id) m.current_optimizer)) [
            | inl active ↦ rw (active, After, remove_state) tt
            | inr other ↦
                rw (other, After, remove_state)
                  (
                    h.0,
                    erase_state-AllSound (holds get_knobs m.knowledge) id m.application_optimizers
                        h.1,
                  )
          ])
  ]

  -- The active state, if there is one.
  pub active_state-IsSound :
      (m : Asrtm) (id : StateId) (st : State)
      → IsValid get_knobs m
      → active_state m ≡ some (id, st)
      → IsSound (holds get_knobs m.knowledge) st
  unfolding active_state
  active_state-IsSound m id st h e = elim (Option-cases m.current_optimizer) [
    | inl inactive ↦ absurd (ground (arith, inactive))
    | inr (active, current) ↦ elim (Option-cases (find_state active m.application_optimizers)) [
      | inl missing ↦ absurd (ground (arith, current, missing))
      | inr (found, there) ↦
          subst (IsSound (holds get_knobs m.knowledge)) (ground (arith, current, there)) (
            find_state-AllSound (holds get_knobs m.knowledge) active m.application_optimizers found
              h.1 there)
    ]
  ]

  -- A method that keeps what a state promises can be called on the active state.
  pub on_active_state-After :
      (f : State → State) (m : Asrtm)
      → ((id : StateId) (st : State)
          → active_state m ≡ some (id, st)
          → IsSound (holds get_knobs m.knowledge) st
          → IsSound (holds get_knobs m.knowledge) (f st))
      → IsValid get_knobs m
      → After (IsValid get_knobs) (on_active_state f m)
  unfolding on_active_state
  on_active_state-After f m step h = elim (Option-cases (active_state m)) [
    | inl inactive ↦ rw (inactive, After, on_active_state) tt
    | inr ((id, st), active) ↦
        rw (active, After, on_active_state)
          (
            h.0,
            set_state-AllSound (holds get_knobs m.knowledge) id (f st) m.application_optimizers
                (step id st active (active_state-IsSound m id st h active)) h.1,
          )
  ]

  pub find_best_configuration-IsValid :
      (evaluate_error : Option OpPtr → Environment → Environment) (env : Environment) (m : Asrtm)
      → IsValid get_knobs m
      → IsValid get_knobs (find_best_configuration evaluate_error env m).0
  unfolding find_best_configuration
  find_best_configuration-IsValid evaluate_error env m h = elim (Option-cases (active_state m)) [
    | inl inactive ↦ rw (inactive, find_best_configuration) h
    | inr ((id, st), active) ↦
        let s = active_state-IsSound m id st h active in
        rw (active, find_best_configuration)
          (
            h.0,
            set_state-AllSound (holds get_knobs m.knowledge) id _ m.application_optimizers
                (
                  get_best_operating_point-Splits (holds get_knobs m.knowledge) _ st s.0,
                  get_best_operating_point-Remembers _ st s.1,
                )
                h.1,
          )
  ]

  pub add_runtime_knowledge-IsValid :
      (field coefficient buffer : ℕ) (m : Asrtm)
      → IsValid get_knobs m
      → IsValid get_knobs (add_runtime_knowledge field coefficient buffer m)
  unfolding add_runtime_knowledge
  add_runtime_knowledge-IsValid field coefficient buffer m h = (
    h.0,
    map_states-AllSound (holds get_knobs m.knowledge) (holds get_knobs m.knowledge) _
        m.application_optimizers
        (λ st s. (
          set_knowledge_adaptor-Splits (holds get_knobs m.knowledge) _ st s.0,
          set_knowledge_adaptor-Remembers _ st s.1,
        ))
        h.1,
  )

  sibling_states-IsValid :
      (env : Environment) (l : StateMap) (cloned : Asrtm)
      → ((p : OpPtr) → holds get_knobs cloned.knowledge p ≡ false)
      → IsValid get_knobs cloned
      → IsValid get_knobs (sibling_states env l cloned)
  unfolding sibling_states
  sibling_states-IsValid env [] cloned nothing h = h
  sibling_states-IsValid env ((id, st) ∷ l) cloned nothing h =
      sibling_states-IsValid env l _ nothing (
        h.0,
        (
          (
            create_sibling-Splits (holds get_knobs cloned.knowledge) env st nothing,
            create_sibling-Remembers env st,
          ),
          h.1,
        ),
      )

  -- The sibling of any manager is valid: its knowledge is empty, and each of its states splits it and
  -- remembers nothing stale.
  pub create_sibling-IsValid :
      (env : Environment) (m : Asrtm) → IsValid get_knobs (create_sibling env m)
  unfolding create_sibling default empty_knowledge find_in
  create_sibling-IsValid env m =
      sibling_states-IsValid env m.application_optimizers default (λ p. refl) (tt, tt)

  pub change_active_state-After :
      (id : StateId) (m : Asrtm)
      → IsValid get_knobs m
      → After (IsValid get_knobs) (change_active_state id m)
  unfolding change_active_state
  change_active_state-After id m h = elim (Option-cases (find_state id m.application_optimizers)) [
    | inl missing ↦ rw (missing, After, change_active_state) tt
    | inr (st, found) ↦ rw (found, After, change_active_state) h
  ]

  pub get_best_configuration-After :
      (m : Asrtm)
      → IsValid get_knobs m
      → After (λ r. IsValid get_knobs r.0) (get_best_configuration get_knobs m)
  unfolding get_best_configuration
  get_best_configuration-After m h = elim (Option-cases m.proposed_best_configuration) [
    | inl nothing ↦ rw (nothing, After, get_best_configuration) tt
    | inr (proposed, found) ↦
        rw (found, After, get_best_configuration)
          (elim (Bool-cases (same_point (some proposed) m.application_configuration)) [
            | inl same ↦ rw (same, After) h
            | inr other ↦ rw (other, After) h
          ])
  ]

  module _ (get_op : ℕ → List OpPtr) where
    explore_front-After :
        (ops : List OpPtr) (m : Asrtm)
        → After (λ r. IsValid get_knobs r.0) (explore_front get_knobs get_op ops m)
    unfolding explore_front
    explore_front-After [] m = tt
    explore_front-After (op ∷ ops) m = set_single_point-IsValid get_knobs op m

    handle-After :
        (kind : MessageType) (payload : ℕ) (m : Asrtm)
        → IsValid get_knobs m
        → After (λ r. IsValid get_knobs r.0) (handle get_knobs get_op kind payload m)
    unfolding handle
    handle-After explore payload m h = explore_front-After (get_op payload) m
    handle-After prediction payload m h = set_model-IsValid get_knobs (get_op payload) m
    handle-After welcome payload m h = h
    handle-After abort payload m h = h
    handle-After unknown payload m h = h

    -- The support thread leaves a valid manager behind.
    pub handle_message-After :
        (msg : Message) (m : Asrtm)
        → IsValid get_knobs m
        → After (λ r. IsValid get_knobs r.0) (handle_message get_knobs get_op msg m)
    unfolding handle_message
    handle_message-After msg m h = handle-After msg.message_type msg.payload m h
