-- ===== src/DaAsrtm/Reachable/Messages.antt =====
-- The messages of the server keep the managers valid, and none is refused where each brings some
-- Operating Point.
use mathlib.Core.Option
use margot_project.Base.{
  ℕ, zero, suc, ◌<◌, List, [], ◌∷◌, Option, none, some, ◌≡◌, refl, arith, length, Option-cases,
  List-cases, inl, inr, ap, ◌∙◌, OpPtr,
}
use margot_project.Goal.{Environment}
use margot_project.Knowledge.{Configuration}
use margot_project.Features.{Feature}
use margot_project.Asrtm.{Asrtm}
use margot_project.Asrtm
use margot_project.Asrtm.Run
use margot_project.Asrtm.Validity.{IsValid}
use margot_project.Asrtm.Laws.{set_single_point-IsValid, set_model-IsValid}
use margot_project.Asrtm.Methods.{of_After, After}
use margot_project.DaAsrtm.{DataAwareAsrtm, AsrtmContainer, for_each, on_all}
use margot_project.DaAsrtm.Validity.{
  AllManagers, IsPlaced, AllManagers-map, for_each-AllManagers, IsPlaced-length,
}
use margot_project.Asrtm.Handler.{
  MessageType, explore, prediction, welcome, abort, unknown, Message,
}
use margot_project.DaAsrtm.Handler.{
  first_op, handle_explore, model_managers, handle_prediction, handle, handle_messages,
}

module _ (get_knobs : OpPtr → Configuration) where
  -- Every manager is valid, and the iterator to the active one does not dangle.
  abbrev pub AreValid : DataAwareAsrtm → Type 0
  AreValid d = AllManagers (IsValid get_knobs) d.managers × IsPlaced d.managers d.active_manager

  pub on_all-AreValid :
      (f : Asrtm → Option Asrtm) (d : DataAwareAsrtm)
      → AllManagers (λ m. (m' : Asrtm) → f m ≡ some m' → IsValid get_knobs m') d.managers
      → AreValid d
      → After AreValid (on_all f d)
  unfolding on_all
  on_all-AreValid f d step h = elim (Option-cases (for_each f d.managers)) [
    | inl failed ↦ rw (failed, After, on_all) tt
    | inr (l, done) ↦
        let a = for_each-AllManagers (IsValid get_knobs) f d.managers l step done in
        rw (done, After, on_all) (a.0, IsPlaced-length d.managers l d.active_manager a.1 h.1)
  ]

  -- A method that keeps every valid manager valid
  pub on_all-step :
      (f : Asrtm → Option Asrtm) (d : DataAwareAsrtm)
      → ((m : Asrtm) → IsValid get_knobs m → After (IsValid get_knobs) (f m))
      → AreValid d
      → After AreValid (on_all f d)
  on_all-step f d step h =
      on_all-AreValid f d
        (AllManagers-map (IsValid get_knobs)
          (λ m. (m' : Asrtm) → f m ≡ some m' → IsValid get_knobs m') d.managers
          (λ m v m' e. of_After (IsValid get_knobs) (f m) m' (step m v) e) h.0)
        h

  model_managers-AllManagers :
      (env : Environment) (reference_manager : Asrtm) (model : List (Feature × List OpPtr))
      → AllManagers (IsValid get_knobs) (model_managers get_knobs env reference_manager model)
  unfolding model_managers
  model_managers-AllManagers env reference_manager [] = tt
  model_managers-AllManagers env reference_manager ((key, ops) ∷ model) = (
    set_model-IsValid get_knobs ops (Asrtm.Run.create_sibling env reference_manager),
    model_managers-AllManagers env reference_manager model,
  )

  model_managers-place :
      (env : Environment) (reference_manager : Asrtm) (model : List (Feature × List OpPtr))
      → IsPlaced
          (model_managers get_knobs env reference_manager model)
          (elim model [ [] ↦ none | e ∷ rest ↦ some 0 ])
  unfolding model_managers
  model_managers-place env reference_manager [] = tt
  model_managers-place env reference_manager (e ∷ model) = omega arith

  handle_prediction-AreValid :
      (env : Environment) (model : List (Feature × List OpPtr)) (d : DataAwareAsrtm)
      → After AreValid (handle_prediction get_knobs env model d)
  unfolding handle_prediction
  handle_prediction-AreValid env model d = elim (List-cases d.managers) [
    | inl empty ↦ rw (empty, After, handle_prediction) tt
    | inr (((k, first), l), some_managers) ↦
        rw (some_managers, After, handle_prediction)
          (
            model_managers-AllManagers env (Asrtm.Run.create_sibling env first) model,
            model_managers-place env (Asrtm.Run.create_sibling env first) model,
          )
  ]

  handle_explore-AreValid :
      (ops : List (Feature × List OpPtr)) (d : DataAwareAsrtm)
      → AreValid d
      → After AreValid (handle_explore get_knobs ops d)
  unfolding handle_explore
  handle_explore-AreValid ops d h = elim (Option-cases (first_op get_knobs ops)) [
    | inl nothing ↦ rw (nothing, After, handle_explore) tt
    | inr (op, found) ↦ elim (List-cases d.managers) [
      | inl empty ↦ rw (found, empty, After, handle_explore) tt
      | inr (e, some_managers) ↦
          rw (found, some_managers, handle_explore)
            (on_all-step _ d (λ m v. set_single_point-IsValid get_knobs op m) h)
    ]
  ]

  module _ (get_op : ℕ → List (Feature × List OpPtr)) where
    with_count :
        (r : Option DataAwareAsrtm)
        → After AreValid r
        → After
            (λ (x : DataAwareAsrtm × ℕ). AreValid x.0)
            (Option.map (λ (d : DataAwareAsrtm). (d, zero)) r)
    with_count none h = tt
    with_count (some d) h = h

    pub handle-AreValid :
        (env : Environment) (kind : MessageType) (payload : ℕ) (d : DataAwareAsrtm)
        → AreValid d
        → After (λ r. AreValid r.0) (handle get_knobs get_op env kind payload d)
    unfolding handle
    handle-AreValid env explore payload d h =
        with_count _ (handle_explore-AreValid (get_op payload) d h)
    handle-AreValid env prediction payload d h =
        with_count _ (handle_prediction-AreValid env (get_op payload) d)
    handle-AreValid env welcome payload d h = h
    handle-AreValid env abort payload d h = h
    handle-AreValid env unknown payload d h = h

  for_each-some :
      (f : Asrtm → Asrtm) (l : AsrtmContainer)
      → (l' : AsrtmContainer) × (for_each (λ m. some (f m)) l ≡ some l') × (length l' ≡ length l)
  unfolding for_each
  for_each-some f [] = ([], refl, refl)
  for_each-some f ((k, m) ∷ l) =
      let rest = for_each-some f l in ((k, f m) ∷ rest.0, rw (rest.1, for_each) refl, ap suc rest.2)

  on_all-some :
      (f : Asrtm → Asrtm) (d : DataAwareAsrtm)
      → (d' : DataAwareAsrtm) × (on_all (λ m. some (f m)) d ≡ some d')
        × (length d'.managers ≡ length d.managers)
  unfolding on_all
  on_all-some f d =
      let done = for_each-some f d.managers in
      (record d { managers = done.0 }, rw (done.1, on_all) refl, done.2)

  handle_explore-some :
      (ops : List (Feature × List OpPtr)) (op : OpPtr) (d : DataAwareAsrtm)
      → first_op get_knobs ops ≡ some op
      → 0 < length d.managers
      → (d' : DataAwareAsrtm) × (handle_explore get_knobs ops d ≡ some d')
        × (0 < length d'.managers)
  unfolding handle_explore
  handle_explore-some ops op d found some_managers = elim (List-cases d.managers) [
    | inl empty ↦ absurd (ground (arith, empty, some_managers))
    | inr (e, nonempty) ↦
        let done = on_all-some (λ m. Asrtm.set_single_point get_knobs op m) d in
        let told : handle_explore get_knobs ops d
            ≡ on_all (λ m. some (Asrtm.set_single_point get_knobs op m)) d =
          simp (found, nonempty, handle_explore) in
        (done.0, told ∙ done.1, ground (arith, done.2, some_managers))
  ]

  handle_prediction-some :
      (env : Environment) (model : List (Feature × List OpPtr)) (op : OpPtr) (d : DataAwareAsrtm)
      → first_op get_knobs model ≡ some op
      → 0 < length d.managers
      → (d' : DataAwareAsrtm) × (handle_prediction get_knobs env model d ≡ some d')
        × (0 < length d'.managers)
  unfolding handle_prediction first_op model_managers
  handle_prediction-some env [] op d found some_managers = absurd (ground (arith, found))
  handle_prediction-some env (e ∷ model) op d found some_managers = elim (List-cases d.managers) [
    | inl empty ↦ absurd (ground (arith, empty, some_managers))
    | inr (first, nonempty) ↦ (
      record {
        managers =
            model_managers get_knobs env (Asrtm.Run.create_sibling env first.0.1) (e ∷ model);
        active_manager = some 0;
      },
      rw (nonempty, handle_prediction) refl,
      omega arith,
    )
  ]

  module _ (get_op : ℕ → List (Feature × List OpPtr))
      (some_op : (payload : ℕ)
        → (op : OpPtr) × (first_op get_knobs (get_op payload) ≡ some op)) where
    handle-some :
        (env : Environment) (kind : MessageType) (payload : ℕ) (d : DataAwareAsrtm)
        → 0 < length d.managers
        → (r : DataAwareAsrtm × ℕ) × (handle get_knobs get_op env kind payload d ≡ some r)
          × (0 < length r.0.managers)
    unfolding handle
    handle-some env explore payload d h =
        let (op, found) = some_op payload in
        let next = handle_explore-some (get_op payload) op d found h in
        ((next.0, 0), rw (next.1, handle) refl, next.2)
    handle-some env prediction payload d h =
        let (op, found) = some_op payload in
        let next = handle_prediction-some env (get_op payload) op d found h in
        ((next.0, 0), rw (next.1, handle) refl, next.2)
    handle-some env welcome payload d h = ((d, 1), refl, h)
    handle-some env abort payload d h = ((d, 0), refl, h)
    handle-some env unknown payload d h = ((d, 0), refl, h)

    -- With a converter that always yields an Operating Point for the first cluster, from valid managers
    -- of at least one cluster, the support thread takes every message without a failed assertion, and
    -- leaves valid managers of at least one cluster.
    pub handle_messages-AreValid :
        (msgs : List (Environment × Message)) (d : DataAwareAsrtm)
        → 0 < length d.managers
        → AreValid d
        → (d' : DataAwareAsrtm) × (handle_messages get_knobs get_op msgs d ≡ some d')
          × (0 < length d'.managers)
          × AreValid d'
    unfolding handle_messages
    handle_messages-AreValid [] d h v = (d, refl, h, v)
    handle_messages-AreValid ((env, msg) ∷ msgs) d h v =
        let next = handle-some env msg.message_type msg.payload d h in
        let valid =
          of_After (λ r. AreValid r.0) _ next.0
            (handle-AreValid get_op env msg.message_type msg.payload d v) next.1 in
        let rest = handle_messages-AreValid msgs next.0.0 next.2 valid in
        (rest.0, rw (next.1, handle_messages) rest.1, rest.2, rest.3)
